-- ===== src/Backend/Dedup.antt =====
-- The pure duplicate tests of backend/app/crud/dedup.py. A set is a list with no item twice; a
-- similarity is a fraction, a threshold is in thousandths.
use mathlib.Core.Path.{◌≡◌, refl}
pub mod Laws
use ubd_probe.Prelude.{
  ℕ, ◌+◌, ◌-◌, ◌*◌, Bool, true, false, ◌&&◌, ◌||◌, not, Option, none, some, List, [], ◌∷◌, ◌++◌,
  map, ltb, leb, Eq, ◌==◌, nat_beq, nat_eq, list_eq, option_eq, list_beq, contains, all, filter,
  count_if, length, null, if◌then◌else◌, ◌↔◌, arith, option_beq_iff,
}
use ubd_probe.Prelude.Text.{Text, codes, lower, split_by, span_until, last_part, starts_with}
use ubd_probe.Backend.Model.{DiscountType, discount_eq, discount_iff, Discount, percent}

abbrev stopwords : List Text
stopwords = map codes (
    "для" ∷ "на" ∷ "та" ∷ "і" ∷ "й" ∷ "з" ∷ "зі" ∷ "у" ∷ "в" ∷ "що" ∷ "як" ∷ "до" ∷ "від" ∷ "по"
    ∷ "за" ∷ "є" ∷ "а" ∷ "або" ∷ "при" ∷ "не" ∷ "the" ∷ "a" ∷ [])

-- `\w` on the Latin and Cyrillic letters and the ASCII digits
unfoldable pub is_word : ℕ → Bool
is_word c =
    (leb b'a' c && leb c b'z')
    || (leb b'A' c && leb c b'Z')
    || (leb b'0' c && leb c b'9')
    || c == b'_'
    || (leb 0x400 c && leb c 0x481)
    || (leb 0x48a c && leb c 0x52f)

module _ {ℓ} {A : Type ℓ} ⦃e : Eq A⦄ where
  -- The set of the items of a list.
  unfoldable pub to_set : List A → List A
  unfolding contains
  to_set [] = []
  to_set (x ∷ xs) = let rest = to_set xs in if contains rest x then rest else x ∷ rest

  -- `a <= b`
  unfoldable pub is_subset : List A → List A → Bool
  unfolding contains all
  is_subset a b = all (contains b) a

  -- `len(a & b)`
  unfoldable pub common : List A → List A → ℕ
  unfolding contains count_if
  common a b = count_if (contains b) a

unfoldable pub normalize_tokens : Text → List Text
unfolding to_set filter lower split_by is_word contains list_beq
normalize_tokens text = to_set (
    filter (λ w. not (null w) && not (contains stopwords w))
      (split_by (λ c. not (is_word c)) (lower text)))

-- A fraction.
pub record Similarity : Type 0 where
  pub num : ℕ
  pub den : ℕ

unfoldable pub text_similarity : List Text → List Text → Similarity
unfolding common list_beq
text_similarity a b =
    if null a || null b
    then record { num = 0; den = 1 }
    else record { num = common a b; den = length a + length b - common a b }

-- A discount type with its value.
abbrev pub Magnitude : Type 0
Magnitude = DiscountType × Option ℕ

abbrev magnitude_beq : Magnitude → Magnitude → Bool
magnitude_beq (t, v) (u, w) = t == u && v == w

pub magnitude_iff : (a b : Magnitude) → (magnitude_beq a b ≡ true) ↔ (a ≡ b)
magnitude_iff (t, v) (u, w) = ground (arith, discount_iff t u, option_beq_iff v w)

instance abbrev pub magnitude_eq : Eq Magnitude
magnitude_eq = record { beq = magnitude_beq; beq_iff = magnitude_iff }

listed_magnitudes : List Discount → List Magnitude
listed_magnitudes [] = []
listed_magnitudes (d ∷ ds) =
    let rest = listed_magnitudes ds in
    elim d.discount_type [ none ↦ rest | some t ↦ (t, d.discount_value) ∷ rest ]

unfoldable pub discount_magnitudes : List Discount → Option DiscountType → Option ℕ → List Magnitude
unfolding listed_magnitudes to_set
discount_magnitudes discounts dt dv =
    let mags = to_set (listed_magnitudes discounts) in
    if null mags then elim dt [ none ↦ [] | some t ↦ (t, dv) ∷ [] ] else mags

-- `text_similarity(a, b) >= threshold`
unfoldable pub is_similar : List Text → List Text → ℕ → Bool
unfolding text_similarity
is_similar a b threshold = let s = text_similarity a b in leb (threshold * s.den) (s.num * 1000)

unfoldable pub is_duplicate_promo :
    List Text → List Magnitude → List Text → List Magnitude → ℕ → Bool
unfolding is_subset is_similar
is_duplicate_promo a_text a_mags b_text b_mags threshold =
    if null a_mags || not (is_subset a_mags b_mags)
    then false
    else is_similar a_text b_text threshold

abbrev hub_slugs : List Text
hub_slugs = map codes (
    "promotions" ∷ "promotion" ∷ "aktsiyi" ∷ "aktsii" ∷ "akciyi" ∷ "akcia" ∷ "akciji" ∷ "znizhki"
    ∷ "znyzhky" ∷ "discounts" ∷ "sale" ∷ "sales" ∷ "offers" ∷ "propozicii" ∷ "propozycii"
    ∷ "category" ∷ "categories" ∷ "catalog" ∷ "katalog" ∷ "about" ∷ "about-us" ∷ "pro-nas"
    ∷ "pronas" ∷ "main" ∷ "home" ∷ "index" ∷ [])

unfoldable pub path_only : Text → Text
unfolding span_until
path_only canon = (span_until (λ c. c == b'?') canon).0

unfoldable pub is_hub_page : Text → Text → Bool
unfolding path_only contains starts_with split_by list_beq
is_hub_page incoming_canon peer_canon =
    if null incoming_canon
    then false
    else (let inc = path_only incoming_canon in
        let peer = path_only peer_canon in
        if not (contains inc b'/')
        then true
        else if starts_with (inc ++ codes "/") peer
        then true
        else contains hub_slugs (last_part (split_by (λ c. c == b'/') inc)))

hubs :
    (is_hub_page (codes "x.ua") (codes "x.ua/a") ≡ true)
    × (is_hub_page (codes "x.ua/a") (codes "x.ua/a/b?q") ≡ true)
    × (is_hub_page (codes "x.ua/promotion/znyzhka") (codes "x.ua/a") ≡ false)
    × (normalize_tokens (codes "Знижка 10% для УБД, УБД!")
        ≡ codes "знижка" ∷ codes "10" ∷ codes "убд" ∷ [])
unfolding is_hub_page normalize_tokens
hubs = (refl, refl, refl, refl)
