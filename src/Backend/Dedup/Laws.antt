-- ===== src/Backend/Dedup/Laws.antt =====
-- What `is_duplicate_promo` of backend/app/crud/dedup.py promises.
use ubd_probe.Prelude.{
  ℕ, zero, suc, ◌+◌, ◌-◌, ◌*◌, ◌≤◌, ◌≡◌, ◌≢◌, refl, true, List, [], ◌∷◌, All, all, contains,
  count_if, length, Eq, eq_refl, leb, arith, list_eq, nat_eq,
}
use ubd_probe.Prelude.Text.{Text}
use ubd_probe.Backend.Dedup.{
  Magnitude, magnitude_eq, is_subset, common, text_similarity, is_similar, is_duplicate_promo,
}

module _ {A : Type 0} ⦃e : Eq A⦄ where
  weaken :
      (y : A) (ys xs : List A)
      → All (λ x. contains ys x ≡ true) xs
      → All (λ x. contains (y ∷ ys) x ≡ true) xs
  unfolding contains
  weaken y ys [] h = tt
  weaken y ys (x ∷ xs) h = (ground arith, weaken y ys xs h.1)

  contains_self : (xs : List A) → All (λ x. contains xs x ≡ true) xs
  unfolding contains
  contains_self [] = tt
  contains_self (x ∷ xs) = let same = eq_refl x in (rw same refl, weaken x xs xs (contains_self xs))

  common-All : (xs ys : List A) → All (λ x. contains ys x ≡ true) xs → common xs ys ≡ length xs
  unfolding common count_if
  common-All [] ys h = refl
  common-All (x ∷ xs) ys h =
      let rest = common-All xs ys h.1 in let here = h.0 in rw here (omega (arith, rest))

  subset-All : (xs ys : List A) → All (λ x. contains ys x ≡ true) xs → is_subset xs ys ≡ true
  unfolding is_subset all
  subset-All [] ys h = refl
  subset-All (x ∷ xs) ys h = let rest = subset-All xs ys h.1 in let here = h.0 in rw here rest

scaled : (t n : ℕ) → t ≤ 1000 → t * n ≤ n * 1000
scaled t zero h = omega arith
scaled t (suc n) h = omega (arith, scaled t n h)

below : (t n c : ℕ) → c ≡ n → t ≤ 1000 → leb (t * (n + n - c)) (c * 1000) ≡ true
below t n c e h =
    let half : n + n - c ≡ n = omega (arith, e) in
    let bound = scaled t n h in rw (half, e) (ground (arith, bound))

self_similar :
    (a : List Text) (threshold : ℕ) → a ≢ [] → threshold ≤ 1000 → is_similar a a threshold ≡ true
unfolding is_similar text_similarity
self_similar [] threshold ne h = absurd (ne refl)
self_similar (x ∷ a) threshold ne h =
    let n = common-All (x ∷ a) (x ∷ a) (contains_self (x ∷ a)) in
    below threshold (length (x ∷ a)) (common (x ∷ a) (x ∷ a)) n h

-- A promo with discounts and with words in its text is a duplicate of itself at every threshold of
-- at most one (in thousandths).
pub is_duplicate_promo_self :
    (text : List Text) (mags : List Magnitude) (threshold : ℕ)
    → text ≢ []
    → mags ≢ []
    → threshold ≤ 1000
    → is_duplicate_promo text mags text mags threshold ≡ true
unfolding is_duplicate_promo
is_duplicate_promo_self text [] threshold words some_mags h = absurd (some_mags refl)
is_duplicate_promo_self text (m ∷ mags) threshold words some_mags h =
    let covered = subset-All (m ∷ mags) (m ∷ mags) (contains_self (m ∷ mags)) in
    let similar = self_similar text threshold words h in rw (covered, similar) refl
