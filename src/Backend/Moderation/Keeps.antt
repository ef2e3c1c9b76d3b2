-- ===== src/Backend/Moderation/Keeps.antt =====
-- The operations of review that change no live row keep the table of offers valid, and learning a
-- blocked host leaves it alone.
use mathlib.Core.Path.{subst}
use ubd_probe.Prelude.{
  ℕ, ◌<◌, ◌≡◌, refl, sym, ap, ◌∙◌, ◌≢◌, inl, inr, Bool, true, false, Option, none, some, List, [],
  ◌∷◌, map, All, ◌==◌, nat_eq, option_eq, if◌then◌else◌, arith, Bool-cases,
}
use ubd_probe.Prelude.Text.{Text}
use ubd_probe.Backend.Blocklist.{auto_block, approve_host, sweep, is_swept}
use ubd_probe.Backend.Urlnorm.{bare_host}
use ubd_probe.Backend.Model.{rejected, expired, status_eq, creator_eq, Offer, Db}
use ubd_probe.Backend.Moderation.{autoblock_all, remove_row, is_stale, expire_rows}
use ubd_probe.Backend.Moderation.Valid.{detached}
use ubd_probe.Backend.Valid.{IsValid, is_rooted}

-- The same offers and the same next id.
abbrev pub SameOffers : Db → Db → Type 0
SameOffers a b = (b.offers ≡ a.offers) × (b.next_id ≡ a.next_id)

pub approve_host-SameOffers :
    (db : Db) (h : Text) (by : Option ℕ) (f : Option ℕ → Option ℕ)
    → SameOffers db (approve_host db h by f)
unfolding approve_host
approve_host-SameOffers db h by f = ground arith

pub autoblock_all-SameOffers :
    (like : Text → Option Text → Bool) (approved hosts : List Text) (db : Db)
    → SameOffers db (autoblock_all like approved hosts db)
unfolding autoblock_all auto_block
autoblock_all-SameOffers like approved [] db = (refl, refl)
autoblock_all-SameOffers like approved (h ∷ hosts) db =
    let next = approve_host db (bare_host h) none (λ old. old) in
    let kept = approve_host-SameOffers db (bare_host h) none (λ old. old) in
    let rest = autoblock_all-SameOffers like approved hosts db in
    let later = autoblock_all-SameOffers like approved hosts next in ground arith

All-apart :
    (i : ℕ) (rows : List Offer) (f : Offer → Offer)
    → ((o : Offer) → (f o).id ≡ o.id)
    → All (λ p. i ≢ p.id) rows
    → All (λ p. i ≢ p.id) (map f rows)
All-apart i [] f same h = tt
All-apart i (o ∷ rows) f same h = ((λ e. h.0 (e ∙ same o)), All-apart i rows f same h.1)

pub map-IsValid :
    (next : ℕ) (f : Offer → Offer) (rows : List Offer)
    → ((o : Offer) → (f o).id ≡ o.id)
    → ((o : Offer) → is_rooted o ≡ true → is_rooted (f o) ≡ true)
    → IsValid next rows
    → IsValid next (map f rows)
map-IsValid next f [] same mild h = (tt, tt)
map-IsValid next f (o ∷ rows) same mild h =
    let rest = map-IsValid next f rows same mild (h.0.1, h.1.1) in
    (
      ((subst (λ i. i < next) (sym (same o)) h.0.0.0, mild o h.0.0.1), rest.0),
      (
        subst (λ i. All (λ p. i ≢ p.id) (map f rows)) (sym (same o))
            (All-apart o.id rows f same h.1.0),
        rest.1,
      ),
    )

expire_rows-map :
    (cutoff : ℕ) (rows : List Offer)
    → expire_rows cutoff rows
      ≡ map (λ o. if is_stale cutoff o then record o { status = expired } else o) rows
unfolding expire_rows
expire_rows-map cutoff [] = refl
expire_rows-map cutoff (o ∷ rows) =
    ap (λ rest. (if is_stale cutoff o then record o { status = expired } else o) ∷ rest)
      (expire_rows-map cutoff rows)

sweep-map :
    (host : Text) (rows : List Offer)
    → sweep host rows
      ≡ map (λ o. if is_swept host o then record o { status = rejected } else o) rows
unfolding sweep
sweep-map host [] = refl
sweep-map host (o ∷ rows) =
    ap (λ rest. (if is_swept host o then record o { status = rejected } else o) ∷ rest)
      (sweep-map host rows)

if_id : (t : Bool) (o p : Offer) → p.id ≡ o.id → (if t then p else o).id ≡ o.id
if_id true o p e = e
if_id false o p e = refl

if_rooted :
    (t : Bool) (o p : Offer)
    → is_rooted p ≡ true
    → is_rooted o ≡ true
    → is_rooted (if t then p else o) ≡ true
if_rooted true o p k h = k
if_rooted false o p k h = h

pub expire_rows-IsValid :
    (next cutoff : ℕ) (rows : List Offer)
    → IsValid next rows
    → IsValid next (expire_rows cutoff rows)
expire_rows-IsValid next cutoff rows h = subst (IsValid next) (sym (expire_rows-map cutoff rows)) (
    map-IsValid next _ rows (λ o. if_id (is_stale cutoff o) o _ refl)
      (λ o. if_rooted (is_stale cutoff o) o _ refl) h)

pub sweep-IsValid :
    (next : ℕ) (host : Text) (rows : List Offer)
    → IsValid next rows
    → IsValid next (sweep host rows)
sweep-IsValid next host rows h = subst (IsValid next) (sym (sweep-map host rows)) (
    map-IsValid next _ rows (λ o. if_id (is_swept host o) o _ refl)
      (λ o. if_rooted (is_swept host o) o _ refl) h)

remove-apart :
    (i id : ℕ) (rows : List Offer)
    → All (λ p. i ≢ p.id) rows
    → All (λ p. i ≢ p.id) (remove_row id rows)
unfolding remove_row
remove-apart i id [] h = tt
remove-apart i id (o ∷ rows) h = let rest = remove-apart i id rows h.1 in ground arith

pub remove_row-IsValid :
    (next id : ℕ) (rows : List Offer) → IsValid next rows → IsValid next (remove_row id rows)
unfolding remove_row
remove_row-IsValid next id [] h = (tt, tt)
remove_row-IsValid next id (o ∷ rows) h =
    let rest = remove_row-IsValid next id rows (h.0.1, h.1.1) in
    let apart = remove-apart o.id id rows h.1.0 in
    let cleared =
      if o.supersedes_offer_id == some id then record o { supersedes_offer_id = none } else o in
    let cleared_id =
      if_id (o.supersedes_offer_id == some id) o (record o { supersedes_offer_id = none }) refl in
    let sound =
      if_rooted (o.supersedes_offer_id == some id) o (record o { supersedes_offer_id = none })
        (detached o.status) h.0.0.1 in
    elim (Bool-cases (o.id == id)) [
      | inl hit ↦ rw hit rest
      | inr miss ↦ rw miss (
        ((subst (λ i. i < next) (sym cleared_id) h.0.0.0, sound), rest.0),
        (subst (λ i. All (λ p. i ≢ p.id) (remove_row id rows)) (sym cleared_id) apart, rest.1),
      )
    ]
