-- ===== src/Backend/Valid.antt =====
-- The invariant of the offers table of backend/app/models/offer.py: ids are distinct and below the
-- next id, and a published row supersedes nothing (the supersede graph has no edge out of a live row).
use mathlib.Core.Path.{subst}
use ubd_probe.Prelude.{
  ℕ, suc, ◌<◌, ◌≡◌, refl, sym, ◌∙◌, ◌≢◌, inl, inr, Bool, true, ◌&&◌, not, some, List, [], ◌∷◌, ◌++◌,
  All, ◌==◌, nat_eq, option_eq, is_some, arith, Bool-cases,
}
use ubd_probe.Backend.Branches.{drop_shadows}
use ubd_probe.Backend.Model.{pending_review, published, status_eq, Offer, modify}
use ubd_probe.Backend.Rows.{HasIds}

-- The row is live only if it supersedes nothing.
abbrev pub is_rooted : Offer → Bool
is_rooted o = not (o.status == published && is_some o.supersedes_offer_id)

-- A row of a table whose next id is given.
abbrev pub IsSound : ℕ → Offer → Type 0
IsSound next o = (o.id < next) × (is_rooted o ≡ true)

abbrev pub IsValid : ℕ → List Offer → Type 0
IsValid next rows = All (IsSound next) rows × HasIds rows

-- An update of a row that keeps its id and leaves it rooted.
abbrev pub IsMild : (Offer → Offer) → Type 0
IsMild f =
    ((o : Offer) → (f o).id ≡ o.id) × ((o : Offer) → is_rooted o ≡ true → is_rooted (f o) ≡ true)

ids_apart :
    (i id : ℕ) (f : Offer → Offer) (rows : List Offer)
    → ((o : Offer) → (f o).id ≡ o.id)
    → All (λ p. i ≢ p.id) rows
    → All (λ p. i ≢ p.id) (modify id f rows)
unfolding modify
ids_apart i id f [] same h = tt
ids_apart i id f (o ∷ rows) same h =
    let rest = ids_apart i id f rows same h.1 in
    elim (Bool-cases (o.id == id)) [
      | inl hit ↦ rw hit ((λ e. h.0 (e ∙ same o)), rest)
      | inr miss ↦ rw miss (h.0, rest)
    ]

pub modify-IsValid :
    (next id : ℕ) (f : Offer → Offer) (rows : List Offer)
    → IsMild f
    → IsValid next rows
    → IsValid next (modify id f rows)
unfolding modify
modify-IsValid next id f [] mild h = (tt, tt)
modify-IsValid next id f (o ∷ rows) mild h =
    let rest = modify-IsValid next id f rows mild (h.0.1, h.1.1) in
    let apart = ids_apart o.id id f rows mild.0 h.1.0 in
    elim (Bool-cases (o.id == id)) [
      | inl hit ↦ rw hit (
        ((subst (λ i. i < next) (sym (mild.0 o)) h.0.0.0, mild.1 o h.0.0.1), rest.0),
        ((subst (λ i. All (λ p. i ≢ p.id) (modify id f rows)) (sym (mild.0 o)) apart), rest.1),
      )
      | inr miss ↦ rw miss ((h.0.0, rest.0), (apart, rest.1))
    ]

pub modify-HasIds :
    (id : ℕ) (f : Offer → Offer) (rows : List Offer)
    → ((o : Offer) → (f o).id ≡ o.id)
    → HasIds rows
    → HasIds (modify id f rows)
unfolding modify
modify-HasIds id f [] same h = tt
modify-HasIds id f (o ∷ rows) same h =
    let rest = modify-HasIds id f rows same h.1 in
    let apart = ids_apart o.id id f rows same h.0 in
    elim (Bool-cases (o.id == id)) [
      | inl hit ↦
          rw hit ((subst (λ i. All (λ p. i ≢ p.id) (modify id f rows)) (sym (same o)) apart), rest)
      | inr miss ↦ rw miss (apart, rest)
    ]

shadow_ids :
    (i id : ℕ) (rows : List Offer)
    → All (λ p. i ≢ p.id) rows
    → All (λ p. i ≢ p.id) (drop_shadows id rows)
unfolding drop_shadows
shadow_ids i id [] h = tt
shadow_ids i id (o ∷ rows) h = (ground arith, shadow_ids i id rows h.1)

pub drop_shadows-IsValid :
    (next id : ℕ) (rows : List Offer) → IsValid next rows → IsValid next (drop_shadows id rows)
unfolding drop_shadows
drop_shadows-IsValid next id [] h = (tt, tt)
drop_shadows-IsValid next id (o ∷ rows) h =
    let rest = drop_shadows-IsValid next id rows (h.0.1, h.1.1) in
    let apart = shadow_ids o.id id rows h.1.0 in
    elim (Bool-cases (o.supersedes_offer_id == some id && o.status == pending_review)) [
      | inl hit ↦ rw hit (((h.0.0.0, refl), rest.0), (apart, rest.1))
      | inr miss ↦ rw miss ((h.0.0, rest.0), (apart, rest.1))
    ]

append-All :
    (P : Offer → Type 0) (rows : List Offer) (o : Offer)
    → All P rows
    → P o
    → All P (rows ++ (o ∷ []))
append-All P [] o h k = (k, tt)
append-All P (x ∷ rows) o h k = (h.0, append-All P rows o h.1 k)

grown : (next : ℕ) (rows : List Offer) → All (IsSound next) rows → All (IsSound (suc next)) rows
grown next [] h = tt
grown next (o ∷ rows) h = ((omega arith, h.0.1), grown next rows h.1)

append-HasIds :
    (next : ℕ) (rows : List Offer) (o : Offer)
    → o.id ≡ next
    → IsValid next rows
    → HasIds (rows ++ (o ∷ []))
append-HasIds next [] o e h = (tt, tt)
append-HasIds next (x ∷ rows) o e h = (
  append-All (λ p. x.id ≢ p.id) rows o h.1.0 (λ same. ground arith),
  append-HasIds next rows o e (h.0.1, h.1.1),
)

pub append-IsValid :
    (next : ℕ) (rows : List Offer) (o : Offer)
    → o.id ≡ next
    → is_rooted o ≡ true
    → IsValid next rows
    → IsValid (suc next) (rows ++ (o ∷ []))
append-IsValid next rows o e rooted h = (
  append-All (IsSound (suc next)) rows o (grown next rows h.0) (rw e (omega arith), rooted),
  append-HasIds next rows o e h,
)
