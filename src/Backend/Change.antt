-- ===== src/Backend/Change.antt =====
-- Tables before and after a change, row by row.
use mathlib.Core.Path.{subst}
use ubd_probe.Prelude.{
  ℕ, ◌≡◌, ◌≢◌, sym, ap, ◌∙◌, inl, inr, List, [], ◌∷◌, ◌==◌, nat_eq, eq_sound, All, Bool-cases,
}
use ubd_probe.Backend.Model.{Offer, modify}
use ubd_probe.Backend.Rows.{In, HasIds, All-In}

-- The rows are as many and in the same order, and each is related to what it has become.
abbrev pub Each : (Offer → Offer → Type 0) → List Offer → List Offer → Type 0
Each R [] [] = Unit
Each R [] (p ∷ after) = ⊥
Each R (o ∷ rows) [] = ⊥
Each R (o ∷ rows) (p ∷ after) = R o p × Each R rows after

pub Each-refl :
    (R : Offer → Offer → Type 0) (rows : List Offer) → ((o : Offer) → R o o) → Each R rows rows
Each-refl R [] same = tt
Each-refl R (o ∷ rows) same = (same o, Each-refl R rows same)

-- An assignment to the rows with an id, after earlier changes that have kept the ids.
pub Each-modify :
    (R : Offer → Offer → Type 0) (id : ℕ) (f : Offer → Offer) (rows after : List Offer)
    → ((o p : Offer) → R o p → p.id ≡ o.id)
    → All (λ o. o.id ≡ id → (p : Offer) → R o p → R o (f p)) rows
    → Each R rows after
    → Each R rows (modify id f after)
unfolding modify
Each-modify R id f [] [] ids step h = tt
Each-modify R id f [] (p ∷ after) ids step h = absurd h
Each-modify R id f (o ∷ rows) [] ids step h = absurd h
Each-modify R id f (o ∷ rows) (p ∷ after) ids step h =
    let rest = Each-modify R id f rows after ids step.1 h.1 in
    elim (Bool-cases (p.id == id)) [
      | inl hit ↦ rw hit (step.0 (sym (ids o p h.0) ∙ eq_sound p.id id hit) p h.0, rest)
      | inr miss ↦ rw miss (h.0, rest)
    ]

-- Where no two rows share an id, what holds of a row holds of every row with its id.
pub All-same_id :
    (P : Offer → Type 0) (rows : List Offer) (o : Offer)
    → HasIds rows
    → In o rows
    → P o
    → All (λ x. x.id ≡ o.id → P x) rows
All-same_id P [] o ids m h = absurd m
All-same_id P (x ∷ rows) o ids (inl e) h = (λ same. subst P e h, others rows ids.0)
  where
    others : (rest : List Offer) → All (λ p. x.id ≢ p.id) rest → All (λ y. y.id ≡ o.id → P y) rest
    others [] away = tt
    others (y ∷ rest) away =
        (λ same. absurd (away.0 (sym (same ∙ ap (λ (z : Offer). z.id) e))), others rest away.1)
All-same_id P (x ∷ rows) o ids (inr m) h =
    (λ same. absurd (All-In (λ p. x.id ≢ p.id) rows o ids.0 m same), All-same_id P rows o ids.1 m h)
