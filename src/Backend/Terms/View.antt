-- ===== src/Backend/Terms/View.antt =====
-- What the rows of the terms stand for, a function from terms to their states, and what a candidate
-- makes of the state of a term.
use mathlib.Core.Path.{subst}
use ubd_probe.Prelude.{
  ℕ, ◌≡◌, ◌≢◌, ◌⊎◌, inl, inr, refl, sym, ◌∙◌, Bool, true, false, ◌&&◌, ◌||◌, not, Option, none,
  some, List, [], ◌∷◌, ◌++◌, find?, null, or_else, ◌==◌, nat_eq, list_eq, eq_refl, eq_sound,
  if◌then◌else◌, Bool-cases, Option-cases, arith,
}
use ubd_probe.Prelude.Text.{Text}
use ubd_probe.Backend.Terms.{
  TermStatus, open_term, term_eq, skipped, refreshed, inserted, QueryTerm, Candidate, term_key,
  row_of, refresh, fate,
}

-- The state of a term.
pub record Mark (Z : Type 0) : Type 0 where
  pub status : TermStatus
  pub z : Z
  pub support : ℕ
  pub protected : Bool

pub or_false_left : (a b : Bool) → (a || b) ≡ false → a ≡ false
or_false_left a b h = ground arith

pub or_false_right : (a b : Bool) → (a || b) ≡ false → b ≡ false
or_false_right a b h = ground arith

pub past : (a b : Bool) → a ≡ false → (a || b) ≡ true → b ≡ true
past a b off h = ground arith

pub same_of : (a b : Text) → a ≡ b → (a == b) ≡ true
same_of a b e = rw e (eq_refl {A = Text} b)

pub differ_false : (a b : Text) → a ≢ b → (a == b) ≡ false
differ_false a b off = elim (Bool-cases (a == b)) [
  | inl hit ↦ absurd (off (eq_sound {A = Text} a b hit))
  | inr miss ↦ miss
]

pub blank_other : (k key : Text) → null k ≡ true → null key ≡ false → (k == key) ≡ false
blank_other k key blank text = elim (Bool-cases (k == key)) [
  | inl hit ↦ absurd (not_both k key (eq_sound {A = Text} k key hit) blank text)
  | inr miss ↦ miss
]
  where
    not_both : (a b : Text) → a ≡ b → null a ≡ true → null b ≡ false → ⊥
    not_both a b e p q = cc

-- A pointwise claim on terms, split at one term.
pub at_term :
    (P : Text → Type 0) (key : Text)
    → P key
    → ((term : Text) → term ≢ key → P term)
    → (term : Text) → P term
at_term P key own others term = elim (Bool-cases (term == key)) [
  | inl hit ↦ subst P (sym (eq_sound {A = Text} term key hit)) own
  | inr miss ↦ others term (λ e. ground (arith, miss, same_of term key e))
]

module _ {Z : Type 0} where
  abbrev pub mark : QueryTerm Z → Mark Z
  mark t = record { status = t.status; z = t.z; support = t.support; protected = t.protected }

  abbrev pub marked : Option (QueryTerm Z) → Option (Mark Z)
  marked none = none
  marked (some t) = some (mark t)

  -- What the rows say of a term.
  unfoldable pub view : List (QueryTerm Z) → Text → Option (Mark Z)
  unfolding row_of
  view rows term = marked (row_of term rows)

  -- A candidate of an unknown term puts it in review; of one in review, it brings the newest scores;
  -- a reviewed term stays as it is.
  abbrev pub proposed : Candidate Z → Option (Mark Z) → Option (Mark Z)
  proposed it none =
      some (record { status = open_term; z = it.z; support = it.support; protected = false })
  proposed it (some m) =
      some (if m.status == open_term then record m { z = it.z; support = it.support } else m)

  unfoldable pub propose : Candidate Z → (Text → Option (Mark Z)) → Text → Option (Mark Z)
  unfolding term_key
  propose it state term =
      if term == term_key it.term && not (null (term_key it.term))
      then proposed it (state term)
      else state term

  unfoldable pub propose_all :
      List (Candidate Z) → (Text → Option (Mark Z)) → Text → Option (Mark Z)
  unfolding propose
  propose_all [] state = state
  propose_all (it ∷ items) state = propose_all items (propose it state)

  pub view-append :
      (rows more : List (QueryTerm Z)) (term : Text)
      → view (rows ++ more) term ≡ or_else (view rows term) (view more term)
  unfolding view row_of find?
  view-append [] more term = refl
  view-append (t ∷ rows) more term = elim (Bool-cases (t.term == term)) [
    | inl hit ↦ rw hit refl
    | inr miss ↦ rw miss (view-append rows more term)
  ]

  abbrev pub scored : Candidate Z → Option (Mark Z) → Option (Mark Z)
  scored it none = none
  scored it (some m) = some (record m { z = it.z; support = it.support })

  pub view-refresh_self :
      (key : Text) (it : Candidate Z) (rows : List (QueryTerm Z))
      → view (refresh key it rows) key ≡ scored it (view rows key)
  unfolding view row_of find? refresh
  view-refresh_self key it [] = refl
  view-refresh_self key it (t ∷ rows) = elim (Bool-cases (t.term == key)) [
    | inl hit ↦ rw (hit, hit) refl
    | inr miss ↦ rw (miss, miss) (view-refresh_self key it rows)
  ]

  pub view-refresh_other :
      (key term : Text) (it : Candidate Z) (rows : List (QueryTerm Z))
      → term ≢ key
      → view (refresh key it rows) term ≡ view rows term
  unfolding view row_of find? refresh
  view-refresh_other key term it [] off = refl
  view-refresh_other key term it (t ∷ rows) off = elim (Bool-cases (t.term == term)) [
    | inl own ↦ elim (Bool-cases (t.term == key)) [
      | inl hit ↦
          absurd
            (off (sym (eq_sound {A = Text} t.term term own) ∙ eq_sound {A = Text} t.term key hit))
      | inr miss ↦ rw (miss, own) refl
    ]
    | inr foreign ↦ elim (Bool-cases (t.term == key)) [
      | inl hit ↦ rw (hit, foreign) (view-refresh_other key term it rows off)
      | inr miss ↦ rw (miss, foreign) (view-refresh_other key term it rows off)
    ]
  ]

  pub fate-cases :
      (key : Text) (rows : List (QueryTerm Z))
      → ((fate key rows ≡ skipped)
          × ((null key ≡ true)
              ⊎ ((t : QueryTerm Z) × (row_of key rows ≡ some t)
                  × ((t.status == open_term) ≡ false))))
        ⊎ ((fate key rows ≡ refreshed)
            × (null key ≡ false)
            × (t : QueryTerm Z) × (row_of key rows ≡ some t)
            × ((t.status == open_term) ≡ true))
        ⊎ ((fate key rows ≡ inserted) × (null key ≡ false) × (row_of key rows ≡ none))
  unfolding fate
  fate-cases key rows = elim (Bool-cases (null key)) [
    | inl blank ↦ inl (rw (fate, blank) refl, inl blank)
    | inr text ↦ elim (Option-cases (row_of key rows)) [
      | inl new ↦ inr (inr (rw (fate, text, new) refl, text, new))
      | inr (t, e) ↦ elim (Bool-cases (t.status == open_term)) [
        | inl waits ↦ inr (inl (rw (fate, text, e, waits) refl, text, t, e, waits))
        | inr done ↦ inl (rw (fate, text, e, done) refl, inr (t, e, done))
      ]
    ]
  ]
