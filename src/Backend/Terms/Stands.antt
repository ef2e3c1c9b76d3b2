-- ===== src/Backend/Terms/Stands.antt =====
-- The loop of `upsert_candidates`, step by step: the rows and the inserts stand for the state that
-- the proposals have made.
use mathlib.Core.Path.{subst}
use ubd_probe.Prelude.{
  ℕ, suc, ◌≡◌, ◌≢◌, ◌⊎◌, inl, inr, refl, sym, ap, ◌∙◌, Bool, true, false, Option, none, some, List,
  [], ◌∷◌, ◌++◌, find?, any, append_nil, append_assoc, null, or_else, ◌==◌, nat_eq, list_eq,
  eq_refl, eq_sound, Bool-cases, arith,
}
use ubd_probe.Prelude.Text.{Text}
use ubd_probe.Backend.Terms.{
  open_term, term_eq, skipped, refreshed, inserted, QueryTerm, Candidate, term_key, row_of, refresh,
  new_term, fate, upsert_rows, has_twice,
}
use ubd_probe.Backend.Terms.View.{
  Mark, or_false_left, or_false_right, same_of, at_term, mark, view, proposed, propose, propose_all,
  view-append, view-refresh_self, view-refresh_other, fate-cases,
}

module _ {Z : Type 0} where
  -- The state that the loop has reached: the stored rows, and the rows it is going to insert.
  unfoldable pub Stands :
      (Text → Option (Mark Z)) → List (QueryTerm Z) → List (QueryTerm Z) → Type 0
  Stands state rows new = (term : Text) → state term ≡ or_else (view rows term) (view new term)

  -- The proposal of a candidate away from its own term, and on it.
  pub propose_other :
      (it : Candidate Z) (state : Text → Option (Mark Z)) (term : Text)
      → term ≢ term_key it.term
      → propose it state term ≡ state term
  unfolding propose
  propose_other it state term off = elim (Bool-cases (term == term_key it.term)) [
    | inl hit ↦ absurd (off (eq_sound {A = Text} term (term_key it.term) hit))
    | inr miss ↦ rw miss refl
  ]

  pub propose_blank :
      (it : Candidate Z) (state : Text → Option (Mark Z)) (term : Text)
      → null (term_key it.term) ≡ true
      → propose it state term ≡ state term
  unfolding propose
  propose_blank it state term blank = elim (Bool-cases (term == term_key it.term)) [
    | inl hit ↦ rw (hit, blank) refl
    | inr miss ↦ rw miss refl
  ]

  pub propose_self :
      (it : Candidate Z) (state : Text → Option (Mark Z))
      → null (term_key it.term) ≡ false
      → propose it state (term_key it.term) ≡ proposed it (state (term_key it.term))
  unfolding propose
  propose_self it state text = rw (eq_refl {A = Text} (term_key it.term), text) refl

  unfoldable pub Stands-next :
      (it : Candidate Z) (state : Text → Option (Mark Z)) (rows new rows' new' : List (QueryTerm Z))
      → Stands state rows new
      → null (term_key it.term) ≡ false
      → proposed it (or_else (view rows (term_key it.term)) (view new (term_key it.term)))
        ≡ or_else (view rows' (term_key it.term)) (view new' (term_key it.term))
      → ((x : Text)
          → x ≢ term_key it.term
          → or_else (view rows x) (view new x) ≡ or_else (view rows' x) (view new' x))
      → Stands (propose it state) rows' new'
  unfolding Stands
  Stands-next it state rows new rows' new' h text own others =
      at_term (λ x. propose it state x ≡ or_else (view rows' x) (view new' x)) (term_key it.term)
        (propose_self it state text ∙ (ap (proposed it) (h (term_key it.term)) ∙ own))
        (λ x off. propose_other it state x off ∙ (h x ∙ others x off))

  pub view-row :
      (term : Text) (rows : List (QueryTerm Z)) (t : QueryTerm Z)
      → row_of term rows ≡ some t
      → view rows term ≡ some (mark t)
  unfolding view
  view-row term rows t e = rw e refl

  pub skipped-Stands :
      (it : Candidate Z) (state : Text → Option (Mark Z)) (rows new : List (QueryTerm Z))
      → Stands state rows new
      → (null (term_key it.term) ≡ true)
        ⊎ ((t : QueryTerm Z) × (row_of (term_key it.term) rows ≡ some t)
            × ((t.status == open_term) ≡ false))
      → Stands (propose it state) rows new
  unfolding Stands
  skipped-Stands it state rows new h (inl blank) =
      λ term. propose_blank it state term blank ∙ h term
  skipped-Stands it state rows new h (inr (t, e, done)) =
      elim (Bool-cases (null (term_key it.term))) [
        | inl blank ↦ λ term. propose_blank it state term blank ∙ h term
        | inr text ↦
            Stands-next it state rows new rows new h text
              (rw (view-row (term_key it.term) rows t e, done) refl) (λ x off. refl)
      ]

  pub refreshed-Stands :
      (it : Candidate Z) (state : Text → Option (Mark Z)) (rows new : List (QueryTerm Z))
      (t : QueryTerm Z)
      → Stands state rows new
      → null (term_key it.term) ≡ false
      → row_of (term_key it.term) rows ≡ some t
      → (t.status == open_term) ≡ true
      → Stands (propose it state) (refresh (term_key it.term) it rows) new
  refreshed-Stands it state rows new t h text e waits =
      Stands-next it state rows new (refresh (term_key it.term) it rows) new h text
        (rw
          (
            view-refresh_self (term_key it.term) it rows,
            view-row (term_key it.term) rows t e,
            waits,
          )
          refl)
        (λ x off. rw (view-refresh_other (term_key it.term) x it rows off) refl)

  pub view-none :
      (term : Text) (rows : List (QueryTerm Z)) → row_of term rows ≡ none → view rows term ≡ none
  unfolding view
  view-none term rows e = rw e refl

  pub view-one_self : (t : QueryTerm Z) → view (t ∷ []) t.term ≡ some (mark t)
  unfolding view row_of find?
  view-one_self t = rw (eq_refl {A = Text} t.term) refl

  pub view-one_other : (t : QueryTerm Z) (x : Text) → x ≢ t.term → view (t ∷ []) x ≡ none
  unfolding view row_of find?
  view-one_other t x off = elim (Bool-cases (t.term == x)) [
    | inl hit ↦ absurd (off (sym (eq_sound {A = Text} t.term x hit)))
    | inr miss ↦ rw miss refl
  ]

  pub or_else-none : (o : Option (Mark Z)) → or_else o none ≡ o
  or_else-none none = refl
  or_else-none (some m) = refl

  pub any-past :
      (p : QueryTerm Z → Bool) (new rest : List (QueryTerm Z)) (t : QueryTerm Z)
      → any p (new ++ (t ∷ rest)) ≡ false
      → p t ≡ false
  unfolding any
  any-past p [] rest t h = or_false_left (p t) _ h
  any-past p (s ∷ new) rest t h = any-past p new rest t (or_false_right (p s) _ h)

  -- Two inserts of one term would be refused, so a term that is inserted now was not before.
  pub has_twice-free :
      (new rest : List (QueryTerm Z)) (t : QueryTerm Z)
      → has_twice (new ++ (t ∷ rest)) ≡ false
      → view new t.term ≡ none
  unfolding has_twice view row_of find?
  has_twice-free [] rest t h = refl
  has_twice-free (s ∷ new) rest t h =
      let apart : (t.term == s.term) ≡ false =
        any-past (λ r. r.term == s.term) new rest t (or_false_left _ _ h) in
      elim (Bool-cases (s.term == t.term)) [
        | inl hit ↦ absurd (
            ground
              (arith, apart, same_of t.term s.term (sym (eq_sound {A = Text} s.term t.term hit))))
        | inr miss ↦ rw miss (has_twice-free new rest t (or_false_right _ _ h))
      ]

  -- A row that is inserted for a term which no row and no insert has.
  pub inserted-Stands :
      (it : Candidate Z) (state : Text → Option (Mark Z)) (rows new : List (QueryTerm Z)) (id : ℕ)
      → Stands state rows new
      → null (term_key it.term) ≡ false
      → row_of (term_key it.term) rows ≡ none
      → view new (term_key it.term) ≡ none
      → Stands (propose it state) rows (new ++ (new_term id (term_key it.term) it ∷ []))
  inserted-Stands it state rows new id h text e free =
      Stands-next it state rows new rows (new ++ (new_term id (term_key it.term) it ∷ [])) h text
        (rw
          (
            view-none (term_key it.term) rows e,
            view-append new (new_term id (term_key it.term) it ∷ []) (term_key it.term),
            free,
            view-one_self (new_term id (term_key it.term) it),
          )
          refl)
        (λ x off.
          rw
            (
              view-append new (new_term id (term_key it.term) it ∷ []) x,
              view-one_other (new_term id (term_key it.term) it) x off,
              or_else-none (view new x),
            )
            refl)

  pub upsert-nil : (next : ℕ) (rows : List (QueryTerm Z)) → upsert_rows next [] rows ≡ (rows, [])
  unfolding upsert_rows
  upsert-nil next rows = refl

  pub upsert-skipped :
      (next : ℕ) (it : Candidate Z) (items : List (Candidate Z)) (rows : List (QueryTerm Z))
      → fate (term_key it.term) rows ≡ skipped
      → upsert_rows next (it ∷ items) rows ≡ upsert_rows next items rows
  unfolding upsert_rows
  upsert-skipped next it items rows e = rw (upsert_rows, e) refl

  pub upsert-refreshed :
      (next : ℕ) (it : Candidate Z) (items : List (Candidate Z)) (rows : List (QueryTerm Z))
      → fate (term_key it.term) rows ≡ refreshed
      → upsert_rows next (it ∷ items) rows
        ≡ upsert_rows next items (refresh (term_key it.term) it rows)
  unfolding upsert_rows
  upsert-refreshed next it items rows e = rw (upsert_rows, e) refl

  pub upsert-inserted :
      (next : ℕ) (it : Candidate Z) (items : List (Candidate Z)) (rows : List (QueryTerm Z))
      → fate (term_key it.term) rows ≡ inserted
      → upsert_rows next (it ∷ items) rows ≡ (
        (upsert_rows (suc next) items rows).0,
        new_term next (term_key it.term) it ∷ (upsert_rows (suc next) items rows).1,
      )
  unfolding upsert_rows
  upsert-inserted next it items rows e = rw (upsert_rows, e) refl

  -- The rows that the loop ends with stand for the state after all proposals.
  unfoldable pub Ends :
      List (Candidate Z)
      → (Text → Option (Mark Z))
      → List (QueryTerm Z)
      → List (QueryTerm Z) × List (QueryTerm Z)
      → Type 0
  Ends items state new done =
      has_twice (new ++ done.1) ≡ false → Stands (propose_all items state) done.0 (new ++ done.1)

  pub upsert_rows-Ends :
      (items : List (Candidate Z)) (next : ℕ) (state : Text → Option (Mark Z))
      (rows new : List (QueryTerm Z))
      → Stands state rows new
      → Ends items state new (upsert_rows next items rows)
  unfolding Ends propose_all
  upsert_rows-Ends [] next state rows new h =
      rw (upsert-nil next rows) (λ once. rw (append_nil new) h)
  upsert_rows-Ends (it ∷ items) next state rows new h = elim (fate-cases (term_key it.term) rows) [
    | inl (e, why) ↦ rw (upsert-skipped next it items rows e) (
        upsert_rows-Ends items next (propose it state) rows new
          (skipped-Stands it state rows new h why))
    | inr (inl (e, text, t, found, waits)) ↦ rw (upsert-refreshed next it items rows e) (
        upsert_rows-Ends items next (propose it state) (refresh (term_key it.term) it rows) new
          (refreshed-Stands it state rows new t h text found waits))
    | inr (inr (e, text, free)) ↦ rw (upsert-inserted next it items rows e) (λ once.
        let n = new_term next (term_key it.term) it in
        let done = upsert_rows (suc next) items rows in
        let regroup = append_assoc new (n ∷ []) done.1 in
        let free_new = has_twice-free new done.1 n once in
        let stands = inserted-Stands it state rows new next h text free free_new in
        let ends =
          upsert_rows-Ends items (suc next) (propose it state) rows (new ++ (n ∷ [])) stands in
        subst (λ l. Stands (propose_all items (propose it state)) done.0 l) regroup
          (ends (subst (λ l. has_twice l ≡ false) (sym regroup) once)))
  ]
