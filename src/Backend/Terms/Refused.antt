-- ===== src/Backend/Terms/Refused.antt =====
-- `upsert_candidates` on a batch that names a new term twice.
use ubd_probe.Prelude.{
  ℕ, suc, ◌≡◌, ◌≢◌, inl, inr, refl, sym, ◌∙◌, true, false, none, some, List, [], ◌∷◌, any, null,
  ◌==◌, nat_eq, list_eq, Bool-cases, arith,
}
use ubd_probe.Prelude.Text.{Text}
use ubd_probe.Backend.Model.{err, integrity_error}
use ubd_probe.Backend.Terms.{
  term_eq, inserted, QueryTerm, Candidate, Terms, term_key, row_of, refresh, fate, upsert_rows,
  has_twice, upsert_candidates,
}
use ubd_probe.Backend.Terms.View.{
  past, differ_false, blank_other, mark, view, view-refresh_other, fate-cases,
}
use ubd_probe.Backend.Terms.Stands.{
  view-row, view-none, upsert-skipped, upsert-refreshed, upsert-inserted,
}

module _ {Z : Type 0} where
  known_other :
      (k key : Text) (rows : List (QueryTerm Z)) (t : QueryTerm Z)
      → row_of k rows ≡ some t
      → view rows key ≡ none
      → k ≢ key
  known_other k key rows t found new e =
      let one : view rows k ≡ some (mark t) = view-row k rows t found in
      let two : view rows k ≡ none = rw e new in absurd (cc)

  inserts-key :
      (key : Text) (items : List (Candidate Z)) (next : ℕ) (rows : List (QueryTerm Z))
      → null key ≡ false
      → view rows key ≡ none
      → any (λ b. term_key b.term == key) items ≡ true
      → any (λ r. r.term == key) (upsert_rows next items rows).1 ≡ true
  unfolding any
  inserts-key key [] next rows text new h = absurd (ground arith)
  inserts-key key (it ∷ items) next rows text new h = elim (fate-cases (term_key it.term) rows) [
    | inl (e, why) ↦
        let off : (term_key it.term == key) ≡ false = elim why [
          | inl blank ↦ blank_other (term_key it.term) key blank text
          | inr (t, found, done) ↦
              differ_false (term_key it.term) key
                (known_other (term_key it.term) key rows t found new)
        ] in
        rw (upsert-skipped next it items rows e)
          (inserts-key key items next rows text new (past _ _ off h))
    | inr (inl (e, written, t, found, waits)) ↦
        let other = known_other (term_key it.term) key rows t found new in
        let still : view (refresh (term_key it.term) it rows) key ≡ none =
          view-refresh_other (term_key it.term) key it rows (λ same. other (sym same)) ∙ new in
        rw (upsert-refreshed next it items rows e) (
          inserts-key key items next (refresh (term_key it.term) it rows) text still
            (past _ _ (differ_false (term_key it.term) key other) h))
    | inr (inr (e, written, free)) ↦
        rw (upsert-inserted next it items rows e) (elim (Bool-cases (term_key it.term == key)) [
          | inl hit ↦ rw hit refl
          | inr miss ↦ rw miss (inserts-key key items (suc next) rows text new (past _ _ miss h))
        ])
  ]

  -- A batch whose first candidate is of a term that is not stored yet, and that names this term once
  -- more, is refused as a whole with a violation of the unique column.
  pub upsert_candidates-refused :
      (db : Terms Z) (it : Candidate Z) (items : List (Candidate Z))
      → null (term_key it.term) ≡ false
      → row_of (term_key it.term) db.rows ≡ none
      → any (λ b. term_key b.term == term_key it.term) items ≡ true
      → upsert_candidates db (it ∷ items) ≡ err integrity_error
  unfolding upsert_candidates has_twice fate
  upsert_candidates-refused db it items text free again =
      let e : fate (term_key it.term) db.rows ≡ inserted = rw (fate, text, free) refl in
      let more =
        inserts-key (term_key it.term) items (suc db.next_id) db.rows text
          (view-none (term_key it.term) db.rows free) again in
      let twice : has_twice (upsert_rows db.next_id (it ∷ items) db.rows).1 ≡ true =
        rw (upsert-inserted db.next_id it items db.rows e, more) refl in
      rw (upsert_candidates, twice) refl
