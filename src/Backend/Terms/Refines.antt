-- ===== src/Backend/Terms/Refines.antt =====
-- `upsert_candidates` against the function from terms to their states. The session's late inserts
-- are not part of that picture.
use ubd_probe.Prelude.{
  ℕ, ◌≡◌, inl, inr, refl, sym, ◌∙◌, Option, List, [], ◌++◌, find?, length, ◌+◌, or_else, nat_eq,
  list_eq, Bool-cases, arith,
}
use ubd_probe.Prelude.Text.{Text}
use ubd_probe.Backend.Model.{Result, ok}
use ubd_probe.Backend.Terms.{
  term_eq, QueryTerm, Candidate, Terms, row_of, upsert_rows, has_twice, upsert_candidates,
}
use ubd_probe.Backend.Terms.View.{Mark, view, propose_all, view-append}
use ubd_probe.Backend.Terms.Stands.{Stands, or_else-none, Ends, upsert_rows-Ends}

module _ {Z : Type 0} where
  pub stands_now : (rows : List (QueryTerm Z)) → Stands (view rows) rows []
  unfolding Stands view row_of find?
  stands_now rows term = sym (or_else-none (view rows term))

  pub stands_at :
      (state : Text → Option (Mark Z)) (rows new : List (QueryTerm Z))
      → Stands state rows new
      → (term : Text) → state term ≡ or_else (view rows term) (view new term)
  unfolding Stands
  stands_at state rows new h = h

  pub ok-rows :
      (a b : ℕ × Terms Z) → Path (Result (ℕ × Terms Z)) (ok a) (ok b) → b.1.rows ≡ a.1.rows
  ok-rows a b e = cc

  -- An upsert that is answered without an error refines the proposals on the function from terms to
  -- their states: what the new rows say of any term is what the candidates, one after another, make
  -- of what the old rows said of it.
  pub upsert_candidates-refines :
      (db : Terms Z) (items : List (Candidate Z)) (n : ℕ) (next : Terms Z) (term : Text)
      → upsert_candidates db items ≡ ok (n, next)
      → view next.rows term ≡ propose_all items (view db.rows) term
  unfolding upsert_candidates Ends
  upsert_candidates-refines db items n next term e =
      let done = upsert_rows db.next_id items db.rows in
      elim (Bool-cases (has_twice done.1)) [
        | inl twice ↦ absurd (ground arith)
        | inr once ↦
            let shape : upsert_candidates db items
                ≡ ok (
                  length done.1,
                  record { rows = done.0 ++ done.1; next_id = db.next_id + length done.1 },
                ) =
              rw (upsert_candidates, once) refl in
            let rows : next.rows ≡ done.0 ++ done.1 = ok-rows _ _ (sym shape ∙ e) in
            let stands =
              upsert_rows-Ends items db.next_id (view db.rows) db.rows [] (stands_now db.rows)
                once in
            rw (rows, view-append done.0 done.1 term) (sym (stands_at _ _ _ stands term))
      ]
