-- ===== src/Backend/Terms.antt =====
-- backend/app/crud/query_term.py: the terms that wait for a moderator, and those that feed the
-- crawler's queries. A session does not flush before a query, so a query sees only the rows that are
-- stored. `Z` is the type of the scores, floats in the code, which are only stored.
pub mod Tests
pub mod View
pub mod Stands
pub mod Refines
pub mod Refused
use mathlib.Core.Path.{◌≡◌}
use ubd_probe.Prelude.{
  ℕ, suc, ◌+◌, ◌↔◌, Bool, true, false, ◌&&◌, ◌||◌, not, Option, none, some, List, [], ◌∷◌, ◌++◌,
  map, filter, find?, any, length, null, ◌==◌, Eq, nat_beq, nat_eq, list_eq, list_beq, option_eq,
  if◌then◌else◌, arith,
}
use ubd_probe.Prelude.Table.{row_at, put}
use ubd_probe.Prelude.Text.{Text, strip, lower}
use ubd_probe.Backend.Model.{Result, ok, err, not_found, integrity_error}

pub data TermStatus : Type 0 where
  -- `pending`, `approved` and `rejected`
  open_term approved_term rejected_term : TermStatus

abbrev term_code : TermStatus → ℕ
term_code open_term = 0
term_code approved_term = 1
term_code rejected_term = 2

pub term_iff : (a b : TermStatus) → (nat_beq (term_code a) (term_code b) ≡ true) ↔ (a ≡ b)
term_iff a b = ground arith

instance abbrev pub term_eq : Eq TermStatus
term_eq = record { beq = λ a b. nat_beq (term_code a) (term_code b); beq_iff = term_iff }

-- What becomes of a candidate.
pub data Fate : Type 0 where
  skipped refreshed inserted : Fate

pub record QueryTerm (Z : Type 0) : Type 0 where
  pub id : ℕ
  pub term : Text
  pub status : TermStatus
  pub z : Z
  pub support : ℕ
  pub protected : Bool
  pub reviewed_by : Option ℕ
  pub reviewed_at : Option ℕ

pub record Candidate (Z : Type 0) : Type 0 where
  pub term : Text
  pub z : Z
  pub support : ℕ

pub record Terms (Z : Type 0) : Type 0 where
  pub rows : List (QueryTerm Z)
  pub next_id : ℕ

-- `it.term.strip().lower()`
unfoldable pub term_key : Text → Text
unfolding strip lower
term_key term = lower (strip term)

module _ {Z : Type 0} where
  abbrev pub term_id_of : QueryTerm Z → ℕ
  term_id_of t = t.id

  -- `db.query(QueryTerm).filter(QueryTerm.term == term).first()`; the column is unique.
  unfoldable pub row_of : Text → List (QueryTerm Z) → Option (QueryTerm Z)
  unfolding find? list_beq
  row_of term rows = find? (λ t. t.term == term) rows

  -- `obj.z = it.z; obj.support = it.support`, on the row of the term
  unfoldable pub refresh : Text → Candidate Z → List (QueryTerm Z) → List (QueryTerm Z)
  unfolding list_beq
  refresh term it [] = []
  refresh term it (t ∷ rows) =
      (if t.term == term then record t { z = it.z; support = it.support } else t)
      ∷ refresh term it rows

  abbrev pub new_term : ℕ → Text → Candidate Z → QueryTerm Z
  new_term id term it = record {
    id = id;
    term = term;
    status = open_term;
    z = it.z;
    support = it.support;
    protected = false;
    reviewed_by = none;
    reviewed_at = none;
  }

  -- The row of a term decides: one in review is refreshed, a reviewed one is left, none is inserted.
  unfoldable pub fate : Text → List (QueryTerm Z) → Fate
  unfolding row_of
  fate key rows =
      let known : Fate = elim (row_of key rows) [
        | none ↦ inserted
        | some t ↦ if t.status == open_term then refreshed else skipped
      ] in
      if null key then skipped else known

  -- The loop over the candidates: the stored rows with their new scores, and the rows to insert. The
  -- inserts are not visible to the queries of the loop.
  unfoldable pub upsert_rows :
      ℕ → List (Candidate Z) → List (QueryTerm Z) → List (QueryTerm Z) × List (QueryTerm Z)
  unfolding term_key fate refresh
  upsert_rows next [] rows = (rows, [])
  upsert_rows next (it ∷ items) rows = elim (fate (term_key it.term) rows) [
    | skipped ↦ upsert_rows next items rows
    | refreshed ↦ upsert_rows next items (refresh (term_key it.term) it rows)
    | inserted ↦
        let more = upsert_rows (suc next) items rows in
        (more.0, new_term next (term_key it.term) it ∷ more.1)
  ]

  -- The unique column refuses two inserts of one term.
  unfoldable pub has_twice : List (QueryTerm Z) → Bool
  unfolding any list_beq
  has_twice [] = false
  has_twice (t ∷ rows) = any (λ s. s.term == t.term) rows || has_twice rows

  -- `upsert_candidates`, with the number of terms that are inserted
  unfoldable pub upsert_candidates : Terms Z → List (Candidate Z) → Result (ℕ × Terms Z)
  unfolding upsert_rows has_twice
  upsert_candidates db items =
      let done = upsert_rows db.next_id items db.rows in
      if has_twice done.1
      then err integrity_error
      else ok
          (length done.1, record { rows = done.0 ++ done.1; next_id = db.next_id + length done.1 })

  unfoldable pub get_term : Terms Z → ℕ → Result (QueryTerm Z)
  unfolding row_at
  get_term db id = elim (row_at term_id_of id db.rows) [ none ↦ err not_found | some t ↦ ok t ]

  -- A change of the row with an id.
  unfoldable pub change_term :
      (QueryTerm Z → QueryTerm Z) → Terms Z → ℕ → Result (QueryTerm Z × Terms Z)
  unfolding get_term row_at put
  change_term f db id = elim (get_term db id) [
    | err e ↦ err e
    | ok t ↦ ok (f t, record db { rows = put term_id_of (f t) db.rows })
  ]

  abbrev pub judged : TermStatus → ℕ → ℕ → QueryTerm Z → QueryTerm Z
  judged status by now t = record t {
    status = status;
    reviewed_by = some by;
    reviewed_at = some now;
  }

  -- `approve` and `reject`, by `_review`
  unfoldable pub review : TermStatus → Terms Z → ℕ → ℕ → ℕ → Result (QueryTerm Z × Terms Z)
  unfolding change_term
  review status db id by now = change_term (judged status by now) db id

  unfoldable pub to_pending : Terms Z → ℕ → Result (QueryTerm Z × Terms Z)
  unfolding change_term
  to_pending db id =
      change_term (λ t. record t { status = open_term; reviewed_by = none; reviewed_at = none }) db
        id

  unfoldable pub set_protected : Terms Z → ℕ → Bool → Result (QueryTerm Z × Terms Z)
  unfolding change_term
  set_protected db id protected = change_term (λ t. record t { protected = protected }) db id

  -- The listings of the terms, in the order of the rows.
  unfoldable pub list_protected_terms : Terms Z → List Text
  unfolding filter
  list_protected_terms db = map (λ t. t.term) (filter (λ t. t.protected) db.rows)

  unfoldable pub list_approved_terms : Terms Z → List Text
  unfolding filter
  list_approved_terms db = map (λ t. t.term) (filter (λ t. t.status == approved_term) db.rows)

  unfoldable pub list_rejected_terms : Terms Z → List Text
  unfolding filter
  list_rejected_terms db = map (λ t. t.term) (filter (λ t. t.status == rejected_term) db.rows)

  -- `manual_add`; `zero_score` is the default of the column.
  unfoldable pub manual_add : Z → Terms Z → Text → ℕ → ℕ → Result (QueryTerm Z × Terms Z)
  unfolding term_key row_of put
  manual_add zero_score db term by now =
      let key = term_key term in
      let new : QueryTerm Z = record {
        id = db.next_id;
        term = key;
        status = approved_term;
        z = zero_score;
        support = 0;
        protected = true;
        reviewed_by = some by;
        reviewed_at = some now;
      } in
      if null key then err not_found else elim (row_of key db.rows) [
        | none ↦ ok (new, record { rows = db.rows ++ (new ∷ []); next_id = suc db.next_id })
        | some t ↦
            let raised : QueryTerm Z = record (judged approved_term by now t) {
              protected = true;
            } in
            ok (raised, record db { rows = put term_id_of raised db.rows })
      ]
