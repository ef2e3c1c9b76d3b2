-- ===== src/Backend/Terms/Tests.antt =====
-- The theorems on the query terms at concrete values.
use ubd_probe.Prelude.{ℕ, ◌≡◌, refl, List, [], ◌∷◌, nat_eq, list_eq}
use ubd_probe.Prelude.Text.{Text, codes}
use ubd_probe.Backend.Model.{ok, err, integrity_error}
use ubd_probe.Backend.Terms.{
  rejected_term, QueryTerm, Candidate, Terms, new_term, upsert_candidates,
}
use ubd_probe.Backend.Terms.View.{view, propose_all}
use ubd_probe.Backend.Terms.Refines.{upsert_candidates-refines}
use ubd_probe.Backend.Terms.Refused.{upsert_candidates-refused}

abbrev offered : Text → ℕ → Candidate ℕ
offered term z = record { term = term; z = z; support = 3 }

abbrev waiting_row : ℕ → QueryTerm ℕ
waiting_row z = new_term 1 (codes "taxi") (offered (codes "taxi") z)

abbrev refused_row : QueryTerm ℕ
refused_row = record (new_term 2 (codes "casino") (offered (codes "casino") 5)) {
  status = rejected_term;
}

abbrev stored : Terms ℕ
stored = record { rows = waiting_row 1 ∷ refused_row ∷ []; next_id = 3 }

abbrev items : List (Candidate ℕ)
items =
    offered (codes " Taxi ") 9
    ∷ offered (codes "casino") 8
    ∷ offered (codes "spa") 7
    ∷ offered (codes "  ") 6
    ∷ []

abbrev result : Terms ℕ
result = record {
  rows = waiting_row 9 ∷ refused_row ∷ new_term 3 (codes "spa") (offered (codes "spa") 7) ∷ [];
  next_id = 4;
}

upserted : upsert_candidates stored items ≡ ok (1, result)
unfolding upsert_candidates
upserted = refl

upsert_candidates-refines_example :
    view result.rows (codes "spa") ≡ propose_all items (view stored.rows) (codes "spa")
upsert_candidates-refines_example =
    upsert_candidates-refines stored items 1 result (codes "spa") upserted

upsert_candidates-refused_example :
    upsert_candidates stored (offered (codes "spa") 7 ∷ offered (codes "SPA ") 8 ∷ [])
    ≡ err integrity_error
unfolding upsert_candidates
upsert_candidates-refused_example =
    upsert_candidates-refused stored (offered (codes "spa") 7) (offered (codes "SPA ") 8 ∷ []) refl
      refl refl
