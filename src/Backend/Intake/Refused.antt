-- ===== src/Backend/Intake/Refused.antt =====
-- `create_offer` refuses a second row of the same content.
use mathlib.Core.Path.{subst}
use ubd_probe.Prelude.{
  ℕ, ◌≡◌, refl, inl, inr, true, false, Option, none, some, List, [], ◌∷◌, ◌++◌, nat_eq, list_eq,
  option_eq, if◌then◌else◌, arith, any, option_beq_iff,
}
use ubd_probe.Prelude.Text.{Text}
use ubd_probe.Backend.Dedup.{magnitude_eq}
use ubd_probe.Backend.Branches.{Request, is_blocked}
use ubd_probe.Backend.Branches.Known.{new_row}
use ubd_probe.Backend.Intake.{clashes, is_unique, existing_row, inserted, create_rows, create_offer}
use ubd_probe.Backend.Model.{rejected, status_eq, Offer, Db, err, integrity_error}
use ubd_probe.Backend.Rows.{In}

clash-found :
    (x o : Offer) (rows : List Offer)
    → clashes x o ≡ true
    → any (clashes x) (rows ++ (o ∷ [])) ≡ true
unfolding any
clash-found x o [] h = rw h refl
clash-found x o (y ∷ rows) h = let rest = clash-found x o rows h in ground arith

append-clash :
    (rows : List Offer) (old new : Offer)
    → In old rows
    → clashes old new ≡ true
    → is_unique (rows ++ (new ∷ [])) ≡ false
unfolding is_unique
append-clash [] old new m h = elim m [ ]
append-clash (x ∷ rows) old new (inl e) h =
    let found = clash-found x new rows (subst (λ y. clashes y new ≡ true) e h) in ground arith
append-clash (x ∷ rows) old new (inr m) h = let rest = append-clash rows old new m h in ground arith

same_pair :
    (source : ℕ) (hash : Text) (old new : Offer)
    → old.source_id ≡ some source
    → old.content_hash ≡ some hash
    → new.source_id ≡ some source
    → new.content_hash ≡ some hash
    → clashes old new ≡ true
unfolding clashes
same_pair source hash old new a b c d = ground (
  arith,
  option_beq_iff old.source_id new.source_id,
  option_beq_iff old.content_hash new.content_hash,
)

-- When no branch of `create_offer` finds a row to return, and a row of the table has the source and
-- the content hash of the submission, the insert breaks the constraint
-- `uq_offer_source_content_hash`, and the call ends with its error.
pub create_offer-refused :
    (pick : List Offer → Option Offer) (db : Db) (r : Request) (old : Offer) (source : ℕ)
    (hash : Text)
    → existing_row pick db r ≡ none
    → In old db.offers
    → old.source_id ≡ some source
    → old.content_hash ≡ some hash
    → r.source_id ≡ some source
    → r.content_hash ≡ some hash
    → create_offer pick db r ≡ err integrity_error
unfolding create_offer create_rows inserted new_row
create_offer-refused pick db r old source hash new m a b c d =
    let clash =
      append-clash db.offers old (new_row db r (if is_blocked db r then rejected else r.status)) m (
        same_pair source hash old (new_row db r (if is_blocked db r then rejected else r.status)) a
          b c d) in
    rw (new, clash) refl
