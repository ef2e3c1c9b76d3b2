-- ===== src/Backend/Intake.antt =====
-- `create_offer` of backend/app/crud/offer.py: the branches in their order under their guards, and
-- the commit, which refuses two rows with one source and one content hash (the constraint
-- `uq_offer_source_content_hash` of backend/app/models/offer.py).
pub mod Kept
pub mod Published
pub mod Valid
pub mod Refused
use ubd_probe.Prelude.{
  ℕ, suc, Bool, true, false, ◌&&◌, not, Option, none, some, List, [], ◌∷◌, ◌++◌, any, ◌==◌, nat_eq,
  list_eq, option_eq, list_beq, is_some, if◌then◌else◌, length,
}
use ubd_probe.Prelude.Text.{Text}
use ubd_probe.Backend.Content.{canonical_of}
use ubd_probe.Backend.Branches.{
  Request, from_crawler, is_blocked, canon_article, Done, given, when, or_try, unchanged,
}
use ubd_probe.Backend.Branches.Shadow.{changed_live, still_pending}
use ubd_probe.Backend.Branches.Known.{known_page, known_promo, known_hub, same_target, new_row}
use ubd_probe.Backend.Model.{rejected, Offer, Db, Result, ok, err, integrity_error}

-- The two rows break the constraint; a null makes them distinct.
unfoldable pub clashes : Offer → Offer → Bool
unfolding list_beq
clashes o p =
    is_some o.source_id
    && is_some o.content_hash
    && o.source_id == p.source_id
    && o.content_hash == p.content_hash

unfoldable pub is_unique : List Offer → Bool
unfolding clashes any
is_unique [] = true
is_unique (o ∷ offers) = not (any (clashes o) offers) && is_unique offers

-- The insert at the end, with the status of a blocked source.
unfoldable pub inserted : Db → Request → Done
unfolding new_row is_blocked
inserted db r =
    let status = if is_blocked db r then rejected else r.status in
    record {
      rows = db.offers ++ (new_row db r status ∷ []);
      next_id = suc db.next_id;
      returned = db.next_id;
    }

abbrev pub or_insert : Option Done → Done → Done
or_insert (some done) new = done
or_insert none new = new

module _ (pick : List Offer → Option Offer) where
  -- The early returns, in their order.
  unfoldable pub existing_row : Db → Request → Option Done
  unfolding unchanged changed_live still_pending known_page known_promo known_hub same_target
      is_blocked canon_article canonical_of
  existing_row db r =
      let free = from_crawler r && not (is_blocked db r) in
      or_try (unchanged pick db r) (
        or_try
          (when free (given r.source_id (λ s. given (canon_article r) (changed_live pick db r s))))
          (or_try
            (when free (given r.source_id (λ s. given (canon_article r) (still_pending db r s))))
            (or_try
              (when (from_crawler r && not (is_some r.source_id))
                (given (canon_article r) (known_page db r)))
              (or_try (when free (known_promo db r)) (
                or_try (when free (given (canon_article r) (known_hub db r)))
                  (when free (given (canonical_of r.payload.target_url) (same_target db r))))))))

  unfoldable pub create_rows : Db → Request → Done
  unfolding existing_row inserted
  create_rows db r = or_insert (existing_row db r) (inserted db r)

  unfoldable pub create_offer : Db → Request → Result (Db × ℕ)
  unfolding create_rows is_unique
  create_offer db r =
      let done = create_rows db r in
      if is_unique done.rows
      then ok (record db { offers = done.rows; next_id = done.next_id }, done.returned)
      else err integrity_error
