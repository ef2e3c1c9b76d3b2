-- ===== src/Backend/Branches.antt =====
-- The branches of `create_offer`, in the order of the code. Each gives the changed rows and the id
-- of the row that is returned, or `none` if the next branch is to be tried. `pick` is the database's
-- choice of a first row where a query states no order.
pub mod Shadow
pub mod Known
use ubd_probe.Prelude.{
  ℕ, suc, Bool, true, false, ◌&&◌, ◌||◌, not, Option, none, some, List, [], ◌∷◌, ◌++◌, any, filter,
  contains, null, ◌==◌, nat_eq, list_eq, option_eq, list_beq, is_some, if◌then◌else◌, find?,
}
use ubd_probe.Prelude.Text.{Text}
use ubd_probe.Backend.Dedup.{
  magnitude_eq, is_subset, is_duplicate_promo, is_hub_page, normalize_tokens,
}
use ubd_probe.Backend.Content.{
  blocked_source_host, directory_source_host, promo_text, canonical_of, promo_host, mk_link,
  apply_content, payload_mags, row_mags, norm_locations, discount_rows, load_categories,
}
use ubd_probe.Backend.Model.{
  OfferStatus, pending_review, published, rejected, expired, status_eq, CreatedBy, crawler,
  creator_eq, OfferLink, Offer, OfferCreate, Db, modify, touch,
}

-- The arguments of `create_offer` with the time of the call, and what its first lines compute.
pub record Request : Type 0 where
  pub payload : OfferCreate
  pub created_by : CreatedBy
  pub status : OfferStatus
  pub source_id : Option ℕ
  pub content_hash : Option Text
  pub now : ℕ
  pub threshold : ℕ

abbrev pub from_crawler : Request → Bool
from_crawler r = r.created_by == crawler

unfoldable pub is_blocked : Db → Request → Bool
unfolding blocked_source_host directory_source_host
is_blocked db r =
    from_crawler r
    && (is_some (blocked_source_host db r.payload) || is_some (directory_source_host db r.payload))

unfoldable pub canon_article : Request → Option Text
unfolding canonical_of
canon_article r = canonical_of r.payload.article_url

-- The rows and the next id after a branch, and the id of the row that it returns.
pub record Done : Type 0 where
  pub rows : List Offer
  pub next_id : ℕ
  pub returned : ℕ

-- `if ... is not None:` and `if ...:` around a branch, and the next branch after one that did not return.
abbrev pub given : {A : Type 0} → Option A → (A → Option Done) → Option Done
given none f = none
given (some a) f = f a

abbrev pub when : Bool → Option Done → Option Done
when true d = d
when false d = none

abbrev pub or_try : Option Done → Option Done → Option Done
or_try none next = next
or_try (some d) next = some d

abbrev pub reject_row : Offer → Offer
reject_row o = record o { status = rejected }

-- `sh.status = rejected` for the pending shadows of a row
unfoldable pub drop_shadows : ℕ → List Offer → List Offer
drop_shadows id [] = []
drop_shadows id (o ∷ offers) =
    (if o.supersedes_offer_id == some id && o.status == pending_review then reject_row o else o)
    ∷ drop_shadows id offers

-- The query of branch 1.
abbrev pub same_content : Request → Text → Offer → Bool
same_content r hash o =
    o.content_hash == some hash && not (o.status == expired) && o.source_id == r.source_id

unfoldable pub settle : ℕ → Offer → List Offer → List Offer
unfolding modify drop_shadows
settle now existing offers = elim existing.supersedes_offer_id [
  | some parent ↦ modify parent (touch now) offers
  | none ↦ if existing.status == published then drop_shadows existing.id offers else offers
]

module _ (pick : List Offer → Option Offer) where
  -- 1) the same source and content
  unfoldable pub unchanged : Db → Request → Option Done
  unfolding filter settle list_beq
  unchanged db r = given r.content_hash λ hash. when (from_crawler r) (
      given (pick (filter (same_content r hash) db.offers)) λ existing. some (record {
        rows = settle r.now existing (modify existing.id (touch r.now) db.offers);
        next_id = db.next_id;
        returned = existing.id;
      }))
