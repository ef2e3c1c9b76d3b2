-- ===== src/Backend/Branches/Shadow.antt =====
-- Branches 2 and 3 of `create_offer`: a page of a source that is published or waits for review. A
-- change of a published page becomes a shadow, a row that supersedes it once it is published.
use ubd_probe.Prelude.{
  ℕ, suc, Bool, ◌&&◌, not, Option, none, some, List, [], ◌∷◌, ◌++◌, filter, null, ◌==◌, nat_eq,
  list_eq, option_eq, list_beq, is_some, if◌then◌else◌, find?,
}
use ubd_probe.Prelude.Text.{Text}
use ubd_probe.Backend.Dedup.{magnitude_eq, is_subset}
use ubd_probe.Backend.Content.{apply_content, payload_mags, row_mags}
use ubd_probe.Backend.Model.{
  pending_review, published, status_eq, crawler, creator_eq, Offer, OfferCreate, Db, modify, touch,
}
use ubd_probe.Backend.Branches.{Request, Done, given, reject_row}

abbrev pub live_parent : ℕ → Text → Offer → Bool
live_parent source canon o =
    o.source_id == some source && o.article_url_canonical == some canon && o.status == published

abbrev pub shadow_of : ℕ → Offer → Bool
shadow_of parent o = o.supersedes_offer_id == some parent && o.status == pending_review

-- The row that a fresh shadow is made of, before its content.
abbrev pub blank_shadow : ℕ → ℕ → ℕ → OfferCreate → Offer
blank_shadow id source parent p = record {
  id = id;
  type = p.type;
  title = [];
  description = [];
  provider = [];
  location_names = [];
  valid_from = none;
  valid_until = none;
  discount_type = none;
  discount_value = none;
  site_url = none;
  article_url = none;
  image_url = none;
  logo_url = none;
  target_url = none;
  target_url_canonical = none;
  article_url_canonical = none;
  source_id = some source;
  content_hash = none;
  last_seen_at = none;
  status = pending_review;
  created_by = crawler;
  reviewed_by = none;
  rejection_reason = none;
  supersedes_offer_id = some parent;
  target_categories = [];
  offer_categories = [];
  discounts = [];
  links = [];
}

abbrev pub revived : ℕ → Offer → Offer
revived parent o = record o { supersedes_offer_id = some parent; status = pending_review }

-- `if live_shadow is not None and live_shadow.id != revive.id: live_shadow.status = rejected`
unfoldable pub drop_live : Option Offer → ℕ → List Offer → List Offer
unfolding modify
drop_live none id offers = offers
drop_live (some live) id offers = if live.id == id then offers else modify live.id reject_row offers

-- The shadow of a published row whose discounts have changed, from `revive` and `live_shadow`.
unfoldable pub shadow_rows : Db → Request → ℕ → Offer → Option Offer → Option Offer → Done
unfolding drop_live modify apply_content
shadow_rows db r source parent (some old) live = record {
  rows = modify parent.id (touch r.now) (
      modify old.id (λ o. apply_content db r.payload r.content_hash r.now (revived parent.id o))
        (drop_live live old.id db.offers));
  next_id = db.next_id;
  returned = old.id;
}
shadow_rows db r source parent none (some shadow) = record {
  rows =
      modify parent.id (touch r.now)
        (modify shadow.id (apply_content db r.payload r.content_hash r.now) db.offers);
  next_id = db.next_id;
  returned = shadow.id;
}
shadow_rows db r source parent none none = record {
  rows = modify parent.id (touch r.now) (
      db.offers
      ++ (apply_content db r.payload r.content_hash r.now
            (blank_shadow db.next_id source parent.id r.payload)
          ∷ []));
  next_id = suc db.next_id;
  returned = db.next_id;
}

module _ (pick : List Offer → Option Offer) where
  -- `revive`, the row with exactly this source and content
  unfoldable pub find_revive : Request → ℕ → List Offer → Option Offer
  unfolding filter list_beq
  find_revive r source offers = elim r.content_hash [
    | none ↦ none
    | some hash ↦
        pick (filter (λ o. o.source_id == some source && o.content_hash == some hash) offers)
  ]

  unfoldable pub make_shadow : Db → Request → ℕ → Offer → Done
  unfolding find_revive find? shadow_rows
  make_shadow db r source parent =
      shadow_rows db r source parent (find_revive r source db.offers)
        (find? (shadow_of parent.id) db.offers)

  -- 2) a change of a live offer of the same source and page
  unfoldable pub changed_live : Db → Request → ℕ → Text → Option Done
  unfolding find? make_shadow modify is_subset payload_mags row_mags list_beq
  changed_live db r source canon = given (find? (live_parent source canon) db.offers) λ parent.
      if not (null (row_mags parent)) && is_subset (row_mags parent) (payload_mags r.payload)
      then some (record {
        rows = modify parent.id (touch r.now) db.offers;
        next_id = db.next_id;
        returned = parent.id;
      })
      else some (make_shadow db r source parent)

abbrev pub first_submission : ℕ → Text → Offer → Bool
first_submission source canon o =
    o.source_id == some source
    && o.article_url_canonical == some canon
    && o.status == pending_review
    && not (is_some o.supersedes_offer_id)

-- 3) a first submission that is still pending
unfoldable pub still_pending : Db → Request → ℕ → Text → Option Done
unfolding find? modify apply_content list_beq
still_pending db r source canon = given (find? (first_submission source canon) db.offers) λ pending.
    some (record {
      rows = modify pending.id (apply_content db r.payload r.content_hash r.now) db.offers;
      next_id = db.next_id;
      returned = pending.id;
    })
