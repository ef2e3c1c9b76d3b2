-- ===== src/Backend/Moderation.antt =====
-- The rest of the life of an offer in backend/app/crud/offer.py: review, the judge, the expiry of
-- rows that are no longer seen, deletion, and the block that two rejections of a host bring.
-- `like` is the database's `LIKE '%…%'` on a column that may be null.
pub mod Publish
pub mod Valid
pub mod Keeps
pub mod Autoblock
pub mod Expiry
use ubd_probe.Prelude.{
  ℕ, suc, ◌-◌, ◌*◌, Bool, true, false, ◌&&◌, ◌||◌, not, Option, none, some, List, [], ◌∷◌, any,
  filter, null, find?, take, ltb, leb, count_if, ◌==◌, nat_eq, list_eq, list_beq, option_eq,
  is_some, if◌then◌else◌,
}
use ubd_probe.Prelude.Text.{Text}
use ubd_probe.Backend.Urlnorm.{source_host_of}
use ubd_probe.Backend.Dedup.{to_set}
use ubd_probe.Backend.Content.{host_blocked, list_approved_hosts}
use ubd_probe.Backend.Blocklist.{auto_block}
use ubd_probe.Backend.Model.{
  OfferStatus, pending_review, published, rejected, expired, status_eq, crawler, crawler_suggestion,
  creator_eq, Offer, Db, Result, ok, err, not_found, conflict, modify, get_row, touch,
}

-- `valid_until` has passed.
abbrev pub is_over : ℕ → Offer → Bool
is_over today o = elim o.valid_until [ none ↦ false | some last ↦ ltb last today ]

-- `get_offer`
unfoldable pub get_offer : Db → ℕ → Bool → ℕ → Result Offer
unfolding get_row
get_offer db id published_only today = elim (get_row id db.offers) [
  | none ↦ err not_found
  | some o ↦
      if published_only && (is_over today o || not (o.status == published))
      then err not_found
      else ok o
]

-- `_offer_host_candidates`
unfoldable pub offer_host_candidates : Offer → List Text
unfolding source_host_of to_set filter list_beq
offer_host_candidates o = to_set (
    filter (λ h. not (null h))
      (source_host_of o.site_url
        ∷ source_host_of o.article_url
        ∷ source_host_of (some o.provider)
        ∷ []))

-- `_AUTOBLOCK_MIN_REJECTS`
abbrev pub autoblock_min_rejects : ℕ
autoblock_min_rejects = 2

abbrev pub mark : OfferStatus → ℕ → Offer → Offer
mark status by o = record o { status = status; reviewed_by = some by }

abbrev pub expire_live : Offer → Offer
expire_live o = if o.status == published then record o { status = expired } else o

abbrev pub detach : Offer → Offer
detach o = record o { supersedes_offer_id = none }

-- What `set_status` adds for `published`: the row is seen now, the row that it supersedes
-- expires, and it supersedes nothing from then on.
unfoldable pub publish : ℕ → ℕ → Option ℕ → List Offer → List Offer
unfolding modify
publish id now none offers = modify id (touch now) offers
publish id now (some parent) offers =
    modify id detach (modify parent expire_live (modify id (touch now) offers))

module _ (like : Text → Option Text → Bool) where
  -- A row whose source is the host or a part of it.
  unfoldable pub is_from : Text → Offer → Bool
  unfolding any host_blocked offer_host_candidates
  is_from host o =
      (like host o.site_url || like host o.article_url || like host (some o.provider))
      && any (λ h. host_blocked h (host ∷ [])) (offer_host_candidates o)

  -- `host_reputation`: the published and the rejected rows of a host
  unfoldable pub host_reputation : Db → Text → ℕ × ℕ
  unfolding is_from count_if
  host_reputation db host = if null host then (0, 0) else (
    count_if (λ o. is_from host o && o.status == published) db.offers,
    count_if (λ o. is_from host o && o.status == rejected) db.offers,
  )

  abbrev pub is_disgraced : Db → Text → Bool
  is_disgraced db host =
      let reputation = host_reputation db host in
      reputation.0 == 0 && leb autoblock_min_rejects reputation.1

  -- The loop of `_maybe_autoblock_hosts`; an error of `auto_block` ends it.
  unfoldable pub autoblock_all : List Text → List Text → Db → Db
  unfolding host_blocked host_reputation auto_block
  autoblock_all approved [] db = db
  autoblock_all approved (h ∷ hosts) db =
      let rest = autoblock_all approved hosts db in
      let blocked : Db = elim (auto_block db h) [
        | ok next ↦ autoblock_all approved hosts next
        | err e ↦ db
      ] in
      if host_blocked h approved then rest else if is_disgraced db h then blocked else rest

  unfoldable pub maybe_autoblock_hosts : Db → Offer → Db
  unfolding autoblock_all list_approved_hosts offer_host_candidates
  maybe_autoblock_hosts db o = autoblock_all (list_approved_hosts db) (offer_host_candidates o) db

  -- What a status brings besides the mark on the row: the row as it was before, in the marked table.
  unfoldable pub after_status : Db → ℕ → OfferStatus → ℕ → ℕ → Offer → Db
  unfolding maybe_autoblock_hosts publish
  after_status marked id rejected by now o = maybe_autoblock_hosts marked (mark rejected by o)
  after_status marked id published by now o = record marked {
    offers = publish id now o.supersedes_offer_id marked.offers;
  }
  after_status marked id pending_review by now o = marked
  after_status marked id expired by now o = marked

  unfoldable pub set_status : Db → ℕ → OfferStatus → ℕ → ℕ → Result Db
  unfolding get_row modify after_status
  set_status db id status by now = elim (get_row id db.offers) [
    | none ↦ err not_found
    | some o ↦
        let marked = record db { offers = modify id (mark status by) db.offers } in
        ok (after_status marked id status by now o)
  ]

abbrev pub is_unjudged : Offer → Bool
is_unjudged o =
    o.status == pending_review && (o.created_by == crawler || o.created_by == crawler_suggestion)

abbrev pub judged : Text → Offer → Offer
judged reason o = record o { status = rejected; reviewed_by = none; rejection_reason = some reason }

unfoldable pub judge_reject : Db → ℕ → Text → Result Db
unfolding get_row modify
judge_reject db id reason = elim (get_row id db.offers) [
  | none ↦ err not_found
  | some o ↦
      if is_unjudged o
      then ok (record db { offers = modify id (judged reason) db.offers })
      else err conflict
]

-- `list_pending_unjudged_for_crawler`
unfoldable pub list_pending_unjudged : Db → ℕ → List Offer
unfolding filter
list_pending_unjudged db limit = take limit (filter is_unjudged db.offers)

-- The table without a row; a row that it was superseded by points nowhere (`ON DELETE SET NULL`).
unfoldable pub remove_row : ℕ → List Offer → List Offer
remove_row id [] = []
remove_row id (o ∷ offers) =
    let rest = remove_row id offers in
    let cleared =
      if o.supersedes_offer_id == some id then record o { supersedes_offer_id = none } else o in
    if o.id == id then rest else cleared ∷ rest

unfoldable pub delete_offer : Db → ℕ → Result Db
unfolding get_row remove_row
delete_offer db id = elim (get_row id db.offers) [
  | none ↦ err not_found
  | some o ↦ ok (record db { offers = remove_row id db.offers })
]

-- Microseconds.
abbrev pub day : ℕ
day = 86400000000

abbrev pub is_stale : ℕ → Offer → Bool
is_stale cutoff o =
    o.status == published
    && o.created_by == crawler
    && is_some o.source_id
    && elim o.last_seen_at [ none ↦ false | some seen ↦ ltb seen cutoff ]

unfoldable pub expire_rows : ℕ → List Offer → List Offer
expire_rows cutoff [] = []
expire_rows cutoff (o ∷ offers) =
    (if is_stale cutoff o then record o { status = expired } else o) ∷ expire_rows cutoff offers

-- `expire_stale`, with the number of rows that it returns
unfoldable pub expire_stale : Db → ℕ → ℕ → Db × ℕ
unfolding expire_rows count_if
expire_stale db older_than_days now =
    let cutoff = now - older_than_days * day in
    (record db { offers = expire_rows cutoff db.offers }, count_if (is_stale cutoff) db.offers)
