-- ===== src/Backend/Branches/Known.antt =====
-- Branches 3b to 4 of `create_offer`, which find the offer of a submission on another page or at
-- another source, and the new row of step 5.
use ubd_probe.Prelude.{
  Bool, ◌&&◌, not, Option, none, some, List, [], ◌∷◌, ◌++◌, any, filter, contains, null, ◌==◌,
  nat_eq, list_eq, option_eq, list_beq, is_some, if◌then◌else◌, find?,
}
use ubd_probe.Prelude.Text.{Text}
use ubd_probe.Backend.Dedup.{
  magnitude_eq, is_subset, is_duplicate_promo, is_hub_page, normalize_tokens,
}
use ubd_probe.Backend.Content.{
  promo_text, canonical_of, promo_host, mk_link, payload_mags, row_mags, norm_locations,
  discount_rows, load_categories,
}
use ubd_probe.Backend.Model.{
  OfferStatus, expired, status_eq, crawler, creator_eq, OfferLink, Offer, Db, modify, touch,
}
use ubd_probe.Backend.Branches.{Request, Done, given, when}

abbrev pub touched : Db → Request → Option Offer → Option Done
touched db r none = none
touched db r (some o) =
    some
      (record { rows = modify o.id (touch r.now) db.offers; next_id = db.next_id; returned = o.id })

-- 3b) a page that active search has found before
unfoldable pub known_page : Db → Request → Text → Option Done
unfolding find? modify list_beq
known_page db r canon = touched db r (
    find?
      (λ o.
        not (is_some o.source_id)
        && o.article_url_canonical == some canon
        && not (o.status == expired)
        && not (is_some o.supersedes_offer_id))
      db.offers)

abbrev pub is_candidate : Offer → Bool
is_candidate o = o.created_by == crawler && not (o.status == expired)

-- The test of branch 3c on one candidate.
unfoldable pub same_promo : Request → Text → Offer → Bool
unfolding promo_host list_beq is_duplicate_promo normalize_tokens promo_text payload_mags row_mags
same_promo r host o =
    is_candidate o
    && promo_host o.site_url o.article_url == host
    && is_duplicate_promo (normalize_tokens (promo_text r.payload.description r.payload.discounts))
        (payload_mags r.payload) (normalize_tokens (promo_text o.description o.discounts))
        (row_mags o) r.threshold

-- The guard of 3c and 3d on the payload: a discount with a value, and a host.
unfoldable pub is_comparable : Request → Bool
unfolding promo_host payload_mags
is_comparable r =
    is_some r.payload.discount_type
    && not (null (promo_host r.payload.site_url r.payload.article_url))
    && not (null (payload_mags r.payload))

-- 3c) the same promo on another page of the host
unfoldable pub known_promo : Db → Request → Option Done
unfolding is_comparable promo_host find? same_promo modify
known_promo db r = when (is_comparable r) (
    touched db r
      (find? (same_promo r (promo_host r.payload.site_url r.payload.article_url)) db.offers))

abbrev pub canon_text : Offer → Text
canon_text o = elim o.article_url_canonical [ none ↦ [] | some canon ↦ canon ]

-- The test of branch 3d on one candidate.
unfoldable pub covers_hub : Request → Text → Text → Offer → Bool
unfolding list_beq promo_host is_hub_page is_subset payload_mags row_mags
covers_hub r canon host o =
    is_candidate o
    && not (is_some o.supersedes_offer_id)
    && not (canon_text o == canon)
    && promo_host o.site_url o.article_url == host
    && is_hub_page canon (canon_text o)
    && is_subset (payload_mags r.payload) (row_mags o)

-- Deep pages first, each group in the order of ids.
unfoldable pub ranked : List Offer → List Offer
unfolding filter contains
ranked offers =
    filter (λ o. contains (canon_text o) b'/') offers
    ++ filter (λ o. not (contains (canon_text o) b'/')) offers

-- 3d) a hub page whose discounts a page of the host has
unfoldable pub known_hub : Db → Request → Text → Option Done
unfolding is_comparable promo_host find? covers_hub ranked modify
known_hub db r canon = when (is_comparable r) (
    touched db r (
      find? (covers_hub r canon (promo_host r.payload.site_url r.payload.article_url))
        (ranked db.offers)))

abbrev link_beq : OfferLink → OfferLink → Bool
link_beq l m =
    l.provider == m.provider && l.site_url == m.site_url && l.article_url == m.article_url

-- `existing.links.append(_mk_link())` unless it is there, and the time
unfoldable pub add_link : Request → Offer → Offer
unfolding any list_beq
add_link r o =
    let link = mk_link r.payload in
    record o {
      links = if any (λ l. link_beq l link) o.links then o.links else o.links ++ (link ∷ []);
      last_seen_at = some r.now;
    }

-- 4) another source of the same target
unfoldable pub same_target : Db → Request → Text → Option Done
unfolding find? modify add_link list_beq
same_target db r canon =
    given (find? (λ o. o.target_url_canonical == some canon) db.offers) λ existing. some (record {
      rows = modify existing.id (add_link r) db.offers;
      next_id = db.next_id;
      returned = existing.id;
    })

-- 5) a new row
unfoldable pub new_row : Db → Request → OfferStatus → Offer
unfolding norm_locations discount_rows load_categories canonical_of
new_row db r status =
    let p = r.payload in
    record {
      id = db.next_id;
      type = p.type;
      title = p.title;
      description = p.description;
      provider = p.provider;
      location_names = norm_locations p.locations;
      valid_from = p.valid_from;
      valid_until = p.valid_until;
      discount_type = p.discount_type;
      discount_value = p.discount_value;
      site_url = p.site_url;
      article_url = p.article_url;
      image_url = p.image_url;
      logo_url = p.logo_url;
      target_url = p.target_url;
      target_url_canonical = canonical_of p.target_url;
      article_url_canonical = canonical_of p.article_url;
      source_id = r.source_id;
      content_hash = r.content_hash;
      last_seen_at = some r.now;
      status = status;
      created_by = r.created_by;
      reviewed_by = none;
      rejection_reason = none;
      supersedes_offer_id = none;
      target_categories = load_categories db.target_categories p.target_category_ids;
      offer_categories = load_categories db.offer_categories p.offer_category_ids;
      discounts = discount_rows p;
      links = mk_link p ∷ [];
    }
