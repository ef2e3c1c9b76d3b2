-- ===== src/Backend/Content.antt =====
-- The helpers of backend/app/crud/offer.py that `create_offer` is built from.
use ubd_probe.Prelude.{
  ℕ, suc, Bool, ◌&&◌, ◌||◌, not, Option, none, some, List, [], ◌∷◌, map, any, filter, contains,
  null, ◌==◌, nat_eq, list_eq, list_beq, if◌then◌else◌, find?,
}
use ubd_probe.Prelude.Text.{Text, codes, strip, ends_with, join}
use ubd_probe.Backend.Urlnorm.{bare_host, source_host_of, canonicalize_target_url}
use ubd_probe.Backend.Dedup.{Magnitude, discount_magnitudes}
use ubd_probe.Backend.Model.{approved, blocked_eq, Discount, OfferLink, Offer, OfferCreate, Db}

-- `_host_blocked`
unfoldable pub host_blocked : Text → List Text → Bool
unfolding any ends_with list_beq
host_blocked h hosts = not (null h) && any (λ b. h == b || ends_with (b'.' ∷ b) h) hosts

-- `list_approved_hosts`
unfoldable pub list_approved_hosts : Db → List Text
unfolding filter
list_approved_hosts db = map (λ r. r.host) (filter (λ r. r.status == approved) db.blocked)

-- `_blocked_source_host`
unfoldable pub blocked_source_host : Db → OfferCreate → Option Text
unfolding list_approved_hosts find? host_blocked source_host_of
blocked_source_host db o =
    let hosts = list_approved_hosts db in
    find? (λ h. host_blocked h hosts)
      (source_host_of o.site_url
        ∷ source_host_of o.article_url
        ∷ source_host_of (some o.provider)
        ∷ [])

-- `is_directory`
unfoldable pub is_directory : Db → Text → Bool
unfolding bare_host contains list_beq
is_directory db host = let h = bare_host host in not (null h) && contains db.directories h

-- `_directory_source_host`
unfoldable pub directory_source_host : Db → OfferCreate → Option Text
unfolding find? is_directory source_host_of
directory_source_host db o =
    find? (λ h. not (null h) && is_directory db h)
      (source_host_of o.site_url ∷ source_host_of o.article_url ∷ [])

norm_from : List Text → List Text → List Text
unfolding strip contains list_beq
norm_from seen [] = []
norm_from seen (n ∷ names) =
    let name = strip n in
    let skipped = norm_from seen names in
    let kept = name ∷ norm_from (name ∷ seen) names in
    if null name || contains seen name then skipped else kept

-- `_norm_locations`
unfoldable pub norm_locations : List Text → List Text
unfolding norm_from
norm_locations names = norm_from [] names

-- `_load_categories`, for one of the two tables
unfoldable pub load_categories : List ℕ → List ℕ → List ℕ
unfolding filter contains
load_categories known ids = filter (contains ids) known

numbered : ℕ → List Discount → List Discount
numbered i [] = []
numbered i (d ∷ ds) = record d { sort_order = i } ∷ numbered (suc i) ds

-- `_discount_rows`
unfoldable pub discount_rows : OfferCreate → List Discount
unfolding numbered
discount_rows o =
    if null o.discounts
    then elim o.discount_type [
      | none ↦ []
      | some t ↦
          record {
            label = none;
            discount_type = some t;
            discount_value = o.discount_value;
            sort_order = 0;
          }
          ∷ []
    ]
    else numbered 0 o.discounts

label_parts : List Discount → List Text
label_parts [] = []
label_parts (d ∷ ds) =
    let rest = label_parts ds in
    elim d.label [ none ↦ rest | some label ↦ if null label then rest else label ∷ rest ]

-- `_promo_text`, of a payload or of a row
unfoldable pub promo_text : Text → List Discount → Text
unfolding label_parts join
promo_text description discounts = join (codes " ") (description ∷ label_parts discounts)

-- `canonicalize_target_url(url) if url else None`
unfoldable pub canonical_of : Option Text → Option Text
unfolding canonicalize_target_url
canonical_of none = none
canonical_of (some url) = canonicalize_target_url url

-- `_source_host(site_url) or _source_host(article_url)`
unfoldable pub promo_host : Option Text → Option Text → Text
unfolding source_host_of
promo_host site article =
    let h = source_host_of site in if null h then source_host_of article else h

-- `_mk_link`
abbrev pub mk_link : OfferCreate → OfferLink
mk_link o = record { provider = o.provider; site_url = o.site_url; article_url = o.article_url }

-- `_apply_content`, which leaves the id, the source, the status and the reviewing fields alone
unfoldable pub apply_content : Db → OfferCreate → Option Text → ℕ → Offer → Offer
unfolding norm_locations discount_rows load_categories canonical_of
apply_content db o content_hash now row = record row {
  type = o.type;
  title = o.title;
  description = o.description;
  provider = o.provider;
  location_names = norm_locations o.locations;
  valid_from = o.valid_from;
  valid_until = o.valid_until;
  discount_type = o.discount_type;
  discount_value = o.discount_value;
  site_url = o.site_url;
  article_url = o.article_url;
  image_url = o.image_url;
  logo_url = o.logo_url;
  target_url = o.target_url;
  target_url_canonical = canonical_of o.target_url;
  article_url_canonical = canonical_of o.article_url;
  content_hash = content_hash;
  target_categories = load_categories db.target_categories o.target_category_ids;
  offer_categories = load_categories db.offer_categories o.offer_category_ids;
  discounts = discount_rows o;
  links = mk_link o ∷ [];
  last_seen_at = some now;
}

-- The magnitudes of a payload and of a row.
unfoldable pub payload_mags : OfferCreate → List Magnitude
unfolding discount_magnitudes
payload_mags o = discount_magnitudes o.discounts o.discount_type o.discount_value

unfoldable pub row_mags : Offer → List Magnitude
unfolding discount_magnitudes
row_mags o = discount_magnitudes o.discounts o.discount_type o.discount_value
