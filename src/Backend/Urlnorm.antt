-- ===== src/Backend/Urlnorm.antt =====
-- backend/app/core/urlnorm.py, and `bare_host` of backend/app/crud/blocked_host.py with
-- `_source_host` of backend/app/crud/offer.py.
use mathlib.Core.Path.{◌≡◌, refl}
use ubd_probe.Prelude.{
  ℕ, Bool, true, false, ◌&&◌, ◌||◌, not, Option, none, some, List, [], ◌∷◌, ◌++◌, map, ltb, ◌==◌,
  nat_eq, list_eq, list_beq, contains, filter, null, if◌then◌else◌,
}
use ubd_probe.Prelude.Text.{
  Text, codes, lower, strip, starts_with, removeprefix, strip_prefix, rstrip_by, drop_while,
  has_substring,
}
use ubd_probe.Prelude.Text.Url.{Url, urlsplit, hostname}
use ubd_probe.Prelude.Text.Query.{parse_qsl, urlencode}

-- `p.scheme in ("http", "https") and p.netloc`
unfoldable pub is_http : Url → Bool
unfolding list_beq
is_http p = (p.scheme == codes "http" || p.scheme == codes "https") && not (null p.netloc)

unfoldable pub is_slash : ℕ → Bool
is_slash c = c == b'/'

abbrev tracking_params : List Text
tracking_params = map codes (
    "gclid" ∷ "gclsrc" ∷ "dclid" ∷ "gbraid" ∷ "wbraid" ∷ "fbclid" ∷ "yclid" ∷ "msclkid" ∷ "twclid"
    ∷ "ttclid" ∷ "igshid" ∷ "mc_eid" ∷ "mc_cid" ∷ "_openstat" ∷ "vero_id" ∷ "oly_enc_id"
    ∷ "oly_anon_id" ∷ "icid" ∷ "scid" ∷ "srsltid" ∷ "spm" ∷ [])

abbrev pagination_params : List Text
pagination_params = map codes ("page" ∷ "start" ∷ "offset" ∷ [])

-- The filter of the query fields.
unfoldable pub is_kept_param : Text × Text → Bool
unfolding lower starts_with contains list_beq
is_kept_param (k, v) =
    not (starts_with (codes "utm_") (lower k))
    && not (contains tracking_params (lower k))
    && not (contains pagination_params (lower k))

-- The order of texts, and of pairs of texts.
unfoldable pub text_leb : Text → Text → Bool
text_leb [] t = true
text_leb (c ∷ s) [] = false
text_leb (c ∷ s) (d ∷ t) = let rest = text_leb s t in if c == d then rest else ltb c d

pair_leb : Text × Text → Text × Text → Bool
unfolding text_leb list_beq
pair_leb (k, v) (j, w) = if k == j then text_leb v w else text_leb k j

insert_pair : Text × Text → List (Text × Text) → List (Text × Text)
unfolding pair_leb
insert_pair p [] = p ∷ []
insert_pair p (q ∷ qs) =
    let rest = insert_pair p qs in if pair_leb p q then p ∷ q ∷ qs else q ∷ rest

unfoldable pub sort_pairs : List (Text × Text) → List (Text × Text)
unfolding insert_pair
sort_pairs [] = []
sort_pairs (p ∷ ps) = insert_pair p (sort_pairs ps)

unfoldable pub canonicalize_target_url : Text → Option Text
unfolding urlsplit strip is_http hostname removeprefix sort_pairs filter is_kept_param parse_qsl
    urlencode rstrip_by is_slash
canonicalize_target_url url =
    if null url
    then none
    else (let p = urlsplit (strip url) in
        let host = removeprefix (codes "www.") (hostname p) in
        if not (is_http p) || null host
        then none
        else (let query = urlencode (sort_pairs (filter is_kept_param (parse_qsl p.query))) in
            let path = rstrip_by is_slash p.path in
            some (host ++ (path ++ (if null query then [] else b'?' ∷ query)))))

-- `source_host`
unfoldable pub source_host : Text → Option Text
unfolding urlsplit strip is_http hostname removeprefix lower
source_host url =
    if null url
    then none
    else (let p = urlsplit (strip url) in
        let host = lower (removeprefix (codes "www.") (hostname p)) in
        if not (is_http p) || null host then none else some host)

-- `re.sub(r"^(a|b)", "", s)` for a list of literal prefixes
unfoldable pub drop_first_prefix : List Text → Text → Text
unfolding strip_prefix
drop_first_prefix [] s = s
drop_first_prefix (p ∷ ps) s =
    let rest = drop_first_prefix ps s in elim (strip_prefix p s) [ none ↦ rest | some tail ↦ tail ]

-- `normalize_ref`; the type of the source is not read
unfoldable pub normalize_ref : Text → Text
unfolding strip lower drop_first_prefix rstrip_by is_slash drop_while
normalize_ref url_or_handle =
    let s = lower (strip url_or_handle) in
    let unschemed = drop_first_prefix (codes "http://" ∷ codes "https://" ∷ []) s in
    let bare = drop_first_prefix (codes "www." ∷ []) unschemed in
    let handle =
      drop_first_prefix (codes "t.me/" ∷ codes "instagram.com/" ∷ codes "facebook.com/" ∷ [])
        bare in
    rstrip_by is_slash (drop_while (λ c. c == b'@') handle)

-- `bare_host` of crud/blocked_host.py
unfoldable pub bare_host : Text → Text
unfolding strip has_substring urlsplit hostname removeprefix lower
bare_host value =
    let raw = strip value in
    if null raw
    then []
    else (let location = if has_substring (codes "//") raw then raw else b'/' ∷ b'/' ∷ raw in
        removeprefix (codes "www.") (lower (hostname (urlsplit location))))

-- `_source_host`: a bare host with a dot, or an empty text
unfoldable pub source_host_of : Option Text → Text
unfolding bare_host contains
source_host_of none = []
source_host_of (some value) = let h = bare_host value in if contains h b'.' then h else []

canonical :
    (canonicalize_target_url (codes "https://User@WWW.Shop.ua:443/Sale/?b=2&utm_x=1&a=1&page=3#top")
      ≡ some (codes "shop.ua/Sale?a=1&b=2"))
    × (canonicalize_target_url (codes "http://shop.ua/Sale?a=1&b=2")
        ≡ some (codes "shop.ua/Sale?a=1&b=2"))
    × (canonicalize_target_url (codes "mailto:a@b.ua") ≡ none)
    × (normalize_ref (codes " https://www.T.me/@Name/ ") ≡ codes "name")
    × (source_host_of (some (codes "Biz")) ≡ [])
unfolding canonicalize_target_url normalize_ref source_host_of
canonical = (refl, refl, refl, refl, refl)
