-- ===== src/Hosts.antt =====
-- The host gates of the crawler: crawler/crawler/util/hosts.py.
pub mod Quality
pub mod Laws
pub mod Tests
use ubd_probe.Prelude.{
  ℕ, Bool, true, false, ◌&&◌, ◌||◌, not, Option, none, some, List, [], ◌∷◌, map, ltb, leb, ◌==◌,
  nat_eq, list_eq, list_beq, contains, any, null, length, if◌then◌else◌,
}
use ubd_probe.Prelude.Text.{
  Text, codes, lower, strip, starts_with, ends_with, removeprefix, has_substring, split_by,
  first_part, last_part,
}
use ubd_probe.Prelude.Text.Url.{Url, urlsplit}

-- A value with no `//` in it is read as a location.
unfoldable pub as_location : Text → Text
unfolding has_substring
as_location raw = if has_substring (codes "//") raw then raw else b'/' ∷ b'/' ∷ raw

unfoldable pub bare_host : Text → Text
unfolding as_location strip lower split_by removeprefix urlsplit
bare_host value =
    let raw = strip value in
    if null raw
    then []
    else (let netloc = lower (urlsplit (as_location raw)).netloc in
        let unuser = last_part (split_by (λ c. c == b'@') netloc) in
        removeprefix (codes "www.") (first_part (split_by (λ c. c == b':') unuser)))

-- `host.split(".")`
unfoldable pub labels : Text → List Text
unfolding split_by
labels host = split_by (λ c. c == b'.') host

abbrev generic_cctlds : List Text
generic_cctlds = map codes ("co" ∷ "io" ∷ "me" ∷ "tv" ∷ "ai" ∷ "cc" ∷ [])

abbrev pub ru_city_subdomains : List Text
ru_city_subdomains = map codes (
    "spb" ∷ "msk" ∷ "mow" ∷ "ekb" ∷ "nsk" ∷ "kzn" ∷ "rostov" ∷ "sochi" ∷ "samara" ∷ "perm" ∷ "omsk"
    ∷ "ufa" ∷ "krasnodar" ∷ "volgograd" ∷ "voronezh" ∷ "tyumen" ∷ "irkutsk" ∷ "vladivostok"
    ∷ "khabarovsk" ∷ "chelyabinsk" ∷ "kaliningrad" ∷ "saratov" ∷ "barnaul" ∷ "tomsk" ∷ "kemerovo"
    ∷ [])

abbrev ua_idn_cctlds : List Text
ua_idn_cctlds = codes "xn--j1amh" ∷ []

abbrev pub by_city_codes : List Text
by_city_codes = map codes (
    "minsk" ∷ "gomel" ∷ "homel" ∷ "brest" ∷ "vitebsk" ∷ "vitsebsk" ∷ "mogilev" ∷ "mahilyow"
    ∷ "grodno" ∷ "hrodna" ∷ "bobruisk" ∷ "baranovichi" ∷ [])

-- `_RU_BY_CITY`
unfoldable pub is_ru_by_city : Text → Bool
unfolding contains list_beq
is_ru_by_city seg = contains ru_city_subdomains seg || contains by_city_codes seg

unfoldable pub is_ru_city : Text → Bool
unfolding contains list_beq
is_ru_city seg = contains ru_city_subdomains seg

abbrev ru_by_cctlds : List Text
ru_by_cctlds = codes "ru" ∷ codes "by" ∷ []

abbrev ru_by_idn_cctlds : List Text
ru_by_idn_cctlds = codes "xn--p1ai" ∷ codes "xn--90ais" ∷ []

unfoldable pub is_ru_by_tld : Text → Bool
unfolding contains list_beq
is_ru_by_tld tld = contains ru_by_cctlds tld || contains ru_by_idn_cctlds tld

unfoldable pub is_ua_host : Text → Bool
unfolding ends_with list_beq
is_ua_host host = host == codes "ua" || ends_with (codes ".ua") host

-- `not host or "." not in host`
unfoldable pub has_no_tld : Text → Bool
unfolding contains
has_no_tld host = null host || not (contains host b'.')

-- The test of the last label in `is_foreign_host`.
unfoldable pub is_foreign_tld : Text → Bool
unfolding starts_with contains list_beq
is_foreign_tld tld =
    if starts_with (codes "xn--") tld
    then not (contains ua_idn_cctlds tld)
    else length tld == 2 && not (contains generic_cctlds tld)

-- `is_foreign_host` on a host that `bare_host` has read.
unfoldable pub is_foreign : Text → Bool
unfolding has_no_tld is_ua_host labels is_ru_city is_foreign_tld
is_foreign host =
    if has_no_tld host
    then false
    else if is_ua_host host
    then false
    else if leb 3 (length (labels host)) && is_ru_city (first_part (labels host))
    then true
    else is_foreign_tld (last_part (labels host))

unfoldable pub is_foreign_host : Text → Bool
unfolding bare_host is_foreign
is_foreign_host value = is_foreign (bare_host value)

-- `is_ru_by_geo` on the host and the path segments of the value.
unfoldable pub is_ru_by : Text → List Text → Bool
unfolding has_no_tld is_ua_host labels is_ru_by_tld is_ru_by_city any lower
is_ru_by host segments =
    if has_no_tld host
    then false
    else if is_ua_host host
    then false
    else if is_ru_by_tld (last_part (labels host))
    then true
    else if leb 3 (length (labels host)) && is_ru_by_city (first_part (labels host))
    then true
    else any (λ seg. not (null seg) && is_ru_by_city (lower seg)) segments

unfoldable pub is_ru_by_geo : Text → Bool
unfolding bare_host is_ru_by strip as_location urlsplit split_by
is_ru_by_geo value =
    let raw = strip value in
    if null raw
    then false
    else is_ru_by (bare_host raw) (split_by (λ c. c == b'/') (urlsplit (as_location raw)).path)
