-- ===== src/Hosts/Quality.antt =====
-- The pre-walk gates of crawler/crawler/discovery/host_quality.py.
use mathlib.Core.Path.{◌≡◌, refl}
use ubd_probe.Prelude.{
  Bool, true, false, ◌&&◌, ◌||◌, not, Option, none, some, List, [], ◌∷◌, map, leb, ◌==◌, nat_eq,
  list_eq, list_beq, contains, any, null, length, filter, if◌then◌else◌,
}
use ubd_probe.Prelude.Text.{Text, codes, lower, ends_with, has_substring, split_by, last_part}
use ubd_probe.Prelude.Text.Url.{urlsplit}
use ubd_probe.Hosts.{bare_host, labels, has_no_tld}

abbrev institutional_tlds : List Text
institutional_tlds = map codes ("gov" ∷ "edu" ∷ "mil" ∷ "int" ∷ [])

abbrev institutional_second_level : List Text
institutional_second_level = map codes ("gov" ∷ "edu" ∷ "mil" ∷ [])

abbrev global_platforms : List Text
global_platforms = map codes (
    "reddit.com" ∷ "kaggle.com" ∷ "wikimedia.org" ∷ "wikipedia.org" ∷ "steamcommunity.com"
    ∷ "steampowered.com" ∷ "teamfortress.com" ∷ "fliphtml5.com" ∷ "trip.com" ∷ "quora.com"
    ∷ "medium.com" ∷ [])

-- `labels[-2]`, or an empty text where there is none.
abbrev second_last : List Text → Text
second_last [] = []
second_last (w ∷ []) = []
second_last (w ∷ v ∷ []) = w
second_last (w ∷ v ∷ u ∷ ws) = second_last (v ∷ u ∷ ws)

-- `host == p or host.endswith("." + p)`
unfoldable pub is_within : Text → Text → Bool
unfolding ends_with list_beq
is_within host p = host == p || ends_with (b'.' ∷ p) host

-- `is_low_value_host` on a host that `bare_host` has read.
unfoldable pub is_low_value : Text → Bool
unfolding has_no_tld labels contains list_beq any is_within
is_low_value host =
    if has_no_tld host
    then false
    else if contains institutional_tlds (last_part (labels host))
    then true
    else if leb 2 (length (labels host))
        && contains institutional_second_level (second_last (labels host))
    then true
    else any (is_within host) global_platforms

unfoldable pub is_low_value_host : Text → Bool
unfolding bare_host is_low_value
is_low_value_host value = is_low_value (bare_host value)

abbrev news_tokens : List Text
news_tokens = map codes ("news" ∷ "novyny" ∷ "gazeta" ∷ "visti" ∷ "pravda" ∷ [])

unfoldable pub is_news_host : Text → Bool
unfolding bare_host labels any has_substring list_beq
is_news_host value =
    let host = bare_host value in
    if null host
    then false
    else if last_part (labels host) == codes "media"
    then true
    else any (λ label. any (λ tok. has_substring tok label) news_tokens) (labels host)

abbrev pub directory_host_seeds : List Text
directory_host_seeds = codes "myhelp.com.ua" ∷ []

abbrev pub dir_container : List Text
dir_container = map codes (
    "places" ∷ "place" ∷ "company" ∷ "companies" ∷ "firm" ∷ "profile" ∷ "catalog" ∷ "business"
    ∷ "org" ∷ [])

-- A container segment with one more segment behind it.
has_entry : List Text → Bool
unfolding lower contains list_beq
has_entry [] = false
has_entry (seg ∷ []) = false
has_entry (seg ∷ next ∷ rest) = contains dir_container (lower seg) || has_entry (next ∷ rest)

unfoldable pub is_listing_entry_path : Text → Bool
unfolding has_entry filter split_by urlsplit
is_listing_entry_path url =
    has_entry (filter (λ p. not (null p)) (split_by (λ c. c == b'/') (urlsplit url).path))

unfoldable pub is_directory_page : Text → Option Text → Bool
unfolding bare_host is_listing_entry_path has_substring contains list_beq
is_directory_page url none = false
is_directory_page url (some title) =
    if has_substring (codes " | ") title
    then contains directory_host_seeds (bare_host url) || is_listing_entry_path url
    else false

entry_page : is_directory_page (codes "https://x.ua/Places/shop") (some (codes "A | B")) ≡ true
unfolding is_directory_page
entry_page = refl

gates :
    (is_low_value_host (codes "https://www.kmu.gov.ua/x") ≡ true)
    × (is_low_value_host (codes "old.reddit.com") ≡ true)
    × (is_news_host (codes "rivnenews.com.ua") ≡ true)
    × (is_low_value_host (codes "shop.ua") ≡ false)
unfolding is_low_value_host is_news_host
gates = (refl, refl, refl, refl)
