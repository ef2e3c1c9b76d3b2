-- ===== src/Discover/Blocklist.antt =====
-- crawler/crawler/discovery/blocklist.py, with the stores of geo_block.py, lang_block.py and
-- media_autoblock.py that fill it. A set of hosts is a list that is read by membership only.
pub mod Laws
use ubd_probe.Prelude.{
  ℕ, Bool, true, false, ◌&&◌, ◌||◌, not, Option, none, some, List, [], ◌∷◌, ◌++◌, map, filter, any,
  contains, null, ◌==◌, nat_eq, list_eq, list_beq, if◌then◌else◌,
}
use ubd_probe.Prelude.Text.{
  Text, codes, lower, strip, ends_with, removeprefix, has_substring, split_by, first_part,
  strip_prefix, drop_while, rstrip_by,
}
use ubd_probe.Backend.Urlnorm.{is_slash}
use ubd_probe.Backend.Dedup.{is_word}
use ubd_probe.Hosts.{bare_host}
use ubd_probe.Hosts.Quality.{is_within}

abbrev media : List Text
media = map codes (
    "nv.ua" ∷ "24tv.ua" ∷ "061.ua" ∷ "pravda.com.ua" ∷ "unian.ua" ∷ "tsn.ua" ∷ "rbc.ua"
    ∷ "censor.net" ∷ "obozrevatel.com" ∷ "segodnya.ua" ∷ "ukr.net" ∷ "dnipro.media" ∷ "fakty.com.ua"
    ∷ "blog.ipay.ua" ∷ "veteranam.info" ∷ "engage.org.ua" ∷ "goncharenkocentre.com.ua"
    ∷ "findglocal.com" ∷ "znaj.ua" ∷ "ukrainianwall.com" ∷ "kosht.media" ∷ "epravda.com.ua"
    ∷ "protocol.ua" ∷ "focus.ua" ∷ "glavcom.ua" ∷ "thepage.ua" ∷ "parlament.ua" ∷ "kharakter.media"
    ∷ "liga.net" ∷ "hromadske.ua" ∷ "suspilne.media" ∷ "ukrinform.ua" ∷ "korrespondent.net"
    ∷ "gordonua.com" ∷ "lb.ua" ∷ "zaxid.net" ∷ "dumka.media" ∷ [])

abbrev stock : List Text
stock =
    map codes ("depositphotos.com" ∷ "shutterstock.com" ∷ "istockphoto.com" ∷ "freepik.com" ∷ [])

abbrev social : List Text
social =
    map codes
      ("tiktok.com" ∷ "youtube.com" ∷ "youtu.be" ∷ "pinterest.com" ∷ "twitter.com" ∷ "x.com" ∷ [])

-- The three sets that a run changes: `_LEARNED`, `_GEO_BLOCKED` and `_LANG_BLOCKED`.
pub record Blocks : Type 0 where
  pub learned : List Text
  pub geo_blocked : List Text
  pub lang_blocked : List Text

-- `frozenset(n for n in {bare_host(h) for h in hosts if h and h.strip()} if n)`
unfoldable pub normalized : List Text → List Text
unfolding filter bare_host strip
normalized hosts =
    filter (λ h. not (null h)) (map bare_host (filter (λ h. not (null (strip h))) hosts))

unfoldable pub reload_lang_blocked : List Text → Blocks → Blocks
unfolding normalized
reload_lang_blocked hosts b = record b { lang_blocked = normalized hosts }

unfoldable pub reload_learned : List Text → Blocks → Blocks
unfolding normalized
reload_learned hosts b = record b { learned = normalized hosts }

unfoldable pub reload_geo_blocked : List Text → Blocks → Blocks
unfolding normalized
reload_geo_blocked hosts b = record b { geo_blocked = normalized hosts }

unfoldable pub add_learned : Text → Blocks → Blocks
unfolding bare_host strip
add_learned host b =
    let h = if null (strip host) then [] else bare_host host in
    if null h then b else record b { learned = h ∷ b.learned }

-- The host is one of these, or stands below one of these.
unfoldable pub is_under : List Text → Text → Bool
unfolding any is_within
is_under hosts host = any (is_within host) hosts

-- `gov.ua` and `_BLOCKED`
unfoldable pub is_seeded : Text → Bool
unfolding is_under is_within list_beq
is_seeded host = is_within host (codes "gov.ua") || is_under (media ++ (stock ++ social)) host

-- The test on a host that `bare_host` has read.
unfoldable pub is_blocked : Blocks → Text → Bool
unfolding is_seeded is_under
is_blocked b host =
    if null host
    then false
    else is_seeded host
      || is_under b.geo_blocked host
      || is_under b.lang_blocked host
      || is_under b.learned host

unfoldable pub is_blocked_host : Blocks → Text → Bool
unfolding is_blocked bare_host
is_blocked_host b value = is_blocked b (bare_host value)

-- `load` of a store reads the hosts of its file, `add` a host or a URL that it does not hold yet;
-- both hand the store's set on to the block list. `add` answers whether the host is new.
unfoldable pub load : List Text → List Text
unfolding filter bare_host
load data_hosts = filter (λ h. not (null h)) (map bare_host (filter (λ h. not (null h)) data_hosts))

unfoldable pub pin : Text → List Text → Bool × List Text
unfolding bare_host contains list_beq
pin value hosts =
    let h = bare_host value in
    if null h || contains hosts h then (false, hosts) else (true, h ∷ hosts)

-- `GeoBlockStore.add` and `LangBlockStore.add`
unfoldable pub add_geo : Text → List Text → Blocks → List Text × Blocks
unfolding pin reload_geo_blocked
add_geo value hosts b =
    let added = pin value hosts in
    if added.0 then (added.1, reload_geo_blocked added.1 b) else (hosts, b)

unfoldable pub add_lang : Text → List Text → Blocks → List Text × Blocks
unfolding pin reload_lang_blocked
add_lang value hosts b =
    let added = pin value hosts in
    if added.0 then (added.1, reload_lang_blocked added.1 b) else (hosts, b)

-- `MediaAutoBlocker.block`; `accepted` tells whether the backend has taken the host.
unfoldable pub block_media : Bool → Text → Blocks → Bool × Blocks
unfolding add_learned
block_media accepted host b =
    if null host || not accepted then (false, b) else (true, add_learned host b)

abbrev telegram_handles : List Text
telegram_handles = codes "nau_info" ∷ []

abbrev channel_news_strong : List Text
channel_news_strong = map codes (
    "новини" ∷ "новостей" ∷ "університет" ∷ "студент" ∷ "коледж" ∷ "абітурієнт" ∷ "розклад"
    ∷ "оголошення" ∷ "вступ" ∷ [])

-- The text behind the first occurrence of a part.
unfoldable pub behind : Text → Text → Option Text
unfolding strip_prefix
behind part [] = none
behind part (c ∷ s) =
    let rest = behind part s in
    elim (strip_prefix part (c ∷ s)) [ some tail ↦ some tail | none ↦ rest ]

-- `_tg_handle`
unfoldable pub tg_handle : Text → Text
unfolding strip lower removeprefix behind drop_while rstrip_by is_slash split_by
tg_handle raw =
    let s = removeprefix (codes "@") (lower (strip raw)) in
    let path : Text = elim (behind (codes "t.me/") s) [ none ↦ s | some tail ↦ tail ] in
    let bare = rstrip_by is_slash (drop_while is_slash path) in
    first_part (split_by (λ c. c == b'?') (first_part (split_by is_slash bare)))

abbrev channel_news_word : List Text
channel_news_word = map codes ("інфо" ∷ "info" ∷ "news" ∷ [])

abbrev ends_word : Text → Bool
ends_word [] = true
ends_word (c ∷ s) = not (is_word c)

-- One of the words stands at the head of the text, and ends there.
unfoldable pub word_here : List Text → Text → Bool
unfolding strip_prefix is_word
word_here [] s = false
word_here (w ∷ ws) s =
    elim (strip_prefix w s) [ none ↦ false | some tail ↦ ends_word tail ] || word_here ws s

-- `_CHANNEL_NEWS_WORD.search`, on a text in lower case; the flag tells whether a word reaches up to
-- this place.
unfoldable pub has_news_word : Bool → Text → Bool
unfolding word_here is_word
has_news_word inside [] = false
has_news_word inside (c ∷ s) =
    (not inside && word_here channel_news_word (c ∷ s)) || has_news_word (is_word c) s

unfoldable pub is_blocked_telegram : Text → Text → Bool
unfolding tg_handle contains list_beq lower any has_substring has_news_word
is_blocked_telegram handle name =
    let text = lower (handle ++ (b' ' ∷ name)) in
    contains telegram_handles (tg_handle handle)
    || any (λ w. has_substring w text) channel_news_strong
    || has_news_word false text
