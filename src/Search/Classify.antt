-- ===== src/Search/Classify.antt =====
-- `_normalize_url` and `classify_candidate` of crawler/crawler/discovery/providers.py.
use ubd_probe.Prelude.{
  ◌≡◌, refl, Bool, ◌&&◌, ◌||◌, not, Option, none, some, List, [], ◌∷◌, ◌++◌, map, ◌==◌, nat_eq,
  list_eq, list_beq, contains, any, filter, null, if◌then◌else◌,
}
use ubd_probe.Prelude.Text.{Text, codes, lower, strip, starts_with, rstrip_by}
use ubd_probe.Prelude.Text.Url.{Url, urlsplit}
use ubd_probe.Prelude.Text.Query.{parse_qsl, urlencode}
use ubd_probe.Hosts.{bare_host}

-- `urlunsplit` with no fragment, for a scheme and a location that are not empty.
unfoldable pub urlunsplit : Text → Text → Text → Text → Text
urlunsplit scheme netloc path query =
    let rooted = if null path || starts_with (codes "/") path then path else b'/' ∷ path in
    scheme ++ (codes "://" ++ (netloc ++ (rooted ++ (if null query then [] else b'?' ∷ query))))

-- `k.lower().startswith("utm_")`
unfoldable pub is_utm : Text × Text → Bool
unfolding lower starts_with
is_utm (k, v) = starts_with (codes "utm_") (lower k)

-- The scheme test that both normalisers begin with.
unfoldable pub is_web_url : Url → Bool
unfolding list_beq
is_web_url p = (p.scheme == codes "http" || p.scheme == codes "https") && not (null p.netloc)

unfoldable pub normalize_url : Text → Option Text
unfolding strip urlsplit is_web_url parse_qsl urlencode filter is_utm rstrip_by urlunsplit lower
    starts_with
normalize_url url =
    if null url
    then none
    else (let p = urlsplit (strip url) in
        if is_web_url p
        then (let query = urlencode (filter (λ kv. not (is_utm kv)) (parse_qsl p.query)) in
            let path = rstrip_by (λ c. c == b'/') p.path in
            some (urlunsplit (lower p.scheme) (lower p.netloc) path query))
        else none)

abbrev ig_reserved : List Text
ig_reserved = map codes ("/p/" ∷ "/reel/" ∷ "/reels/" ∷ "/explore/" ∷ "/stories/" ∷ [])

abbrev fb_reserved : List Text
fb_reserved = map codes ("/share" ∷ "/sharer" ∷ "/events" ∷ "/photo" ∷ "/watch" ∷ [])

-- The path is the root or under a reserved prefix.
unfoldable pub is_reserved : List Text → Text → Bool
unfolding list_beq any starts_with
is_reserved prefixes path = path == codes "/" || any (λ p. starts_with p path) prefixes

pub data SourceType : Type 0 where
  website facebook telegram instagram : SourceType

unfoldable pub classify_candidate : Text → Option (SourceType × Text)
unfolding normalize_url urlsplit bare_host contains list_beq is_reserved
classify_candidate url = elim (normalize_url url) [
  | none ↦ none
  | some norm ↦
      let host = bare_host norm in
      let split = (urlsplit norm).path in
      let path = if null split then codes "/" else split in
      if contains (codes "t.me" ∷ codes "telegram.me" ∷ []) host
      then some (telegram, norm)
      else if host == codes "instagram.com"
      then (if is_reserved ig_reserved path then none else some (instagram, norm))
      else if contains (codes "facebook.com" ∷ codes "fb.com" ∷ []) host
      then (if is_reserved fb_reserved path then none else some (facebook, norm))
      else some (website, norm)
]

classified :
    (classify_candidate (codes "https://www.Instagram.com/Shop/?utm_source=x&a=1")
      ≡ some (instagram, codes "https://www.instagram.com/Shop?a=1"))
    × (classify_candidate (codes "https://instagram.com/p/abc") ≡ none)
    × (classify_candidate (codes "ftp://x.ua/") ≡ none)
    × (classify_candidate (codes "HTTP://Shop.ua/") ≡ some (website, codes "http://shop.ua"))
unfolding classify_candidate
classified = (refl, refl, refl, refl)
