-- ===== src/Discover/SubSearch.antt =====
-- crawler/crawler/discovery/subsearch.py: the business of a directory page, and the search for its own
-- site. `search` answers none where it raises.
use mathlib.Core.Path.{subst}
use ubd_probe.Prelude.{
  ◌≡◌, inl, inr, refl, sym, ◌∙◌, Bool-cases, Option-cases, arith, leb, ltb, Bool, true, false, ◌&&◌,
  ◌||◌, not, Option, none, some, List, [], ◌∷◌, ◌++◌, map, filter, any, contains, length, null,
  ◌==◌, nat_eq, list_eq, list_beq, if◌then◌else◌,
}
use ubd_probe.Prelude.Text.{Text, codes, lower, strip, split_by, is_space}
use ubd_probe.Prelude.Text.Url.{urlsplit}
use ubd_probe.Hosts.{bare_host, is_foreign_host, is_ru_by_geo}
use ubd_probe.Hosts.Quality.{
  is_within, is_low_value_host, is_news_host, directory_host_seeds, dir_container,
}
use ubd_probe.Backend.Urlnorm.{is_slash}
use ubd_probe.Search.Classify.{website}
use ubd_probe.Discover.Types.{type_eq, SourceCandidate, RawItem, text_or, first_text}
use ubd_probe.Discover.Blocklist.{Blocks, is_blocked_host}

-- The name behind the first container segment that has a segment behind it.
unfoldable pub business_name : List Text → Text
unfolding contains list_beq lower strip
business_name [] = []
business_name (seg ∷ []) = []
business_name (seg ∷ next ∷ rest) =
    let later = business_name (next ∷ rest) in
    if contains dir_container (lower seg)
    then lower (strip (map (λ c. if c == b'-' || c == b'_' then b' ' else c) next))
    else later

unfoldable pub extract_business : List RawItem → SourceCandidate → Text × Option Text
unfolding first_text filter split_by is_slash urlsplit business_name
extract_business items cand =
    let url =
      if null cand.url_or_handle
      then text_or (first_text (map (λ it. it.url) items))
      else cand.url_or_handle in
    let parts = filter (λ p. not (null p)) (split_by is_slash (urlsplit url).path) in
    (business_name parts, first_text (map (λ it. it.locality) items))

abbrev social : List Text
social = map codes (
    "facebook.com" ∷ "instagram.com" ∷ "t.me" ∷ "tiktok.com" ∷ "youtube.com" ∷ "twitter.com"
    ∷ "x.com" ∷ "linkedin.com" ∷ [])

unfoldable pub rejected_host : Blocks → Text → Bool
unfolding contains list_beq any is_within is_blocked_host is_foreign_host is_ru_by_geo
    is_low_value_host is_news_host
rejected_host blocks h =
    null h
    || not (contains h b'.')
    || contains directory_host_seeds h
    || any (is_within h) social
    || is_blocked_host blocks h
    || is_foreign_host (codes "https://" ++ h)
    || is_ru_by_geo (codes "https://" ++ h)
    || is_low_value_host h
    || is_news_host h

-- The first website result whose host is not rejected.
unfoldable pub first_site : Blocks → List SourceCandidate → Option Text
unfolding bare_host rejected_host
first_site blocks [] = none
first_site blocks (c ∷ results) =
    let later = first_site blocks results in
    if c.type == website && not (rejected_host blocks (bare_host c.url_or_handle))
    then some (bare_host c.url_or_handle)
    else later

unfoldable pub quoted : Text → Text
quoted name = b'"' ∷ (name ++ (b'"' ∷ []))

unfoldable pub keyword : Text → Option Text → Text
unfolding quoted
keyword name city =
    if null (text_or city) then quoted name else quoted name ++ (b' ' ∷ text_or city)

-- A generic name without a city is not searched for.
unfoldable pub is_vague : Text → Option Text → Bool
unfolding filter split_by is_space
is_vague name city =
    leb (length (filter (λ t. ltb 1 (length t)) (split_by is_space name))) 2 && null (text_or city)

or_false_left : (a b : Bool) → (a || b) ≡ false → a ≡ false
or_false_left a b h = ground arith

or_false_right : (a b : Bool) → (a || b) ≡ false → b ≡ false
or_false_right a b h = ground arith

some_same : {a b : Text} → some a ≡ some b → a ≡ b
some_same e = cc

and_not : (a b : Bool) → (a && not b) ≡ true → b ≡ false
and_not a b h = ground arith

first_site-accepted :
    (blocks : Blocks) (results : List SourceCandidate) (host : Text)
    → first_site blocks results ≡ some host
    → rejected_host blocks host ≡ false
unfolding first_site
first_site-accepted blocks [] host e = cc
first_site-accepted blocks (c ∷ results) host e =
    elim (Bool-cases
      (c.type == website && not (rejected_host blocks (bare_host c.url_or_handle)))) [
        | inl good ↦
            let shape : first_site blocks (c ∷ results) ≡ some (bare_host c.url_or_handle) =
              rw (first_site, good) refl in
            subst (λ h. rejected_host blocks h ≡ false) (some_same (sym shape ∙ e))
              (and_not (c.type == website) (rejected_host blocks (bare_host c.url_or_handle)) good)
        | inr bad ↦ first_site-accepted blocks results host (ground arith)
      ]

module _ (search : Text → Option (List SourceCandidate)) (blocks : Blocks) where
  unfoldable pub resolve_business_site : Text → Option Text → Option Text
  unfolding is_vague keyword first_site
  resolve_business_site name city =
      if null name || is_vague name city then none else elim (search (keyword name city)) [
        | none ↦ none
        | some results ↦ first_site blocks results
      ]

  -- The site that a sub-search finds is none of the hosts that it rejects: not a host without a dot, a
  -- directory, a social network, nor a blocked, foreign, Russian or Belarusian, low-value or news host.
  pub resolve_business_site-accepted :
      (name : Text) (city : Option Text) (host : Text)
      → resolve_business_site name city ≡ some host
      → (rejected_host blocks host ≡ false) × (null name ≡ false) × (is_vague name city ≡ false)
  unfolding resolve_business_site
  resolve_business_site-accepted name city host e =
      elim (Bool-cases (null name || is_vague name city)) [
        | inl stopped ↦ absurd (ground arith)
        | inr asked ↦ elim (Option-cases (search (keyword name city))) [
          | inl down ↦ absurd (ground arith)
          | inr (results, found) ↦ (
            first_site-accepted blocks results host
                (sym (rw (resolve_business_site, asked, found) refl) ∙ e),
            or_false_left _ _ asked,
            or_false_right _ _ asked,
          )
        ]
      ]
