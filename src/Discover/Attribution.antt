-- ===== src/Discover/Attribution.antt =====
-- crawler/crawler/discovery/attribution.py: to whom an offer on a page belongs. `first_person` is the
-- search of `_FIRST_PERSON` in a text in lower case, and `pick_target` is `_pick_target` of the extractor.
pub mod Laws
use ubd_probe.Prelude.{
  ℕ, leb, Bool, true, false, ◌&&◌, ◌||◌, not, Option, none, some, List, [], ◌∷◌, ◌++◌, map, filter,
  length, null, ◌==◌, nat_eq, list_eq, list_beq, is_some, or_else, if◌then◌else◌,
}
use ubd_probe.Prelude.Text.{Text, codes, lower}
use ubd_probe.Prelude.Text.Url.{Url, urlsplit}
use ubd_probe.Hosts.{bare_host}
use ubd_probe.Backend.Dedup.{to_set}
use ubd_probe.Search.Classify.{SourceType, website, telegram}
use ubd_probe.Discover.Types.{type_eq, SourceCandidate, RawItem, text_or, first_text}
use ubd_probe.Discover.Blocklist.{Blocks, is_blocked_host, is_blocked_telegram}

pub record PageCtx : Type 0 where
  pub cand_type : SourceType
  pub cand_name : Text
  pub cand_url_or_handle : Text
  pub brand : Option Text
  pub host : Option Text
  pub offer_block_count : ℕ
  pub outbound_host_count : ℕ

pub record Attribution : Type 0 where
  pub provider : Text
  pub is_first_party : Bool
  pub suggest_type : SourceType
  pub suggest_url_or_handle : Option Text
  pub suggest_name : Text

-- `_host`
unfoldable pub host_or : Text → Option Text
unfolding bare_host
host_or url = if null (bare_host url) then none else some (bare_host url)

-- `_origin`
unfoldable pub origin : Text → Option Text
unfolding urlsplit
origin url =
    let p = urlsplit url in
    if null p.scheme || null p.netloc then none else some (p.scheme ++ (codes "://" ++ p.netloc))

-- The links of one item that lead to another host, which is not blocked.
unfoldable pub outbound_of : Blocks → RawItem → List Text
unfolding filter bare_host is_blocked_host list_beq
outbound_of blocks it =
    filter
      (λ h. not (null h) && not (h == bare_host (text_or it.url)) && not (is_blocked_host blocks h))
      (map bare_host it.links)

abbrev concat_outbound : Blocks → List RawItem → List Text
concat_outbound blocks [] = []
concat_outbound blocks (it ∷ items) = outbound_of blocks it ++ concat_outbound blocks items

-- `_outbound_hosts`
unfoldable pub outbound_hosts : Blocks → List RawItem → List Text
unfolding to_set outbound_of list_beq
outbound_hosts blocks items = to_set (concat_outbound blocks items)

-- `next((_host(it.url) for it in passing_items if it.url), None)`
unfoldable pub first_host : List RawItem → Option Text
unfolding host_or
first_host [] = none
first_host (it ∷ items) =
    let rest = first_host items in if null (text_or it.url) then rest else host_or (text_or it.url)

unfoldable pub build_page_ctx : Blocks → SourceCandidate → List RawItem → PageCtx
unfolding first_text first_host outbound_hosts
build_page_ctx blocks cand passing = record {
  cand_type = cand.type;
  cand_name = cand.name;
  cand_url_or_handle = cand.url_or_handle;
  brand = first_text (map (λ it. it.site_name) passing);
  host = first_host passing;
  offer_block_count = length passing;
  outbound_host_count = length (outbound_hosts blocks passing);
}

abbrev https : Option Text → Option Text
https none = none
https (some host) = some (codes "https://" ++ host)

-- `_first_party`, on a page with a brand
unfoldable pub first_party : PageCtx → Text → Attribution
unfolding origin
first_party ctx brand = record {
  provider = brand;
  is_first_party = true;
  suggest_type = website;
  suggest_url_or_handle = or_else (origin ctx.cand_url_or_handle) (https ctx.host);
  suggest_name = brand;
}

-- The attribution to the business behind a link.
unfoldable pub third_party : Text → Attribution
unfolding host_or origin
third_party ext =
    let host = elim (host_or ext) as (λ o. Text) [ none ↦ ext | some h ↦ h ] in
    record {
      provider = host;
      is_first_party = false;
      suggest_type = website;
      suggest_url_or_handle = origin ext;
      suggest_name = host;
    }

module _ (first_person : Text → Bool) (pick_target : List Text → Text → Option Text)
    (blocks : Blocks) where
  -- The external link of an item, unless it leads to a blocked host.
  unfoldable pub clean_link : RawItem → Option Text
  unfolding is_blocked_host bare_host
  clean_link item = elim (pick_target item.links (text_or item.url)) [
    | none ↦ none
    | some ext ↦ if null ext || is_blocked_host blocks (bare_host ext) then none else some ext
  ]

  -- The four rules for a website, in the order of the code.
  unfoldable pub attribute_business : RawItem → PageCtx → Option Attribution
  unfolding lower clean_link first_party third_party
  attribute_business item ctx =
      let single : Option Attribution = elim ctx.brand [
        | none ↦ none
        | some brand ↦ if leb ctx.offer_block_count 1 then some (first_party ctx brand) else none
      ] in
      let linked : Option Attribution = elim (clean_link item) [
        | none ↦ single
        | some ext ↦ some (third_party ext)
      ] in
      elim ctx.brand [
        | none ↦ linked
        | some brand ↦
            if first_person (lower item.text) then some (first_party ctx brand) else linked
      ]

  -- An article without the schema of a business, or a page with many outbound hosts.
  abbrev pub is_media : ℕ → RawItem → PageCtx → Bool
  is_media min_outbound item ctx =
      (item.is_article && not item.has_business_schema) || leb min_outbound ctx.outbound_host_count

  -- `attribute`; without the hardening it is `_attribute_legacy`, which knows no media page.
  unfoldable pub attribute : RawItem → PageCtx → ℕ → Bool → Option Attribution
  unfolding is_blocked_telegram is_blocked_host clean_link third_party attribute_business
  attribute item ctx min_outbound hardening_enabled =
      let name = if null ctx.cand_name then ctx.cand_url_or_handle else ctx.cand_name in
      if ctx.cand_type == telegram
      then (if is_blocked_telegram ctx.cand_url_or_handle ctx.cand_name
          then none
          else some (record {
            provider = name;
            is_first_party = true;
            suggest_type = telegram;
            suggest_url_or_handle = some ctx.cand_url_or_handle;
            suggest_name = name;
          }))
      else if is_blocked_host blocks (text_or ctx.host)
      then none
      else if hardening_enabled && is_media min_outbound item ctx
      then elim (clean_link item) [ none ↦ none | some ext ↦ some (third_party ext) ]
      else attribute_business item ctx
