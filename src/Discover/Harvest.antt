-- ===== src/Discover/Harvest.antt =====
-- `ActiveHarvester._process_page` of crawler/crawler/discovery/harvest.py: what one fetched page adds
-- to the world outside. The extractor, the judge, the backend's answers and the scan for mail
-- addresses are `Parts`; where one of these calls can raise, that is an answer of it. The workers of
-- the pool share what they know and learn: the world is the one that a worker sees, and what the other
-- workers have done meanwhile comes into it by `meet`.
pub mod Pages
pub mod Run
pub mod Account
pub mod Passes
pub mod Pool
pub mod Groups
use ubd_probe.Prelude.{
  ℕ, suc, Bool, true, false, ◌&&◌, ◌||◌, not, Option, none, some, List, [], ◌∷◌, ◌++◌, map, filter,
  any, contains, null, ◌==◌, nat_eq, list_eq, list_beq, option_eq, is_some, if◌then◌else◌,
}
use ubd_probe.Prelude.Text.{Text, codes}
use ubd_probe.Hosts.Quality.{is_directory_page}
use ubd_probe.Search.Classify.{SourceType, website}
use ubd_probe.Discover.Types.{SourceCandidate, RawItem, text_or, first_text}
use ubd_probe.Discover.Ref.{normalize_ref}
use ubd_probe.Discover.Blocklist.{Blocks, is_blocked_host}
use ubd_probe.Discover.Attribution.{PageCtx, Attribution, outbound_hosts, build_page_ctx, attribute}
use ubd_probe.Discover.Select.{Stores}
use ubd_probe.Discover.SubSearch.{extract_business}
use ubd_probe.Discover.Aggregator.{add_domains}

-- `OfferCandidate`, as far as the harvester reads or writes it.
pub record OfferCandidate : Type 0 where
  pub title : Text
  pub provider : Text
  pub body : Text
  pub article_url : Option Text
  pub offer_category_ids : List ℕ
  pub offer_category_matches : List (Text × Text)

pub record Suggestion : Type 0 where
  pub name : Text
  pub type : SourceType
  pub url_or_handle : Text
  pub discovery_note : Text

-- What a call of the extractor ends with.
pub data Extracted : Type 0 where
  found : OfferCandidate → Extracted
  no_offer extract_raises : Extracted

-- What the other workers have done to the shared objects between two moments of a worker: they add to
-- the known references, which nobody takes back, and change the rest in any way.
pub record Meanwhile : Type 0 where
  pub added : List Text
  pub stores : Stores → Stores
  pub lang_hosts : Option (List Text) → Option (List Text)
  pub aggregator : Option (List Text) → Option (List Text)
  pub corpus : Option (List (RawItem × Bool)) → Option (List (RawItem × Bool))
  pub businesses : List (Text × Option Text) → List (Text × Option Text)
  pub directories : List Text → List Text

-- The components that the harvester calls. `accepts_offer` and `accepts_suggestion` are false where
-- the backend's answer raises, and `resolve_categories` is none where it raises; `others` tells, for
-- each moment at which a worker looks at the shared objects, what the other workers have done since
-- its last one.
pub record Parts : Type 0 where
  pub others : ℕ → Meanwhile
  pub extract : RawItem → Text → Extracted
  pub first_person : Text → Bool
  pub pick_target : List Text → Text → Option Text
  pub keep : OfferCandidate → Bool
  pub aggregate_page : List OfferCandidate → OfferCandidate
  pub resolve_categories : List (Text × Text) → Option (List ℕ)
  pub accepts_offer : OfferCandidate → Bool
  pub accepts_suggestion : Suggestion → Bool
  pub email_domains : List RawItem → Option Text → List Text

pub record Settings : Type 0 where
  pub hardening_enabled : Bool
  pub aggregator_min_outbound : ℕ
  pub aggregator_max_domains : ℕ
  pub source_hint_enabled : Bool
  pub editorial_gate_enabled : Bool
  pub media_autoblock_crawls : ℕ

-- What a worker sees and changes; a store that is not wired in is missing. The offers and suggestions
-- are the worker's own, `moment` counts its looks at what is shared.
pub record World : Type 0 where
  pub moment : ℕ
  pub stores : Stores
  pub lang_hosts : Option (List Text)
  pub aggregator : Option (List Text)
  pub corpus : Option (List (RawItem × Bool))
  pub known : List Text
  pub offers : List OfferCandidate
  pub suggestions : List Suggestion
  pub businesses : List (Text × Option Text)
  pub directories : List Text

pub record Summary : Type 0 where
  pub offers : ℕ
  pub suggestions : ℕ
  pub errors : ℕ

-- The state of a page's work; once a call has raised, nothing more of the page is done.
pub record Progress : Type 0 where
  pub world : World
  pub summary : Summary
  pub raised : Bool

-- `groups[key].append(offer)`, a new key at the end
unfoldable pub add_to_group :
    OfferCandidate
    → List (Option Text × List OfferCandidate)
    → List (Option Text × List OfferCandidate)
unfolding list_beq
add_to_group offer [] = (offer.article_url, offer ∷ []) ∷ []
add_to_group offer ((key, group) ∷ groups) =
    let rest = add_to_group offer groups in
    if key == offer.article_url then (key, group ++ (offer ∷ [])) ∷ groups else (key, group) ∷ rest

unfoldable pub group_from :
    List OfferCandidate
    → List (Option Text × List OfferCandidate)
    → List (Option Text × List OfferCandidate)
unfolding add_to_group
group_from [] groups = groups
group_from (offer ∷ offers) groups = group_from offers (add_to_group offer groups)

module _ (parts : Parts) where
  -- A worker looks at the shared objects.
  unfoldable pub meet : World → World
  meet world =
      let others = parts.others world.moment in
      record world {
        moment = suc world.moment;
        stores = others.stores world.stores;
        lang_hosts = others.lang_hosts world.lang_hosts;
        aggregator = others.aggregator world.aggregator;
        corpus = others.corpus world.corpus;
        known = others.added ++ world.known;
        businesses = others.businesses world.businesses;
        directories = others.directories world.directories;
      }

  -- The page's offer of one group, with its categories.
  unfoldable pub page_offer : List OfferCandidate → Option OfferCandidate
  page_offer group =
      let offer = parts.aggregate_page group in
      elim (parts.resolve_categories offer.offer_category_matches) [
        | none ↦ none
        | some ids ↦ some (record offer { offer_category_ids = ids })
      ]

  unfoldable pub submit_offer : OfferCandidate → Progress → Progress
  submit_offer offer p =
      let world = p.world in
      let summary = p.summary in
      if p.raised
      then p
      else if parts.accepts_offer offer
      then record p {
        world = record world { offers = world.offers ++ (offer ∷ []) };
        summary = record summary { offers = suc summary.offers };
      }
      else record p { raised = true }

  unfoldable pub submit_group : List OfferCandidate → Progress → Progress
  unfolding submit_offer page_offer
  submit_group group p = elim (page_offer group) [
    | none ↦ record p { raised = true }
    | some offer ↦ submit_offer offer p
  ]

  unfoldable pub submit_groups : List (Option Text × List OfferCandidate) → Progress → Progress
  unfolding submit_group
  submit_groups [] p = p
  submit_groups ((key, group) ∷ groups) p = submit_groups groups (submit_group group p)

  -- A suggestion whose reference is not known yet. Between the check and the two calls that follow it
  -- another worker may pass the same check.
  unfoldable pub suggest : Suggestion → Progress → Progress
  unfolding meet contains list_beq normalize_ref
  suggest s p =
      let world = meet p.world in
      let summary = p.summary in
      let ref = normalize_ref s.type s.url_or_handle in
      if p.raised || contains world.known ref
      then record p { world = world }
      else if parts.accepts_suggestion s
      then record p {
        world = record world {
          suggestions = world.suggestions ++ (s ∷ []);
          known = ref ∷ world.known;
        };
        summary = record summary { suggestions = suc summary.suggestions };
      }
      else record p { world = world; raised = true }

  unfoldable pub suggest_all : List Suggestion → Progress → Progress
  unfolding suggest
  suggest_all [] p = p
  suggest_all (s ∷ rest) p = suggest_all rest (suggest s p)

-- The suggestions of the attributions that name a site.
unfoldable pub suggested_sites : SourceCandidate → List Attribution → List Suggestion
suggested_sites cand [] = []
suggested_sites cand (a ∷ rest) =
    let later = suggested_sites cand rest in
    if null (text_or a.suggest_url_or_handle)
    then later
    else record {
      name = a.suggest_name;
      type = a.suggest_type;
      url_or_handle = text_or a.suggest_url_or_handle;
      discovery_note = codes "active-search offer from " ++ cand.url_or_handle;
    }
      ∷ later

abbrev pub hinted_site : SourceCandidate → Text → Suggestion
hinted_site cand hint = record {
  name = hint;
  type = website;
  url_or_handle = codes "https://" ++ hint;
  discovery_note = codes "business email domain on " ++ cand.url_or_handle;
}

abbrev pub has_commerce : RawItem → Bool
has_commerce it = it.has_offer_schema || it.has_business_schema
