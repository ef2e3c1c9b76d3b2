-- ===== src/Discover/Harvest/Pages.antt =====
-- `_process_page` and `_harvest_one` of crawler/crawler/discovery/harvest.py. A page is a list of
-- blocks; `fetch` answers none where it raises. The waits between the requests are left out,
-- and so is a corpus file that cannot be written.
use ubd_probe.Prelude.{
  ℕ, Bool, true, false, ◌&&◌, ◌||◌, not, Option, none, some, List, [], ◌∷◌, ◌++◌, map, any, null,
  nat_eq, list_eq, if◌then◌else◌,
}
use ubd_probe.Prelude.Text.{Text}
use ubd_probe.Hosts.Quality.{is_directory_page}
use ubd_probe.Discover.Types.{type_eq, SourceCandidate, RawItem, text_or, first_text}
use ubd_probe.Discover.Blocklist.{Blocks, is_blocked_host}
use ubd_probe.Discover.Attribution.{Attribution, PageCtx, outbound_hosts, build_page_ctx, attribute}
use ubd_probe.Discover.SubSearch.{extract_business}
use ubd_probe.Discover.Aggregator.{add_domains}
use ubd_probe.Discover.Harvest.{
  OfferCandidate, found, no_offer, extract_raises, Parts, Settings, World, Summary, Progress,
  group_from, submit_groups, suggest_all, suggested_sites, hinted_site, has_commerce,
}

-- `_is_editorial_page` and `_is_news_portal_page`
unfoldable pub is_editorial_page : List RawItem → Bool
unfolding any
is_editorial_page items = any (λ it. it.is_article) items && not (any has_commerce items)

unfoldable pub is_news_portal_page : List RawItem → Bool
unfolding any
is_news_portal_page items =
    any (λ it. it.has_news_schema || it.has_feed) items && not (any has_commerce items)

-- `self._corpus.record(it, is_offer)`, when there is a corpus
abbrev pub recorded :
    RawItem → Bool → Option (List (RawItem × Bool)) → Option (List (RawItem × Bool))
recorded it is_offer none = none
recorded it is_offer (some corpus) = some (corpus ++ ((it, is_offer) ∷ []))

-- The blocks of a page that are offers, and the corpus after them; whether the extractor raised.
pub record Screened : Type 0 where
  pub passing : List RawItem
  pub corpus : Option (List (RawItem × Bool))
  pub raised : Bool

-- The hosts that a page of a blocked directory leads to.
abbrev pub mined : List Text → ℕ → Option (List Text) → Option (List Text)
mined hosts cap none = none
mined hosts cap (some stored) = some (if null hosts then stored else add_domains hosts cap stored)

module _ (parts : Parts) (settings : Settings) where
  -- The first loop over the blocks.
  unfoldable pub screen : List RawItem → Option (List (RawItem × Bool)) → Screened
  screen [] corpus = record { passing = []; corpus = corpus; raised = false }
  screen (it ∷ items) corpus =
      let spurned = screen items (recorded it false corpus) in
      let taken = screen items (recorded it true corpus) in
      elim (parts.extract it []) [
        | extract_raises ↦ record { passing = []; corpus = corpus; raised = true }
        | no_offer ↦ spurned
        | found offer ↦ record taken { passing = it ∷ taken.passing }
      ]

  -- The offers of the blocks that have an owner and that the judge keeps, with the owners; none where
  -- the extractor raises.
  unfoldable pub collect :
      Blocks → PageCtx → List RawItem → Option (List (OfferCandidate × Attribution))
  unfolding attribute
  collect blocks ctx [] = some []
  collect blocks ctx (it ∷ items) =
      let rest = collect blocks ctx items in
      elim (attribute parts.first_person parts.pick_target blocks it ctx
        settings.aggregator_min_outbound settings.hardening_enabled) [
          | none ↦ rest
          | some a ↦ elim (parts.extract it a.provider) [
            | extract_raises ↦ none
            | no_offer ↦ rest
            | found offer ↦
                if parts.keep offer
                then elim rest [ none ↦ none | some later ↦ some ((offer, a) ∷ later) ]
                else rest
          ]
        ]

  -- A directory page: its host is registered, and its business is queued.
  unfoldable pub queue_business : SourceCandidate → List RawItem → Option Text → World → World
  unfolding extract_business
  queue_business cand items host world =
      let business = extract_business items cand in
      record world {
        directories =
            if null (text_or host)
            then world.directories
            else world.directories ++ (text_or host ∷ []);
        businesses =
            if null business.0 then world.businesses else world.businesses ++ (business ∷ []);
      }

  -- The offers and the suggestions of a page with something collected.
  unfoldable pub submit_page :
      SourceCandidate
      → List RawItem
      → Option Text
      → List (OfferCandidate × Attribution)
      → Progress
      → Progress
  unfolding group_from submit_groups suggest_all suggested_sites
  submit_page cand items host collected p =
      let offered = submit_groups parts (group_from (map (λ x. x.0) collected) []) p in
      let suggested = suggest_all parts (suggested_sites cand (map (λ x. x.1) collected)) offered in
      if settings.source_hint_enabled
      then suggest_all parts (map (hinted_site cand) (parts.email_domains items host)) suggested
      else suggested

  -- What the aggregator store learns from a page, before anything is submitted.
  unfoldable pub mine_page : List RawItem → Option Text → World → World
  unfolding is_blocked_host outbound_hosts add_domains
  mine_page passing host world =
      let stores = world.stores in
      if is_blocked_host stores.blocks (text_or host)
      then record world {
        aggregator =
            mined (outbound_hosts stores.blocks passing) settings.aggregator_max_domains
              world.aggregator;
      }
      else world

  -- The page of a provider, with what it has collected.
  unfoldable pub offer_page :
      SourceCandidate
      → List RawItem
      → Option Text
      → Option (List (OfferCandidate × Attribution))
      → Progress
      → Progress
  unfolding submit_page
  offer_page cand items host none p = record p { raised = true }
  offer_page cand items host (some []) p = p
  offer_page cand items host (some (one ∷ more)) p = submit_page cand items host (one ∷ more) p

  -- `_process_page`: whether the page shows the structure of a provider, with what the page adds.
  unfoldable pub process_page : SourceCandidate → List RawItem → World → Summary → Bool × Progress
  unfolding any build_page_ctx first_text is_directory_page screen mine_page queue_business collect
      offer_page
  process_page cand items world summary =
      let stores = world.stores in
      let structural = any has_commerce items in
      let screened = screen items world.corpus in
      let passing = screened.passing in
      let seen : World = record world { corpus = screened.corpus } in
      let ctx = build_page_ctx stores.blocks cand passing in
      let title = first_text (map (λ it. it.title) items) in
      let searched : World = mine_page passing ctx.host seen in
      if screened.raised
      then (structural, record { world = seen; summary = summary; raised = true })
      else if is_directory_page cand.url_or_handle title
      then (
        structural,
        record {
          world = queue_business cand items ctx.host seen;
          summary = summary;
          raised = false;
        },
      )
      else (
        structural,
        offer_page cand items ctx.host (collect stores.blocks ctx passing)
            (record { world = searched; summary = summary; raised = false }),
      )
