-- ===== src/Discover/Harvest/Run.antt =====
-- `_plan`, `_harvest_one` and `_execute` of crawler/crawler/discovery/harvest.py: the pages of one
-- candidate, the candidates that a worker of the pool takes, and the pool. What the other workers do
-- meanwhile comes into the world of a worker when a candidate starts, before each of its pages, before
-- each check of what is known, and before the registry is told.
use ubd_probe.Prelude.{
  ℕ, suc, ◌+◌, Bool, false, ◌&&◌, ◌||◌, not, Option, none, some, List, [], ◌∷◌, map, contains,
  nat_eq, list_eq, list_beq, if◌then◌else◌,
}
use ubd_probe.Prelude.Text.{Text, codes, join}
use ubd_probe.Hosts.{bare_host}
use ubd_probe.Search.Classify.{SourceType}
use ubd_probe.Crawl.Registry.{
  Registry, record_crawl, media_block_due, editorial_block_due, mark_media_blocked,
}
use ubd_probe.Discover.Types.{type_eq, SourceCandidate, RawItem}
use ubd_probe.Discover.Ref.{normalize_ref}
use ubd_probe.Discover.Blocklist.{is_blocked_host, add_lang, block_media}
use ubd_probe.Discover.Select.{is_website}
use ubd_probe.Discover.Harvest.{Meanwhile, Parts, Settings, World, Summary, meet}
use ubd_probe.Discover.Harvest.Pages.{is_editorial_page, is_news_portal_page, process_page}

pub record WalkPlan : Type 0 where
  pub urls : List Text
  pub foreign : Bool

-- The components around the pages. A walk answers none where it raises. `fetchers` tells which types have a fetcher; `media_blocker` is
-- none where none is wired in, and otherwise tells whether the backend takes the block of a host.
pub record Net : Type 0 where
  pub fetchers : SourceType → Bool
  pub fetch : SourceType → Text → Option (List RawItem)
  pub is_non_ukrainian : Text → Bool
  pub walker : Option (SourceCandidate → Option WalkPlan)
  pub seed_is_target : Text → Bool
  pub media_blocker : Option (Text → Bool)

abbrev one_page : Text → WalkPlan
one_page url = record { urls = url ∷ []; foreign = false }

-- `_plan`, without the domain and the delay, which only the waits read
unfoldable pub plan : Net → SourceCandidate → Option WalkPlan
plan net cand =
    let bare : WalkPlan =
      if is_website cand && not (net.seed_is_target cand.url_or_handle)
      then record { urls = []; foreign = false }
      else one_page cand.url_or_handle in
    elim net.walker [
      | none ↦ some bare
      | some walk ↦ if is_website cand then walk cand else some bare
    ]

-- `self._lang_block_store.add(…)`, when there is a store
unfoldable pub pin_lang : Text → World → World
unfolding add_lang
pin_lang url world = elim world.lang_hosts [
  | none ↦ world
  | some hosts ↦
      let stores = world.stores in
      let added = add_lang url hosts stores.blocks in
      record world { lang_hosts = some added.0; stores = record stores { blocks = added.1 } }
]

-- The block of a host, and its mark in the registry once the backend has taken it.
unfoldable pub block_host : Net → Text → Registry → World → World
unfolding block_media mark_media_blocked
block_host net host r world =
    let stores = world.stores in
    elim net.media_blocker [
      | none ↦ world
      | some accepts ↦
          let blocked = block_media (accepts host) host stores.blocks in
          if blocked.0
          then record world {
            stores = record stores {
              blocks = blocked.1;
              registry = some (mark_media_blocked host r);
            };
          }
          else world
    ]

-- A page of a news portal: the host is blocked, unless the registry knows it as a provider.
unfoldable pub block_portal : Net → SourceCandidate → List RawItem → World → World
unfolding is_news_portal_page editorial_block_due block_host bare_host
block_portal net cand items world =
    let stores = world.stores in
    let host = bare_host cand.url_or_handle in
    elim stores.registry [
      | none ↦ world
      | some r ↦
          if is_news_portal_page items && editorial_block_due host r
          then block_host net host r world
          else world
    ]

abbrev pub one_error : Summary → Summary
one_error summary = record summary { errors = suc summary.errors }

abbrev pub texts : List RawItem → List Text
texts items = map (λ it. it.text) items

-- A page ends the walk, or the walk goes on.
pub data Visit : Type 0 where
  leaves : World → Visit
  goes_on : Bool → World → Summary → Visit

module _ (net : Net) (parts : Parts) (settings : Settings) where
  -- One page of a candidate; a page that raises is an error, and the next one follows.
  unfoldable pub visit : SourceCandidate → Text → Bool → World → Summary → Visit
  unfolding meet is_editorial_page block_portal process_page pin_lang join
  visit cand url structural before summary =
      let world = meet parts before in
      elim (net.fetch cand.type url) [
        | none ↦ goes_on structural world (one_error summary)
        | some items ↦
            let page = process_page parts settings cand items world summary in
            let p = page.1 in
            if net.is_non_ukrainian (join (codes " ") (texts items))
            then leaves (pin_lang cand.url_or_handle world)
            else if settings.editorial_gate_enabled && not structural && is_editorial_page items
            then leaves (block_portal net cand items world)
            else if p.raised
            then goes_on structural p.world (one_error p.summary)
            else goes_on (structural || page.0) p.world p.summary
      ]

  -- The pages of a candidate, in order.
  unfoldable pub walk_pages :
      SourceCandidate → List Text → Bool → World → Summary → Bool × World × Summary
  unfolding visit
  walk_pages cand [] structural world summary = (structural, world, summary)
  walk_pages cand (url ∷ urls) structural world summary =
      elim (visit cand url structural world summary) [
        | leaves left ↦ (structural, left, summary)
        | goes_on shown next counted ↦ walk_pages cand urls shown next counted
      ]

  -- `_harvest_one` with the handler around its call: a walk that raises is an error.
  unfoldable pub harvest_one : SourceCandidate → World → Bool × World × Summary
  unfolding plan pin_lang walk_pages
  harvest_one cand world =
      let zero_summary : Summary = record { offers = 0; suggestions = 0; errors = 0 } in
      elim (plan net cand) [
        | none ↦ (false, world, one_error zero_summary)
        | some walk ↦
            if walk.foreign
            then (false, pin_lang cand.url_or_handle world, zero_summary)
            else walk_pages cand walk.urls false world zero_summary
      ]

  -- What the registry learns from a website's harvest, and the block of a host that behaves as a
  -- medium.
  unfoldable pub note_crawl : SourceCandidate → ℕ → Bool → Summary → World → World
  unfolding record_crawl media_block_due block_host bare_host
  note_crawl cand now structural summary world =
      let stores = world.stores in
      let host = bare_host cand.url_or_handle in
      elim stores.registry [
        | none ↦ world
        | some r ↦
            let next = record_crawl host summary.offers summary.errors structural now r in
            let noted : World = record world { stores = record stores { registry = some next } } in
            if not (is_website cand)
            then world
            else if media_block_due host settings.media_autoblock_crawls next
            then block_host net host next noted
            else noted
      ]

  -- `run_one`: the gates that the pass itself may have closed by now are asked once more.
  unfoldable pub run_one : ℕ → SourceCandidate → World → World × Summary
  unfolding meet is_blocked_host contains list_beq normalize_ref harvest_one note_crawl
  run_one now cand before =
      let world = meet parts before in
      let stores = world.stores in
      let zero_summary : Summary = record { offers = 0; suggestions = 0; errors = 0 } in
      let done = harvest_one cand world in
      if (is_website cand && is_blocked_host stores.blocks cand.url_or_handle)
        || contains world.known (normalize_ref cand.type cand.url_or_handle)
        || not (net.fetchers cand.type)
      then (world, zero_summary)
      else (note_crawl cand now done.0 done.2 (meet parts done.1), done.2)

  abbrev pub merged : Summary → Summary → Summary
  merged a b = record {
    offers = a.offers + b.offers;
    suggestions = a.suggestions + b.suggestions;
    errors = a.errors + b.errors;
  }

  -- The candidates that one worker takes, with the time at which each is done.
  unfoldable pub work : List (ℕ × SourceCandidate) → World → Summary → World × Summary
  unfolding run_one
  work [] world summary = (world, summary)
  work ((now, cand) ∷ rest) world summary =
      let one = run_one now cand world in work rest one.0 (merged summary one.1)

-- What the pool gives to one worker, and what the others do while it works.
pub record Share : Type 0 where
  pub others : ℕ → Meanwhile
  pub order : List (ℕ × SourceCandidate)

module _ (net : Net) (parts : Parts) (settings : Settings) where
  -- A worker begins with nothing submitted.
  unfoldable pub run_share : Share → World → World × Summary
  unfolding work
  run_share share world =
      let own : Parts = record parts { others = share.others } in
      work net own settings share.order (record world { moment = 0; offers = []; suggestions = [] })
        (record { offers = 0; suggestions = 0; errors = 0 })

  -- `_execute`: the pool, with the worlds of its workers. The sums of a summary do not depend on the
  -- order in which the candidates are done.
  unfoldable pub execute : List Share → World → Summary → List World × Summary
  unfolding run_share
  execute [] world summary = ([], summary)
  execute (share ∷ shares) world summary =
      let one = run_share share world in
      let rest = execute shares world (merged net parts settings summary one.1) in
      (one.0 ∷ rest.0, rest.1)
