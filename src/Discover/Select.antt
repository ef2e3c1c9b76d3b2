-- ===== src/Discover/Select.antt =====
-- `ActiveHarvester._select_fetch_set` of crawler/crawler/discovery/harvest.py: the candidates of a
-- pass that are fetched. `clock` gives the time at which a candidate is considered.

pub mod Laws
pub mod Fit
pub mod Spread
use ubd_probe.Prelude.{
  ℕ, suc, ◌+◌, leb, ltb, Bool, true, false, ◌&&◌, ◌||◌, not, Option, none, some, List, [], ◌∷◌,
  ◌++◌, contains, null, ◌==◌, nat_eq, list_eq, list_beq, if◌then◌else◌,
}
use ubd_probe.Prelude.Text.{Text}
use ubd_probe.Hosts.{bare_host, is_foreign_host, is_ru_by_geo}
use ubd_probe.Hosts.Quality.{is_low_value_host, is_news_host}
use ubd_probe.Search.Classify.{SourceType, website, telegram}
use ubd_probe.Crawl.Registry.{Registry, take_skip, seen_within}
use ubd_probe.Discover.Types.{type_eq, SourceCandidate}
use ubd_probe.Discover.Ref.{normalize_ref}
use ubd_probe.Discover.Blocklist.{Blocks, is_blocked_host, add_geo}

-- What the harvester is made with, and what a pass knows already. `fetchers` tells which types have
-- a fetcher.
pub record Gates : Type 0 where
  pub budget : ℕ
  pub revisit_cooldown : ℕ
  pub fetchers : SourceType → Bool
  pub known : List Text
  pub known_hosts : List Text

-- The stores that the scan reads and changes; the registry and the geo store may be missing.
pub record Stores : Type 0 where
  pub registry : Option Registry
  pub geo_hosts : Option (List Text)
  pub blocks : Blocks

pub record Scan : Type 0 where
  pub used : ℕ
  pub stop : ℕ
  pub selected : List SourceCandidate
  pub selected_hosts : List Text
  pub stores : Stores

abbrev pub is_website : SourceCandidate → Bool
is_website c = c.type == website

-- `cand.type in _FETCHABLE`
abbrev pub is_fetchable : SourceCandidate → Bool
is_fetchable c = c.type == website || c.type == telegram

-- The gates that read the address alone.
unfoldable pub is_barred : Blocks → SourceCandidate → Bool
unfolding is_foreign_host is_low_value_host is_news_host is_blocked_host
is_barred blocks c =
    is_website c
    && (is_foreign_host c.url_or_handle
        || is_low_value_host c.url_or_handle
        || is_news_host c.url_or_handle
        || is_blocked_host blocks c.url_or_handle)

-- `self._geo_block_store.add(…)`, when there is a store
unfoldable pub pin_geo : Text → Stores → Stores
unfolding add_geo
pin_geo url stores = elim stores.geo_hosts [
  | none ↦ stores
  | some hosts ↦
      let added = add_geo url hosts stores.blocks in
      record stores { geo_hosts = some added.0; blocks = added.1 }
]

-- `self._registry.take_skip(host)`, when there is a registry
unfoldable pub skip_of : SourceCandidate → Stores → Bool × Stores
unfolding take_skip bare_host
skip_of c stores = elim stores.registry [
  | none ↦ (false, stores)
  | some r ↦
      let taken = take_skip (bare_host c.url_or_handle) r in
      if is_website c then (taken.0, record stores { registry = some taken.1 }) else (false, stores)
]

-- A host that was crawled a short time ago, or is selected in this pass.
unfoldable pub is_revisit : ℕ → ℕ → List Text → SourceCandidate → Stores → Bool
unfolding seen_within bare_host contains list_beq
is_revisit now cooldown selected_hosts c stores = elim stores.registry [
  | none ↦ false
  | some r ↦
      is_website c
      && not (cooldown == 0)
      && (seen_within (bare_host c.url_or_handle) cooldown now r
          || contains selected_hosts (bare_host c.url_or_handle))
]

-- The gates behind the cooldown of empty passes.
unfoldable pub is_wanted : Gates → ℕ → List Text → SourceCandidate → Stores → Bool
unfolding is_revisit contains list_beq normalize_ref bare_host
is_wanted g now selected_hosts c stores =
    not (is_revisit now g.revisit_cooldown selected_hosts c stores)
    && not (contains g.known (normalize_ref c.type c.url_or_handle))
    && not (
        is_website c
        && not c.bypass_host_skip
        && not (null (bare_host c.url_or_handle))
        && contains g.known_hosts (bare_host c.url_or_handle))
    && g.fetchers c.type

unfoldable pub select : SourceCandidate → Scan → Scan
unfolding bare_host
select c scan = record scan {
  used = suc scan.used;
  selected = scan.selected ++ (c ∷ []);
  selected_hosts =
      if is_website c && not (null (bare_host c.url_or_handle))
      then bare_host c.url_or_handle ∷ scan.selected_hosts
      else scan.selected_hosts;
}

-- One candidate, with the budget still open.
unfoldable pub consider : Gates → ℕ → SourceCandidate → Scan → Scan
unfolding is_ru_by_geo pin_geo is_barred skip_of is_wanted select
consider g now c scan =
    let seen : Scan = record scan { stop = suc scan.stop } in
    let skip = skip_of c scan.stores in
    let past : Scan = record seen { stores = skip.1 } in
    if not (is_fetchable c)
    then seen
    else if is_website c && is_ru_by_geo c.url_or_handle
    then record seen { stores = pin_geo c.url_or_handle scan.stores }
    else if is_barred scan.stores.blocks c
    then seen
    else if skip.0 || not (is_wanted g now scan.selected_hosts c skip.1)
    then past
    else select c past

-- The loop: `idx` is the number of candidates considered, and the break leaves it as the stop.
unfoldable pub scan_all : Gates → (ℕ → ℕ) → List SourceCandidate → Scan → Scan
unfolding consider
scan_all g clock [] scan = scan
scan_all g clock (c ∷ rest) scan =
    let next = scan_all g clock rest (consider g (clock scan.stop) c scan) in
    if leb g.budget scan.used then scan else next

abbrev pub start_scan : Stores → Scan
start_scan stores = record {
  used = 0;
  stop = 0;
  selected = [];
  selected_hosts = [];
  stores = stores;
}

unfoldable pub select_fetch_set : Gates → (ℕ → ℕ) → Stores → List SourceCandidate → Scan
unfolding scan_all
select_fetch_set g clock stores candidates = scan_all g clock candidates (start_scan stores)
