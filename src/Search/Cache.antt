-- ===== src/Search/Cache.antt =====
-- The keyword cache of `SearchState` (`is_fresh`, `cache_get`, `cache_put`, `mark_harvested`,
-- `unharvested`) and its decorator `SearchCache` of providers.py.
pub mod Laws
use ubd_probe.Prelude.{
  ℕ, ◌+◌, ◌-◌, Bool, true, false, ◌&&◌, ◌||◌, not, Option, none, some, List, [], ◌∷◌, ltb, leb,
  ◌==◌, nat_eq, list_eq, contains, map, if◌then◌else◌,
}
use ubd_probe.Prelude.Dict.{Dict, lookup, insert}
use ubd_probe.Prelude.Text.{Text}
use ubd_probe.Search.State.{Candidate, CacheEntry, SearchData, SearchState, commit, key}
use ubd_probe.Search.Backends.{in_global_backoff}

-- `now - ts < ttl`, also for an entry from the future.
unfoldable pub within_ttl : ℕ → ℕ → ℕ → Bool
within_ttl ttl now ts = ltb now (ts + ttl)

unfoldable pub cache_entry : Text → ℕ → SearchState → Option CacheEntry
unfolding lookup
cache_entry keyword page s = lookup (key keyword page) s.state.cache

unfoldable pub is_fresh : Text → ℕ → ℕ → ℕ → SearchState → Bool
unfolding cache_entry within_ttl
is_fresh keyword ttl page now s = elim (cache_entry keyword page s) [
  | none ↦ false
  | some e ↦ within_ttl ttl now e.ts
]

unfoldable pub cache_get : Text → ℕ → ℕ → ℕ → SearchState → Option (List Candidate)
unfolding cache_entry within_ttl
cache_get keyword ttl page now s = elim (cache_entry keyword page s) [
  | none ↦ none
  | some e ↦ if within_ttl ttl now e.ts then some e.candidates else none
]

unfoldable pub cache_put : Text → List Candidate → ℕ → ℕ → SearchState → SearchState
unfolding insert
cache_put keyword candidates page now s =
    let entry : CacheEntry = record { ts = now; harvested = false; candidates = candidates } in
    commit (record s.state { cache = insert (key keyword page) entry s.state.cache }) s

-- One round of the loop of `mark_harvested`; the flag is `touched`.
unfoldable pub mark_one : Text → Dict Text CacheEntry × Bool → Dict Text CacheEntry × Bool
unfolding lookup insert
mark_one k (cache, touched) = elim (lookup k cache) [
  | none ↦ (cache, touched)
  | some e ↦
      if e.harvested
      then (cache, touched)
      else (insert k (record e { harvested = true }) cache, true)
]

unfoldable pub mark_all : List Text → Dict Text CacheEntry × Bool → Dict Text CacheEntry × Bool
unfolding mark_one
mark_all [] acc = acc
mark_all (keyword ∷ keywords) acc = mark_all keywords (mark_one (key keyword 1) acc)

unfoldable pub mark_harvested : List Text → SearchState → SearchState
unfolding mark_all
mark_harvested keywords s =
    let (cache, touched) = mark_all keywords (s.state.cache, false) in
    if touched then commit (record s.state { cache = cache }) s else s

-- A row of `unharvested`: the entry's time, its key and its candidates.
pub record Row : Type 0 where
  pub ts : ℕ
  pub origin_key : Text
  pub candidates : List Candidate

unfoldable pub is_waiting : ℕ → ℕ → CacheEntry → Bool
unfolding within_ttl
is_waiting ttl now e = not e.harvested && within_ttl ttl now e.ts

unfoldable pub rows : ℕ → ℕ → Dict Text CacheEntry → List Row
unfolding is_waiting
rows ttl now [] = []
rows ttl now ((k, e) ∷ cache) =
    let rest = rows ttl now cache in
    if is_waiting ttl now e
    then record { ts = e.ts; origin_key = k; candidates = e.candidates } ∷ rest
    else rest

-- Python's sort is stable: a row goes in front of the rows that are not older.
unfoldable pub insert_row : Row → List Row → List Row
insert_row r [] = r ∷ []
insert_row r (x ∷ xs) = let rest = insert_row r xs in if leb r.ts x.ts then r ∷ x ∷ xs else x ∷ rest

unfoldable pub sort_rows : List Row → List Row
unfolding insert_row
sort_rows [] = []
sort_rows (r ∷ rs) = insert_row r (sort_rows rs)

unfoldable pub unharvested : ℕ → ℕ → SearchState → List Row
unfolding rows sort_rows
unharvested ttl now s = sort_rows (rows ttl now s.state.cache)

-- What a call of the inner provider leaves behind.
pub record Inner : Type 0 where
  pub found : List Candidate
  pub served : Bool
  pub state : SearchState
  pub now : ℕ

-- `SearchCache.__call__`: the value, `last_served`, the state, and whether the network was used.
pub record Cached : Type 0 where
  pub found : List Candidate
  pub served : Bool
  pub state : SearchState
  pub network : Bool

unfoldable pub after_inner : Text → ℕ → Inner → Cached
unfolding in_global_backoff cache_put
after_inner keyword page o =
    if in_global_backoff o.now o.state || o.state.degraded
    then record { found = []; served = o.served; state = o.state; network = true }
    else record {
      found = o.found;
      served = o.served;
      state = cache_put keyword o.found page o.now o.state;
      network = true;
    }

unfoldable pub cached_call : (SearchState → ℕ → Inner) → Text → ℕ → ℕ → SearchState → ℕ → Cached
unfolding cache_get in_global_backoff after_inner
cached_call inner keyword ttl page s now = elim (cache_get keyword ttl page now s) [
  | some found ↦ record { found = found; served = true; state = s; network = false }
  | none ↦
      if in_global_backoff now s
      then record { found = []; served = false; state = s; network = false }
      else after_inner keyword page (inner s now)
]
