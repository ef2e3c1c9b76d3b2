-- ===== src/Search/Rotation.antt =====
-- `RotatingDdgProvider` of crawler/crawler/discovery/providers.py. The search service answers each
-- attempt of a call; the clock moves by what the provider sleeps and by what the service takes.
pub mod Laws
pub mod Recovery
use ubd_probe.Prelude.{
  ℕ, zero, suc, ◌+◌, ◌-◌, ◌*◌, ◌/◌, ◌%◌, min, max, Bool, true, false, ◌&&◌, ◌||◌, not, Option, none,
  some, List, [], ◌∷◌, ◌++◌, length, get_elem?, count_if, ltb, leb, ◌==◌, nat_eq, if◌then◌else◌,
  is_some,
}
use ubd_probe.Prelude.Text.{Text}
use ubd_probe.Search.State.{SearchState, set_cursor, mark_degraded, clear_degraded}
use ubd_probe.Search.Classify.{SourceType, classify_candidate}
use ubd_probe.Search.Backends.{
  unit, is_healthy, record_success, BlockPolicy, record_block, is_quarantined, reprobe_due,
  soonest_recovery, in_global_backoff, set_global_backoff,
}

-- What the provider is configured with; times in microseconds, `jitter` in millionths.
pub record Rotation : Type 0 where
  pub pool : List Text
  pub delay : ℕ
  pub policy : BlockPolicy
  pub backoff_floor : ℕ

-- One row of a search result.
pub record Hit : Type 0 where
  pub title : Option Text
  pub href : Text

-- An answer of the service: rows, "No results found.", or any other exception.
pub data Reply : Type 0 where
  results : List Hit → Reply
  no_results : Reply
  failure : Reply

-- One attempt: the answer, the time that it took, and the random numbers that it drew.
pub record Attempt : Type 0 where
  pub reply : Reply
  pub elapsed : ℕ
  pub rand_delay : ℕ
  pub rand_block : ℕ

-- A `SourceCandidate` that a search has found.
pub record Found : Type 0 where
  pub name : Text
  pub type : SourceType
  pub url_or_handle : Text
  pub backend : Text

unfoldable pub selectable : Text → ℕ → SearchState → Bool
unfolding reprobe_due is_quarantined is_healthy
selectable name now s =
    if reprobe_due name now s
    then true
    else if is_quarantined name now s
    then false
    else is_healthy name now s

-- The loop of `_take_next_healthy` with `fuel` offsets left; the backend and the next cursor.
unfoldable pub next_from : List Text → ℕ → ℕ → ℕ → SearchState → Option (Text × ℕ)
unfolding selectable
next_from pool zero idx now s = none
next_from pool (suc fuel) idx now s =
    let next = suc idx % length pool in
    elim (get_elem? pool idx) [
      | none ↦ none
      | some name ↦
          let rest = next_from pool fuel next now s in
          if selectable name now s then some (name, next) else rest
    ]

unfoldable pub take_next_healthy : List Text → ℕ → SearchState → Option (Text × SearchState)
unfolding next_from set_cursor
take_next_healthy pool now s =
    if length pool == 0
    then none
    else elim (next_from pool (length pool) (s.state.cursor % length pool) now s) [
      | none ↦ none
      | some (name, next) ↦ some (name, set_cursor next s)
    ]

unfoldable pub adaptive_delay : Rotation → ℕ → SearchState → ℕ
unfolding selectable count_if
adaptive_delay r now s =
    let healthy = count_if (λ name. selectable name now s) r.pool in
    if healthy == 0 then r.delay else r.delay * length r.pool / healthy

-- `self._sleep(self._adaptive_delay() * (1 + self._rand() * self._jitter))`
unfoldable pub pause : Rotation → Attempt → ℕ → SearchState → ℕ
unfolding adaptive_delay
pause r a now s =
    adaptive_delay r now s * (unit * unit + a.rand_delay * r.policy.jitter) / (unit * unit)

abbrev title_or : Option Text → Text → Text
title_or none url = url
title_or (some []) url = url
title_or (some (c ∷ t)) url = c ∷ t

unfoldable pub classify : Text → List Hit → List Found
unfolding classify_candidate
classify backend [] = []
classify backend (h ∷ hits) =
    let rest = classify backend hits in
    elim (classify_candidate h.href) [
      | none ↦ rest
      | some (type, url) ↦
          record {
            name = title_or h.title url;
            type = type;
            url_or_handle = url;
            backend = backend;
          }
          ∷ rest
    ]

-- How a call ends: its value, `last_served`, the state, the time, and the backends it asked.
pub record Outcome : Type 0 where
  pub found : List Found
  pub served : Bool
  pub state : SearchState
  pub now : ℕ
  pub asked : List Text

abbrev pub stop : Bool → SearchState → ℕ → List Text → Outcome
stop served s now asked = record {
  found = [];
  served = served;
  state = mark_degraded s;
  now = now;
  asked = asked;
}

-- The loop over the attempts; one round for each.
unfoldable pub try_backends : Rotation → List Attempt → Bool → SearchState → ℕ → List Text → Outcome
unfolding take_next_healthy pause classify record_success record_block soonest_recovery
    set_global_backoff mark_degraded
try_backends r [] served s now asked = stop served s now asked
try_backends r (a ∷ attempts) served s now asked = elim (take_next_healthy r.pool now s) [
  | none ↦
      let wait = soonest_recovery r.pool r.backoff_floor now s in
      stop served (set_global_backoff wait now s) now asked
  | some (name, s') ↦
      let now' = now + pause r a now s' + a.elapsed in
      let asked' = asked ++ (name ∷ []) in
      elim a.reply [
        | results hits ↦ record {
          found = classify name hits;
          served = true;
          state = record_success name s';
          now = now';
          asked = asked';
        }
        | no_results ↦ try_backends r attempts true (record_success name s') now' asked'
        | failure ↦
            try_backends r attempts served (record_block r.policy a.rand_block name now' s') now'
              asked'
      ]
]

-- `__call__`: at most two attempts, none of them in the global backoff.
unfoldable pub call : Rotation → Attempt → Attempt → SearchState → ℕ → Outcome
unfolding try_backends in_global_backoff clear_degraded mark_degraded
call r first second s now =
    let s' = clear_degraded s in
    if in_global_backoff now s'
    then stop false s' now []
    else try_backends r (first ∷ second ∷ []) false s' now []
