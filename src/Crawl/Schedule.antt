-- ===== src/Crawl/Schedule.antt =====
-- `step` of crawler/crawler/scheduler.py with `PassiveSchedule` of crawler/crawler/schedule.py. The
-- passes that the runner is asked for are recorded, up to one that raises. Times are microseconds, `hard_factor` is in millionths.
pub mod Laws
pub mod Loop
pub mod Paced
use ubd_probe.Prelude.{
  ℕ, ◌+◌, ◌-◌, ◌*◌, ◌≤◌, ◌≡◌, refl, ◌⊎◌, inl, inr, min, max, Bool, true, false, ◌&&◌, ◌||◌, not,
  Option, none, some, List, [], ◌∷◌, ◌++◌, leb, ltb, any, is_some, if◌then◌else◌, arith,
  Option-cases, Bool-cases,
}
use ubd_probe.Search.State.{SearchState}
use ubd_probe.Search.Backends.{unit, in_global_backoff, seconds_until_allowed}

-- `run_active(ddg_allowed=True)`, `run_active(ddg_allowed=False)`, `run_passive()`
pub data Pass : Type 0 where
  active_full active_degraded passive : Pass

-- `PassiveSchedule`: the interval and what the file holds
pub record Passive : Type 0 where
  pub interval : ℕ
  pub last_passive_at : Option ℕ

unfoldable pub due : ℕ → Passive → Bool
due now p = elim p.last_passive_at [ none ↦ true | some last ↦ leb (last + p.interval) now ]

unfoldable pub overdue : ℕ → ℕ → Passive → Bool
overdue hard_factor now p = elim p.last_passive_at [
  | none ↦ false
  | some last ↦ leb (last * unit + p.interval * hard_factor) (now * unit)
]

-- `mark`; a file that cannot be written is left as it is.
unfoldable pub mark_passive : Bool → ℕ → Passive → Passive
mark_passive writable now p = if writable then record p { last_passive_at = some now } else p

-- `MIN_ACTIVE_DELAY`
abbrev pub min_active_delay : ℕ
min_active_delay = 5000000

-- What a step has run, how long it tells to sleep, none where a pass raises out of it, and the schedule.
pub record Stepped : Type 0 where
  pub passes : List Pass
  pub sleep : Option ℕ
  pub schedule : Option Passive

-- The arguments of `step`, `search_available()` among them, if it is given; `raises` tells which passes
-- of the runner raise.
pub record Scheduler : Type 0 where
  pub active_delay : ℕ
  pub backoff_max_sleep : ℕ
  pub hard_factor : ℕ
  pub search_available : Option Bool
  pub writable : Bool
  pub raises : Pass → Bool

unfoldable pub backed_off : Scheduler → Option SearchState → ℕ → Bool
unfolding in_global_backoff
backed_off c state now = elim c.search_available [
  | some available ↦ not available
  | none ↦ elim state [ none ↦ false | some s ↦ in_global_backoff now s ]
]

-- The passes up to the first one that raises.
unfoldable pub until_raised : (Pass → Bool) → List Pass → List Pass
until_raised raises [] = []
until_raised raises (p ∷ passes) =
    let rest = until_raised raises passes in p ∷ (if raises p then [] else rest)

-- The passes of a branch in their order, with what follows them: a pass that raises ends the step
-- before the next pass, the mark and the sleep.
unfoldable pub attempt : Scheduler → List Pass → ℕ → Option Passive → Option Passive → Stepped
unfolding until_raised any
attempt c passes sleep schedule marked =
    let raised = any c.raises passes in
    record {
      passes = until_raised c.raises passes;
      sleep = if raised then none else some sleep;
      schedule = if raised then schedule else marked;
    }

unfoldable pub degraded_step : Scheduler → SearchState → Option Passive → ℕ → Stepped
unfolding due mark_passive seconds_until_allowed attempt
degraded_step c s schedule now =
    let sleep = min (seconds_until_allowed now s) c.backoff_max_sleep in
    elim schedule [
      | none ↦ attempt c (active_degraded ∷ passive ∷ []) sleep none none
      | some p ↦
          if due now p
          then attempt c (active_degraded ∷ passive ∷ []) sleep (some p)
              (some (mark_passive c.writable now p))
          else attempt c (active_degraded ∷ []) sleep (some p) (some p)
    ]

unfoldable pub full_step : Scheduler → Option Passive → ℕ → Stepped
unfolding overdue mark_passive attempt
full_step c schedule now =
    let sleep = max c.active_delay min_active_delay in
    elim schedule [
      | none ↦ attempt c (active_full ∷ []) sleep none none
      | some p ↦
          if overdue c.hard_factor now p
          then attempt c (passive ∷ []) sleep (some p) (some (mark_passive c.writable now p))
          else attempt c (active_full ∷ []) sleep (some p) (some p)
    ]

unfoldable pub step : Scheduler → Option SearchState → Option Passive → ℕ → Stepped
unfolding backed_off degraded_step full_step
step c none schedule now = full_step c schedule now
step c (some s) schedule now =
    if backed_off c (some s) now then degraded_step c s schedule now else full_step c schedule now

abbrev pub is_passive : Pass → Bool
is_passive passive = true
is_passive active_full = false
is_passive active_degraded = false

abbrev pub uses_search : Pass → Bool
uses_search active_full = true
uses_search active_degraded = false
uses_search passive = false
