-- ===== src/Crawl/Schedule/Laws.antt =====
-- What a step of the scheduler promises.
use native.Mathlib.Nat.{mul-le-mul_left}
use ubd_probe.Prelude.{
  ℕ, min, max, ◌+◌, ◌*◌, ◌≤◌, ◌≡◌, refl, ◌⊎◌, inl, inr, Bool, true, false, Option, none, some, List,
  [], ◌∷◌, any, arith, Option-cases, Bool-cases,
}
use ubd_probe.Search.State.{SearchState}
use ubd_probe.Search.Backends.{unit, seconds_until_allowed}
use ubd_probe.Crawl.Schedule.{
  mark_passive, Pass, active_full, active_degraded, passive, Stepped, until_raised, attempt,
  Passive, due, overdue, min_active_delay, Scheduler, backed_off, degraded_step, full_step, step,
  is_passive, uses_search,
}

overdue-due :
    (hard_factor now : ℕ) (p : Passive)
    → unit ≤ hard_factor
    → overdue hard_factor now p ≡ true
    → due now p ≡ true
unfolding overdue due
overdue-due hard_factor now p factor late = elim (Option-cases p.last_passive_at) [
  | inl never ↦ absurd (ground arith)
  | inr (last, e) ↦
      let bound : last * unit + p.interval * hard_factor ≤ now * unit = ground arith in
      let grown : p.interval * unit ≤ p.interval * hard_factor =
        mul-le-mul_left p.interval factor in
      let le : last + p.interval ≤ now = omega (arith, bound, grown) in ground arith
]

-- Once the passive pass is overdue by a factor of at least 1, the next step runs it, unless the search
-- is backed off and the active pass before it raises, which ends the step with nothing marked.
pub step-overdue :
    (c : Scheduler) (state : Option SearchState) (p : Passive) (now : ℕ)
    → unit ≤ c.hard_factor
    → overdue c.hard_factor now p ≡ true
    → let o = step c state (some p) now in
      (any is_passive o.passes ≡ true)
      ⊎ ((backed_off c state now ≡ true)
          × (c.raises active_degraded ≡ true)
          × (o ≡ record { passes = active_degraded ∷ []; sleep = none; schedule = some p }))
unfolding step degraded_step full_step attempt until_raised any
step-overdue c none p now factor late = rw late (inl refl)
step-overdue c (some s) p now factor late =
    let soon = overdue-due c.hard_factor now p factor late in
    elim (Bool-cases (backed_off c (some s) now)) [
      | inl off ↦ elim (Bool-cases (c.raises active_degraded)) [
        | inl raised ↦ rw (off, soon, raised) (inr (refl, refl, refl))
        | inr fine ↦ rw (off, soon, fine) (inl refl)
      ]
      | inr on ↦ rw (on, late) (inl refl)
    ]

-- A pass of the step raises and it tells no sleep, or it tells a sleep that is as wanted.
abbrev pub Sleeps : Scheduler → (ℕ → Type 0) → Stepped → Type 0
Sleeps c P o =
    ((o.sleep ≡ none) × (any c.raises o.passes ≡ true)) ⊎ ((n : ℕ) × (o.sleep ≡ some n) × P n)

until_raised-any :
    (raises : Pass → Bool) (passes : List Pass)
    → any raises passes ≡ true
    → any raises (until_raised raises passes) ≡ true
unfolding until_raised any
until_raised-any raises [] h = h
until_raised-any raises (p ∷ passes) h = elim (Bool-cases (raises p)) [
  | inl raised ↦ rw raised refl
  | inr fine ↦ rw fine (until_raised-any raises passes (ground arith))
]

until_raised-quiet :
    (raises : Pass → Bool) (passes : List Pass)
    → any uses_search passes ≡ false
    → any uses_search (until_raised raises passes) ≡ false
unfolding until_raised any
until_raised-quiet raises [] h = refl
until_raised-quiet raises (p ∷ passes) h =
    let rest = until_raised-quiet raises passes (ground arith) in
    elim (Bool-cases (raises p)) [
      | inl raised ↦ rw raised (ground arith)
      | inr fine ↦ rw fine (ground arith)
    ]

attempt-quiet :
    (c : Scheduler) (passes : List Pass) (sleep : ℕ) (schedule marked : Option Passive)
    → any uses_search passes ≡ false
    → any uses_search (attempt c passes sleep schedule marked).passes ≡ false
unfolding attempt
attempt-quiet c passes sleep schedule marked h = until_raised-quiet c.raises passes h

attempt-Sleeps :
    (P : ℕ → Type 0) (c : Scheduler) (passes : List Pass) (sleep : ℕ)
    (schedule marked : Option Passive)
    → P sleep
    → Sleeps c P (attempt c passes sleep schedule marked)
unfolding attempt
attempt-Sleeps P c passes sleep schedule marked h = elim (Bool-cases (any c.raises passes)) [
  | inl raised ↦ inl (rw raised refl, until_raised-any c.raises passes raised)
  | inr fine ↦ inr (sleep, rw fine refl, h)
]

abbrev degraded_sleep : Scheduler → SearchState → ℕ → ℕ
degraded_sleep c s now = min (seconds_until_allowed now s) c.backoff_max_sleep

abbrev full_sleep : Scheduler → ℕ
full_sleep c = max c.active_delay min_active_delay

capped : (c : Scheduler) (s : SearchState) (now : ℕ) → degraded_sleep c s now ≤ c.backoff_max_sleep
capped c s now = omega arith

floored : (c : Scheduler) → min_active_delay ≤ full_sleep c
floored c = omega arith

degraded_step-quiet :
    (c : Scheduler) (s : SearchState) (schedule : Option Passive) (now : ℕ)
    → any uses_search (degraded_step c s schedule now).passes ≡ false
unfolding degraded_step any
degraded_step-quiet c s none now =
    attempt-quiet c (active_degraded ∷ passive ∷ []) (degraded_sleep c s now) none none refl
degraded_step-quiet c s (some p) now = elim (Bool-cases (due now p)) [
  | inl soon ↦ rw soon (
      attempt-quiet c (active_degraded ∷ passive ∷ []) (degraded_sleep c s now) (some p)
        (some (mark_passive c.writable now p)) refl)
  | inr early ↦
      rw early
        (attempt-quiet c (active_degraded ∷ []) (degraded_sleep c s now) (some p) (some p) refl)
]

degraded_step-Sleeps :
    (c : Scheduler) (s : SearchState) (schedule : Option Passive) (now : ℕ)
    → Sleeps c (λ n. n ≤ c.backoff_max_sleep) (degraded_step c s schedule now)
unfolding degraded_step
degraded_step-Sleeps c s none now =
    attempt-Sleeps (λ n. n ≤ c.backoff_max_sleep) c (active_degraded ∷ passive ∷ [])
      (degraded_sleep c s now) none none (capped c s now)
degraded_step-Sleeps c s (some p) now = elim (Bool-cases (due now p)) [
  | inl soon ↦ rw soon (
      attempt-Sleeps (λ n. n ≤ c.backoff_max_sleep) c (active_degraded ∷ passive ∷ [])
        (degraded_sleep c s now) (some p) (some (mark_passive c.writable now p)) (capped c s now))
  | inr early ↦ rw early (
      attempt-Sleeps (λ n. n ≤ c.backoff_max_sleep) c (active_degraded ∷ [])
        (degraded_sleep c s now) (some p) (some p) (capped c s now))
]

full_step-Sleeps :
    (c : Scheduler) (schedule : Option Passive) (now : ℕ)
    → Sleeps c (λ n. min_active_delay ≤ n) (full_step c schedule now)
unfolding full_step
full_step-Sleeps c none now =
    attempt-Sleeps (λ n. min_active_delay ≤ n) c (active_full ∷ []) (full_sleep c) none none
      (floored c)
full_step-Sleeps c (some p) now = elim (Bool-cases (overdue c.hard_factor now p)) [
  | inl late ↦ rw late (
      attempt-Sleeps (λ n. min_active_delay ≤ n) c (passive ∷ []) (full_sleep c) (some p)
        (some (mark_passive c.writable now p)) (floored c))
  | inr early ↦ rw early (
      attempt-Sleeps (λ n. min_active_delay ≤ n) c (active_full ∷ []) (full_sleep c) (some p)
        (some p) (floored c))
]

-- A step in a backed-off state never searches, whatever raises, and tells to sleep for no longer than
-- the cap; any other step tells to sleep for at least `MIN_ACTIVE_DELAY`. A step tells no sleep only
-- where a pass that it has run raises.
pub step-backed_off :
    (c : Scheduler) (s : SearchState) (schedule : Option Passive) (now : ℕ)
    → let o = step c (some s) schedule now in
      ((backed_off c (some s) now ≡ true)
        × (any uses_search o.passes ≡ false)
        × Sleeps c (λ n. n ≤ c.backoff_max_sleep) o)
      ⊎ ((backed_off c (some s) now ≡ false) × Sleeps c (λ n. min_active_delay ≤ n) o)
unfolding step
step-backed_off c s schedule now = elim (Bool-cases (backed_off c (some s) now)) [
  | inl off ↦
      rw (step, off)
        (inl (refl, degraded_step-quiet c s schedule now, degraded_step-Sleeps c s schedule now))
  | inr on ↦ rw (step, on) (inr (refl, full_step-Sleeps c schedule now))
]
