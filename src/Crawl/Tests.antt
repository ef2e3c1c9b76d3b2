-- ===== src/Crawl/Tests.antt =====
-- The theorems on the control of the crawl at concrete values.
use ubd_probe.Prelude.{
  none, length, ℕ, ◌+◌, ◌-◌, ◌≤◌, max, ◌≡◌, refl, ◌⊎◌, true, false, some, List, [], ◌∷◌, any, null,
  arith, nat_eq, list_eq, list_beq,
}
use ubd_probe.Prelude.Dict.{lookup}
use ubd_probe.Prelude.Text.{Text, codes}
use ubd_probe.Hosts.{bare_host}
use ubd_probe.Search.State.{fresh_state}
use ubd_probe.Crawl.Pace.{Limiter, Readings, IsPunctual, wait, or_zero, wait-spaced}
use ubd_probe.Crawl.Registry.{Domain, Registry, new_domain, domain_of}
use ubd_probe.Crawl.Grid.{merge_queries}
use ubd_probe.Crawl.Grid.Laws.{AreNew, merge_queries-AreNew}
use ubd_probe.Crawl.Schedule.{
  Passive, active_degraded, Scheduler, step, overdue, backed_off, is_passive, uses_search,
  min_active_delay,
}
use ubd_probe.Crawl.Schedule.Loop.{Tick, Turn, Loop, run_loop}
use ubd_probe.Crawl.Schedule.Paced.{IsPaced, IsPacedAll, run_loop-IsPacedAll}
use ubd_probe.Crawl.Schedule.Laws.{Sleeps, step-overdue, step-backed_off}

abbrev shop : Text
shop = codes "shop.ua"

abbrev limiter : Limiter
limiter = record { min_delay = 100; last = (shop, 1000) ∷ []; penalty_until = (shop, 1250) ∷ [] }

abbrev readings : Readings
readings = record { started = 1040; tested = 1200; woken = 1201 }

punctual : IsPunctual (1000 + max limiter.min_delay 150 - readings.started) readings
punctual = record { forward = omega arith; slept = omega arith }

wait-spaced_example :
    (next : ℕ) × (lookup shop (wait shop 150 readings limiter).last ≡ some next)
    × (1000 + max limiter.min_delay 150 ≤ next)
    × (or_zero (lookup shop limiter.penalty_until) ≤ next)
unfolding lookup list_beq
wait-spaced_example = wait-spaced limiter shop 150 1000 readings refl punctual

abbrev domain : Domain
domain = record (new_domain 5) { media_streak = 3; offers = 9 }

abbrev registry : Registry
registry = record {
  domains = (shop, domain) ∷ [];
  decay = 900000;
  offer_weight = 1000000;
  error_weight = 500000;
  promote_min_score = 500000;
  reject_weight = 1000000;
  empty_skip = 5;
}

named : null (bare_host shop) ≡ false
unfolding bare_host
named = refl

known : domain_of shop registry ≡ some domain
unfolding domain_of list_beq
known = refl

abbrev grid : List Text
grid = codes "a" ∷ codes "b" ∷ codes "c" ∷ []

merge_queries-AreNew_example : AreNew [] (merge_queries grid (codes " A " ∷ codes "d" ∷ []))
merge_queries-AreNew_example = merge_queries-AreNew grid (codes " A " ∷ codes "d" ∷ [])

abbrev scheduler : Scheduler
scheduler = record {
  active_delay = 1000000;
  backoff_max_sleep = 900000000;
  hard_factor = 3000000;
  search_available = some false;
  writable = true;
  raises = λ p. false;
}

abbrev schedule : Passive
schedule = record { interval = 100; last_passive_at = some 50 }

late : overdue scheduler.hard_factor 900 schedule ≡ true
unfolding overdue
late = refl

step-overdue_example :
    let o = step scheduler (some fresh_state) (some schedule) 900 in
    (any is_passive o.passes ≡ true)
    ⊎ ((backed_off scheduler (some fresh_state) 900 ≡ true)
        × (scheduler.raises active_degraded ≡ true)
        × (o ≡ record { passes = active_degraded ∷ []; sleep = none; schedule = some schedule }))
step-overdue_example = step-overdue scheduler (some fresh_state) schedule 900 (omega arith) late

step-backed_off_example :
    let o = step scheduler (some fresh_state) (some schedule) 900 in
    ((backed_off scheduler (some fresh_state) 900 ≡ true)
      × (any uses_search o.passes ≡ false)
      × Sleeps scheduler (λ n. n ≤ scheduler.backoff_max_sleep) o)
    ⊎ ((backed_off scheduler (some fresh_state) 900 ≡ false)
        × Sleeps scheduler (λ n. min_active_delay ≤ n) o)
step-backed_off_example = step-backed_off scheduler fresh_state (some schedule) 900

abbrev start_tick : Tick
start_tick = record { interval = 100; last = none; runs = [] }

abbrev start_loop : Loop
start_loop = record {
  ticks = record {
    learn = start_tick;
    refresh = record start_tick { interval = 0 };
    rejudge = record start_tick { interval = 30 };
    report = start_tick;
  };
  schedule = some schedule;
  steps = [];
}

-- Every pass of this turn raises.
abbrev turn_at : ℕ → Turn
turn_at t = record {
  learn_at = t;
  refresh_at = t;
  rejudge_at = t;
  report_at = t;
  step_at = t;
  loaded = some (some fresh_state);
  scheduler = record scheduler { raises = λ p. true };
}

abbrev turns : List Turn
turns = turn_at 10 ∷ turn_at 50 ∷ turn_at 70 ∷ turn_at 110 ∷ []

loop_runs :
    ((run_loop turns start_loop).ticks.learn.runs ≡ 110 ∷ 10 ∷ [])
    × ((run_loop turns start_loop).ticks.refresh.runs ≡ [])
    × ((run_loop turns start_loop).ticks.rejudge.runs ≡ 110 ∷ 50 ∷ 10 ∷ [])
unfolding run_loop
loop_runs = (refl, refl, refl)

abbrev starts_paced : IsPaced start_tick
starts_paced = record { spaced = tt; remembered = refl }

run_loop-IsPacedAll_example :
    IsPacedAll (run_loop turns start_loop).ticks
    × (length (run_loop turns start_loop).steps ≡ length turns + length start_loop.steps)
run_loop-IsPacedAll_example = run_loop-IsPacedAll turns start_loop (record {
  learn = starts_paced;
  refresh = record { spaced = tt; remembered = refl };
  rejudge = record { spaced = tt; remembered = refl };
  report = starts_paced;
})
