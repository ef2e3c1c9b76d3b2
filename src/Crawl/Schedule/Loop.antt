-- ===== src/Crawl/Schedule/Loop.antt =====
-- `run_loop` of crawler/crawler/scheduler.py: the four ticks before the step, each on its own interval,
-- and the step whose passes may raise. What an iteration reads and meets is an argument; a tick that
-- raises has run, and the loop goes on. The state of the search is the one that is loaded before the step.
use ubd_probe.Prelude.{ℕ, ◌+◌, max, Option, none, some, List, [], ◌∷◌, leb, ltb, if◌then◌else◌}
use ubd_probe.Search.State.{SearchState}
use ubd_probe.Crawl.Schedule.{Passive, Scheduler, Stepped, step, min_active_delay}

-- `learn_interval_seconds` and `last_learn`, and so on, with the times of the runs, the newest first;
-- a tick without its function has the interval 0.
pub record Tick : Type 0 where
  pub interval : ℕ
  pub last : Option ℕ
  pub runs : List ℕ

-- One of the four blocks before the step, at the reading `t`.
unfoldable pub tick : ℕ → Tick → Tick
tick t k =
    let ran : Tick = record k { last = some t; runs = t ∷ k.runs } in
    if ltb 0 k.interval
    then elim k.last [ none ↦ ran | some last ↦ if leb (last + k.interval) t then ran else k ]
    else k

pub record Ticks : Type 0 where
  pub learn : Tick
  pub refresh : Tick
  pub rejudge : Tick
  pub report : Tick

-- What one iteration meets: the readings of the clock before the four ticks and in the step, the state
-- that is loaded, unless loading or `search_available` raises, and the arguments of the step.
pub record Turn : Type 0 where
  pub learn_at : ℕ
  pub refresh_at : ℕ
  pub rejudge_at : ℕ
  pub report_at : ℕ
  pub step_at : ℕ
  pub loaded : Option (Option SearchState)
  pub scheduler : Scheduler

unfoldable pub run_ticks : Turn → Ticks → Ticks
unfolding tick
run_ticks turn k = record {
  learn = tick turn.learn_at k.learn;
  refresh = tick turn.refresh_at k.refresh;
  rejudge = tick turn.rejudge_at k.rejudge;
  report = tick turn.report_at k.report;
}

-- The step under its `try`, with the sleep that follows it.
unfoldable pub guarded_step : Turn → Option Passive → Stepped
unfolding step
guarded_step turn schedule =
    let pause = max turn.scheduler.active_delay min_active_delay in
    elim turn.loaded [
      | none ↦ record { passes = []; sleep = some pause; schedule = schedule }
      | some state ↦
          let o = step turn.scheduler state schedule turn.step_at in
          elim o.sleep [ none ↦ record o { sleep = some pause } | some sleep ↦ o ]
    ]

pub record Loop : Type 0 where
  pub ticks : Ticks
  pub schedule : Option Passive
  pub steps : List Stepped

unfoldable pub iterate : Turn → Loop → Loop
unfolding run_ticks guarded_step
iterate turn l =
    let o = guarded_step turn l.schedule in
    record { ticks = run_ticks turn l.ticks; schedule = o.schedule; steps = o ∷ l.steps }

-- `iterations` turns of the loop.
unfoldable pub run_loop : List Turn → Loop → Loop
unfolding iterate
run_loop [] l = l
run_loop (turn ∷ turns) l = run_loop turns (iterate turn l)
