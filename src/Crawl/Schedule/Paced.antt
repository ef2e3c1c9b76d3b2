-- ===== src/Crawl/Schedule/Paced.antt =====
-- The ticks of the scheduler's loop keep their intervals.
use ubd_probe.Prelude.{
  ℕ, ◌+◌, ◌≤◌, ◌<◌, ◌≡◌, refl, sym, ◌∙◌, inl, inr, true, Option, none, some, List, [], ◌∷◌, leb,
  ltb, length, Bool-cases, Option-cases, arith,
}
use ubd_probe.Crawl.Schedule.Loop.{Tick, tick, Ticks, Turn, run_ticks, Loop, iterate, run_loop}

-- The runs of a tick are apart by its interval, and the last one is remembered.
abbrev pub Spaced : ℕ → List ℕ → Type 0
Spaced interval [] = Unit
Spaced interval (t ∷ []) = Unit
Spaced interval (t ∷ u ∷ runs) = (u + interval ≤ t) × Spaced interval (u ∷ runs)

abbrev newest : List ℕ → Option ℕ
newest [] = none
newest (t ∷ runs) = some t

pub record IsPaced (k : Tick) : Type 0 where
  pub spaced : Spaced k.interval k.runs
  pub remembered : k.last ≡ newest k.runs

-- At the reading `t`, a tick that is on has run less than its interval ago.
pub record IsFresh (t : ℕ) (k : Tick) : Type 0 where
  pub ran_at : ℕ
  pub ran : k.last ≡ some ran_at
  pub recent : t < ran_at + k.interval

Spaced-run :
    (interval t : ℕ) (runs : List ℕ)
    → Spaced interval runs
    → ((u : ℕ) → newest runs ≡ some u → u + interval ≤ t)
    → Spaced interval (t ∷ runs)
Spaced-run interval t [] h late = tt
Spaced-run interval t (u ∷ runs) h late = (late u refl, h)

some-none : (u : ℕ) → ¬ (some u ≡ none)
some-none u e = absurd (cc)

ran_late :
    (last u : ℕ) (k : Tick) (t : ℕ)
    → some last ≡ some u
    → leb (last + k.interval) t ≡ true
    → u + k.interval ≤ t
ran_late last u k t same late = ground arith

ltb-true : {a b : ℕ} → a < b → ltb a b ≡ true
ltb-true lt = ground arith

tick-IsPaced : (t : ℕ) (k : Tick) → IsPaced k → IsPaced (tick t k)
unfolding tick
tick-IsPaced t k h = elim (Bool-cases (ltb 0 k.interval)) [
  | inr off ↦ rw (tick, off) h
  | inl on ↦ elim (Option-cases k.last) [
    | inl never ↦
        rw (tick, on, never)
          (record {
            spaced =
                Spaced-run k.interval t k.runs h.spaced
                  (λ u e. absurd (some-none u (sym e ∙ sym h.remembered ∙ never)));
            remembered = refl;
          })
    | inr (last, e) ↦ elim (Bool-cases (leb (last + k.interval) t)) [
      | inr early ↦ rw (tick, on, e, early) h
      | inl late ↦
          rw (tick, on, e, late)
            (record {
              spaced =
                  Spaced-run k.interval t k.runs h.spaced
                    (λ u f. ran_late last u k t (sym e ∙ h.remembered ∙ f) late);
              remembered = refl;
            })
    ]
  ]
]

tick-IsFresh : (t : ℕ) (k : Tick) → 0 < k.interval → IsFresh t (tick t k)
unfolding tick
tick-IsFresh t k on = elim (Option-cases k.last) [
  | inl never ↦
      rw (tick, ltb-true on, never) (record { ran_at = t; ran = refl; recent = omega (arith, on) })
  | inr (last, e) ↦ elim (Bool-cases (leb (last + k.interval) t)) [
    | inl late ↦
        rw (tick, ltb-true on, e, late)
          (record { ran_at = t; ran = refl; recent = omega (arith, on) })
    | inr early ↦
        rw (tick, ltb-true on, e, early) (record { ran_at = last; ran = e; recent = ground arith })
  ]
]

pub record IsPacedAll (k : Ticks) : Type 0 where
  pub learn : IsPaced k.learn
  pub refresh : IsPaced k.refresh
  pub rejudge : IsPaced k.rejudge
  pub report : IsPaced k.report

-- However the turns of the loop go, whatever fails in them, every tick stays paced: two runs of a job
-- are at least its interval apart, and the last run is the one that the loop remembers. And every turn
-- makes one step.
pub run_loop-IsPacedAll :
    (turns : List Turn) (l : Loop)
    → IsPacedAll l.ticks
    → IsPacedAll (run_loop turns l).ticks
      × (length (run_loop turns l).steps ≡ length turns + length l.steps)
unfolding run_loop iterate run_ticks
run_loop-IsPacedAll [] l h = (h, omega arith)
run_loop-IsPacedAll (turn ∷ turns) l h =
    let rest = run_loop-IsPacedAll turns (iterate turn l) (record {
      learn = tick-IsPaced turn.learn_at l.ticks.learn h.learn;
      refresh = tick-IsPaced turn.refresh_at l.ticks.refresh h.refresh;
      rejudge = tick-IsPaced turn.rejudge_at l.ticks.rejudge h.rejudge;
      report = tick-IsPaced turn.report_at l.ticks.report h.report;
    }) in
    (rest.0, omega (arith, rest.1))

-- A turn leaves no sweep of the judge due: when it is on, it has run less than its interval before
-- the reading of the turn.
pub iterate-IsFresh :
    (turn : Turn) (l : Loop)
    → 0 < l.ticks.rejudge.interval
    → IsFresh turn.rejudge_at (iterate turn l).ticks.rejudge
unfolding iterate run_ticks
iterate-IsFresh turn l on = tick-IsFresh turn.rejudge_at l.ticks.rejudge on
