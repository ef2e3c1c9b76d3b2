-- ===== src/Search/Searxng.antt =====
-- `SearxngProvider` of crawler/crawler/discovery/providers.py. What the HTTP client gives, with the
-- time it takes, is an argument; the request's parameters and the sleep before it only matter to the
-- clock. Times are microseconds.
use ubd_probe.Prelude.{
  ℕ, ◌+◌, ◌-◌, ◌*◌, ◌^◌, min, Bool, true, false, Option, none, some, List, [], ltb, leb, take,
  if◌then◌else◌,
}
use ubd_probe.Prelude.Text.{codes}
use ubd_probe.Search.Rotation.{Hit, Found, classify}

pub record Searxng : Type 0 where
  pub results_per_keyword : ℕ
  pub min_delay : ℕ
  pub fail_threshold : ℕ
  pub cooldown_base : ℕ
  pub cooldown_cap : ℕ
  pub fails : ℕ
  pub cooldown_until : ℕ
  pub slice_ok : Bool
  pub last_served : Bool

unfoldable pub available : ℕ → Searxng → Bool
available now s = leb s.cooldown_until now

-- `succeeded`
abbrev pub succeeded : Searxng → Bool
succeeded s = s.slice_ok

-- The cooldown after a failure that reaches the threshold.
unfoldable pub cooldown : Searxng → ℕ → ℕ
cooldown s fails = min (s.cooldown_base * 2 ^ (fails - s.fail_threshold)) s.cooldown_cap

-- The rows of the answer, or none for any exception, and the time when it is there.
pub record Answer : Type 0 where
  pub hits : Option (List Hit)
  pub elapsed : ℕ

unfoldable pub failed : ℕ → Searxng → Searxng
unfolding cooldown
failed now s =
    let fails = s.fails + 1 in
    record s {
      fails = fails;
      cooldown_until =
          if leb s.fail_threshold fails then now + cooldown s fails else s.cooldown_until;
    }

abbrev pub reset : Searxng → Searxng
reset s = record s { slice_ok = false; last_served = false }

unfoldable pub ask : Answer → ℕ → Searxng → List Found × Searxng
unfolding available failed classify
ask a now s = if ltb now s.cooldown_until then ([], reset s) else elim a.hits [
  | none ↦ ([], failed (now + s.min_delay + a.elapsed) (reset s))
  | some hits ↦ (
    classify (codes "searxng") (take s.results_per_keyword hits),
    record s { fails = 0; cooldown_until = 0; slice_ok = true; last_served = true },
  )
]
