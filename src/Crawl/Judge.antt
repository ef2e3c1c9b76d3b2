-- ===== src/Crawl/Judge.antt =====
-- `RelevanceGate` of crawler/crawler/judge/gate.py over `VerdictCache` of crawler/crawler/judge/cache.py,
-- without its file. `C` is the type of the candidates; the judge answers for each.
pub mod Laws
pub mod Tests
use ubd_probe.Prelude.{
  ℕ, ◌≡◌, ◌⊎◌, inl, inr, refl, sym, ap, ◌∙◌, Bool, true, false, ◌&&◌, ◌||◌, not, Option, none, some,
  null, nat_eq, list_eq, list_beq, if◌then◌else◌, Bool-cases, Option-cases, arith,
}
use ubd_probe.Prelude.Dict.{Dict, lookup, insert, lookup-insert_self}
use ubd_probe.Prelude.Text.{Text}

pub record Verdict : Type 0 where
  pub genuine : Bool
  pub page_scoped : Bool
  pub reason : Text

-- What a call of the judge ends with: a verdict, `JudgeUnavailable` or `JudgeError`.
pub data Answer : Type 0 where
  verdict : Verdict → Answer
  unavailable judge_error : Answer

pub record Gate : Type 0 where
  pub enabled : Bool
  pub broken : Bool
  pub cache : Option (Dict Text Verdict)

abbrev pub passes : Verdict → Bool
passes v = v.genuine && v.page_scoped

abbrev pub reset_breaker : Gate → Gate
reset_breaker g = record g { broken = false }

-- `self._cache.get(content_hash)`, when there is a hash and a cache
unfoldable pub cached : Text → Gate → Option Verdict
unfolding lookup list_beq
cached hash g = elim g.cache [
  | none ↦ none
  | some verdicts ↦ if null hash then none else lookup hash verdicts
]

-- `self._cache.put(content_hash, v)`; the dictionary is changed even when the file cannot be written.
unfoldable pub stored : Text → Verdict → Gate → Gate
unfolding insert list_beq
stored hash v g = elim g.cache [
  | none ↦ g
  | some verdicts ↦ if null hash then g else record g { cache = some (insert hash v verdicts) }
]

module _ {C : Type 0} (judge : C → Answer) where
  -- The judge is asked.
  unfoldable pub ask : C → Text → Gate → Bool × Gate
  unfolding stored
  ask candidate hash g = elim (judge candidate) [
    | unavailable ↦ (true, record g { broken = true })
    | judge_error ↦ (true, g)
    | verdict v ↦ (passes v, stored hash v g)
  ]

  unfoldable pub keep : C → Text → Gate → Bool × Gate
  unfolding cached ask
  keep candidate hash g =
      if not g.enabled || g.broken
      then (true, g)
      else elim (cached hash g) [ none ↦ ask candidate hash g | some v ↦ (passes v, g) ]
