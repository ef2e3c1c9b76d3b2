-- ===== src/Crawl/Pace.antt =====
-- `RateLimiter` and `DomainRateLimiter` of crawler/crawler/ratelimit.py. Times are microseconds. A
-- call of `wait` reads the clock at its start and, after a sleep, twice: for the test and for the value.
use ubd_probe.Prelude.{
  ℕ, ◌+◌, ◌-◌, ◌≤◌, max, ◌≡◌, Option, none, some, ltb, ◌==◌, nat_eq, list_eq, if◌then◌else◌, arith,
}
use ubd_probe.Prelude.Dict.{Dict, lookup, insert, lookup-insert_self}
use ubd_probe.Prelude.Text.{Text}

pub record Limiter : Type 0 where
  pub min_delay : ℕ
  pub last : Dict Text ℕ
  pub penalty_until : Dict Text ℕ

-- The clock: when `wait` starts, and the two readings after its first sleep.
pub record Readings : Type 0 where
  pub started : ℕ
  pub tested : ℕ
  pub woken : ℕ

abbrev pub or_zero : Option ℕ → ℕ
or_zero none = 0
or_zero (some t) = t

unfoldable pub penalize : Text → ℕ → ℕ → Limiter → Limiter
unfolding lookup insert
penalize domain seconds now l = if seconds == 0 then l else record l {
  penalty_until =
      insert domain (max (or_zero (lookup domain l.penalty_until)) (now + seconds)) l.penalty_until;
}

-- The time once a domain has waited for `effective` since its last request.
unfoldable pub spaced : Option ℕ → ℕ → Readings → ℕ
spaced none effective r = r.started
spaced (some last) effective r =
    let remaining = last + effective - r.started in
    let woken = if ltb r.started r.tested then r.woken else r.started + remaining in
    if ltb 0 remaining then woken else r.started

-- The time at which `wait` returns.
unfoldable pub released : Limiter → Text → ℕ → Readings → ℕ
unfolding lookup spaced
released l domain delay r =
    max (spaced (lookup domain l.last) (max l.min_delay delay) r)
      (or_zero (lookup domain l.penalty_until))

-- `DomainRateLimiter.wait`, for a `delay` that is 0 when none is given
unfoldable pub wait : Text → ℕ → Readings → Limiter → Limiter
unfolding released insert
wait domain delay r l = record l { last = insert domain (released l domain delay r) l.last }

-- `RateLimiter.wait`: no delay of its own and no penalties
unfoldable pub wait_platform : Text → Readings → Limiter → Limiter
unfolding spaced lookup insert
wait_platform platform r l = record l {
  last = insert platform (spaced (lookup platform l.last) l.min_delay r) l.last;
}

-- What `sleep` and `monotonic` promise: the clock does not run back, and a sleep is not too short.
pub record IsPunctual (remaining : ℕ) (r : Readings) : Type 0 where
  pub forward : r.tested ≤ r.woken
  pub slept : r.started + remaining ≤ r.woken

-- When a domain was last released at some time, the clock does not run back and the sleep is not too
-- short, the next `wait` releases it at least the larger of the two delays later, and not before its
-- penalty is over.
pub wait-spaced :
    (l : Limiter) (domain : Text) (delay last : ℕ) (r : Readings)
    → lookup domain l.last ≡ some last
    → IsPunctual (last + max l.min_delay delay - r.started) r
    → (next : ℕ) × (lookup domain (wait domain delay r l).last ≡ some next)
      × (last + max l.min_delay delay ≤ next)
      × (or_zero (lookup domain l.penalty_until) ≤ next)
unfolding wait released spaced
wait-spaced l domain delay last r known h =
    let put = lookup-insert_self domain (released l domain delay r) l.last in
    let woken = h.slept in (released l domain delay r, put, rw known (ground arith), ground arith)
