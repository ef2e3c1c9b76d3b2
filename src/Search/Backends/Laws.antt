-- ===== src/Search/Backends/Laws.antt =====
-- What the health methods of `SearchState` promise, over time.
use ubd_probe.Prelude.{
  ℕ, zero, suc, ◌+◌, ◌-◌, ◌*◌, ◌/◌, ◌^◌, ◌≤◌, ◌<◌, min, ◌≡◌, ◌&&◌, some, ltb, leb, ◌==◌, nat_eq,
  list_eq, if◌then◌else◌, arith, eq_refl,
}
use native.Mathlib.Nat.{pow-suc, mul-le-mul, mul-le-mul_left}
use ubd_probe.Prelude.Dict.{lookup, lookup-insert}
use ubd_probe.Prelude.Text.{Text}
use ubd_probe.Search.State.{SearchState}
use ubd_probe.Search.Backends.{
  unit, backend_of, is_healthy, reset, record_success, BlockPolicy, block_delay, known_backend,
  blocked_entry, record_block, is_quarantined, reprobe_due,
}

pub pow-pos : (n : ℕ) → 1 ≤ 2 ^ n
pow-pos zero = omega arith
pow-pos (suc n) = rw pow-suc (omega (arith, pow-pos n))

-- An entry is replaced, the others stay.
pub backend_of-record_block :
    (p : BlockPolicy) (r : ℕ) (name j : Text) (now : ℕ) (s : SearchState)
    → backend_of j (record_block p r name now s) ≡ (
        if name == j
        then some (blocked_entry p r now (known_backend (backend_of name s)))
        else backend_of j s)
unfolding record_block backend_of
backend_of-record_block p r name j now s =
    lookup-insert name j (blocked_entry p r now (known_backend (lookup name s.state.backends)))
      s.state.backends

pub backend_of-record_success :
    (name j : Text) (s : SearchState)
    → backend_of j (record_success name s) ≡ (if name == j then some reset else backend_of j s)
unfolding record_success backend_of
backend_of-record_success name j s = lookup-insert name j reset s.state.backends

scaled_bounds :
    (m x : ℕ)
    → x ≤ unit * unit
    → (m ≤ m * (unit * unit + x) / (unit * unit)) × (m * (unit * unit + x) / (unit * unit) ≤ 2 * m)
scaled_bounds m x h = let scaled : m * x ≤ m * (unit * unit) = mul-le-mul_left m h in omega arith

-- A delay lies between the smaller of base and cap and twice the cap, however often the backend
-- has failed, for a random number and a jitter of at most 1.
pub block_delay_bounds :
    (p : BlockPolicy) (r fails : ℕ)
    → r ≤ unit
    → p.jitter ≤ unit
    → (min p.base p.cap ≤ block_delay p r fails) × (block_delay p r fails ≤ 2 * p.cap)
unfolding block_delay
block_delay_bounds p r fails hr hj =
    let (above, below) =
      scaled_bounds (min (p.base * 2 ^ (fails - 1)) p.cap) (r * p.jitter) (mul-le-mul hr hj) in
    let grown : p.base * 1 ≤ p.base * 2 ^ (fails - 1) =
      mul-le-mul_left p.base (pow-pos (fails - 1)) in
    (omega arith, omega arith)

-- After a block, a backend is healthy again exactly from the end of its delay on, and the health
-- of every other backend is what it was.
pub is_healthy-record_block :
    (p : BlockPolicy) (r : ℕ) (name j : Text) (now t : ℕ) (s : SearchState)
    → is_healthy j t (record_block p r name now s) ≡ (
        if name == j
        then leb (now + block_delay p r ((known_backend (backend_of name s)).fails + 1)) t
        else is_healthy j t s)
unfolding is_healthy blocked_entry
is_healthy-record_block p r name j now t s =
    ground (arith, backend_of-record_block p r name j now s)

-- From a threshold above 0 on, a block quarantines its backend: it stays quarantined exactly until the
-- quarantine ends, and its trial is due exactly in the part of it that begins with the reprobe time.
pub quarantine-record_block :
    (p : BlockPolicy) (r : ℕ) (name : Text) (now t : ℕ) (s : SearchState)
    → 0 < p.quarantine_threshold
    → p.quarantine_threshold ≤ (known_backend (backend_of name s)).fails + 1
    → (is_quarantined name t (record_block p r name now s) ≡ ltb t (now + p.quarantine_seconds))
      × (reprobe_due name t (record_block p r name now s)
          ≡ (ltb t (now + p.quarantine_seconds) && leb (now + p.reprobe_seconds) t))
unfolding is_quarantined reprobe_due blocked_entry
quarantine-record_block p r name now t s pos reached =
    ground (arith, backend_of-record_block p r name name now s, eq_refl name)
