-- ===== src/Search/Backends.antt =====
-- Backend health and the global backoff of `SearchState`. Every method takes the reading of the
-- clock at which it runs.
pub mod Laws
use ubd_probe.Prelude.{
  ℕ, ◌+◌, ◌-◌, ◌*◌, ◌/◌, ◌^◌, min, max, Bool, true, false, ◌&&◌, not, Option, none, some, List, [],
  ◌∷◌, ltb, leb, ◌==◌, nat_eq, list_eq, if◌then◌else◌,
}
use ubd_probe.Prelude.Dict.{lookup, insert}
use ubd_probe.Prelude.Text.{Text}
use ubd_probe.Search.State.{Backend, SearchState, commit}

-- One, in millionths.
abbrev pub unit : ℕ
unit = 1_000_000

unfoldable pub backend_of : Text → SearchState → Option Backend
unfolding lookup
backend_of name s = lookup name s.state.backends

unfoldable pub is_healthy : Text → ℕ → SearchState → Bool
unfolding backend_of
is_healthy name now s = elim (backend_of name s) [ none ↦ true | some b ↦ leb b.cooldown_until now ]

abbrev pub reset : Backend
reset = record { fails = 0; cooldown_until = 0; quarantined_until = 0; next_reprobe_at = 0 }

unfoldable pub record_success : Text → SearchState → SearchState
unfolding insert
record_success name s = commit (record s.state { backends = insert name reset s.state.backends }) s

-- The keyword arguments of `record_block`, in microseconds; `jitter` is in millionths.
pub record BlockPolicy : Type 0 where
  pub base : ℕ
  pub cap : ℕ
  pub jitter : ℕ
  pub quarantine_threshold : ℕ
  pub quarantine_seconds : ℕ
  pub reprobe_seconds : ℕ

-- `min(base * 2 ** (fails - 1), cap) * (1 + rand() * jitter)`
unfoldable pub block_delay : BlockPolicy → ℕ → ℕ → ℕ
block_delay p rand fails =
    min (p.base * 2 ^ (fails - 1)) p.cap * (unit * unit + rand * p.jitter) / (unit * unit)

abbrev pub known_backend : Option Backend → Backend
known_backend none = reset
known_backend (some b) = b

unfoldable pub blocked_entry : BlockPolicy → ℕ → ℕ → Backend → Backend
unfolding block_delay
blocked_entry p rand now b =
    let fails = b.fails + 1 in
    let entry : Backend = record b {
      fails = fails;
      cooldown_until = now + block_delay p rand fails;
    } in
    if not (p.quarantine_threshold == 0) && leb p.quarantine_threshold fails
    then record entry {
      quarantined_until = now + p.quarantine_seconds;
      next_reprobe_at = now + p.reprobe_seconds;
    }
    else entry

unfoldable pub record_block : BlockPolicy → ℕ → Text → ℕ → SearchState → SearchState
unfolding backend_of blocked_entry insert
record_block p rand name now s =
    let entry = blocked_entry p rand now (known_backend (backend_of name s)) in
    commit (record s.state { backends = insert name entry s.state.backends }) s

unfoldable pub is_quarantined : Text → ℕ → SearchState → Bool
unfolding backend_of
is_quarantined name now s = elim (backend_of name s) [
  | none ↦ false
  | some b ↦ ltb now b.quarantined_until
]

unfoldable pub reprobe_due : Text → ℕ → SearchState → Bool
unfolding backend_of
reprobe_due name now s = elim (backend_of name s) [
  | none ↦ false
  | some b ↦ ltb now b.quarantined_until && leb b.next_reprobe_at now
]

-- One round of the loop in `soonest_recovery`.
unfoldable pub recovery : ℕ → Backend → ℕ
recovery now e =
    if ltb now e.quarantined_until && ltb now e.next_reprobe_at
    then e.next_reprobe_at - now
    else e.cooldown_until - now

unfoldable pub recoveries : List Text → ℕ → SearchState → List ℕ
unfolding backend_of recovery
recoveries [] now s = []
recoveries (name ∷ pool) now s =
    let rest = recoveries pool now s in
    elim (backend_of name s) [ none ↦ rest | some e ↦ recovery now e ∷ rest ]

abbrev pub min_or : ℕ → List ℕ → ℕ
min_or d [] = d
min_or d (x ∷ []) = x
min_or d (x ∷ y ∷ xs) = min x (min_or d (y ∷ xs))

unfoldable pub soonest_recovery : List Text → ℕ → ℕ → SearchState → ℕ
unfolding recoveries
soonest_recovery pool floor now s = max floor (min_or floor (recoveries pool now s))

unfoldable pub in_global_backoff : ℕ → SearchState → Bool
in_global_backoff now s = ltb now s.state.next_allowed_at

unfoldable pub seconds_until_allowed : ℕ → SearchState → ℕ
seconds_until_allowed now s = s.state.next_allowed_at - now

unfoldable pub set_global_backoff : ℕ → ℕ → SearchState → SearchState
set_global_backoff seconds now s = commit (record s.state { next_allowed_at = now + seconds }) s
