-- ===== src/Search/Rotation/Recovery.antt =====
-- The end of a global backoff: the time that `soonest_recovery` gives is enough.
use mathlib.Core.Path.{subst}
use ubd_probe.Prelude.{
  ℕ, suc, ◌+◌, ◌*◌, ◌≤◌, ◌<◌, min, ◌≡◌, refl, ◌≢◌, ◌⊎◌, inl, inr, true, false, none, some, List, [],
  ◌∷◌, get_elem?, leb, ◌==◌, nat_eq, arith, Bool-cases, Option-cases, list_eq,
}
use ubd_probe.Prelude.Text.{Text}
use ubd_probe.Search.State.{Backend, SearchState}
use ubd_probe.Search.Backends.{
  unit, backend_of, record_success, BlockPolicy, blocked_entry, known_backend, reset, record_block,
  recovery, recoveries, min_or, soonest_recovery, in_global_backoff, set_global_backoff,
}
use ubd_probe.Search.Backends.Laws.{
  block_delay_bounds, backend_of-record_block, backend_of-record_success,
}
use ubd_probe.Search.Rotation.{selectable, take_next_healthy}
use ubd_probe.Search.Rotation.Laws.{Unselectable, take_next_healthy-none}

-- A quarantine, if there is one, does not end before the cooldown.
abbrev pub CoversCooldown : Backend → Type 0
CoversCooldown b = (b.quarantined_until ≡ 0) ⊎ (b.cooldown_until ≤ b.quarantined_until)

-- Below the threshold there is no quarantine, and a quarantine covers the cooldown.
abbrev pub IsKept : BlockPolicy → Backend → Type 0
IsKept p b = (b.fails < p.quarantine_threshold → b.quarantined_until ≡ 0) × CoversCooldown b

abbrev pub AllKept : BlockPolicy → SearchState → Type 0
AllKept p s = (name : Text) (b : Backend) → backend_of name s ≡ some b → IsKept p b

-- What the configuration has to grant: a quarantine is on, and lasts as long as any cooldown.
pub record IsLong (p : BlockPolicy) : Type 0 where
  pub quarantines : 0 < p.quarantine_threshold
  pub covers : 2 * p.cap ≤ p.quarantine_seconds
  pub jitter_le : p.jitter ≤ unit

blocked_entry-IsKept :
    (p : BlockPolicy) (r now : ℕ) (b : Backend)
    → IsLong p
    → r ≤ unit
    → IsKept p b
    → IsKept p (blocked_entry p r now b)
unfolding blocked_entry
blocked_entry-IsKept p r now b long hr h =
    let bound = block_delay_bounds p r (b.fails + 1) hr long.jitter_le in
    (ground arith, ground arith)

known_backend-IsKept :
    (p : BlockPolicy) (s : SearchState) (name : Text)
    → AllKept p s
    → IsKept p (known_backend (backend_of name s))
known_backend-IsKept p s name h = elim (Option-cases (backend_of name s)) [
  | inl e ↦ rw e (λ _. refl, inl refl)
  | inr (b, e) ↦ rw e (h name b e)
]

-- A block keeps the quarantine of every backend at least as long as its cooldown.
pub record_block-AllKept :
    (p : BlockPolicy) (r : ℕ) (name : Text) (now : ℕ) (s : SearchState)
    → IsLong p
    → r ≤ unit
    → AllKept p s
    → AllKept p (record_block p r name now s)
record_block-AllKept p r name now s long hr h j b e = elim (Bool-cases (name == j)) [
  | inl same ↦
      let e' : blocked_entry p r now (known_backend (backend_of name s)) ≡ b =
        ground (arith, backend_of-record_block p r name j now s) in
      subst (IsKept p) e' (
        blocked_entry-IsKept p r now (known_backend (backend_of name s)) long hr
          (known_backend-IsKept p s name h))
  | inr other ↦ h j b (ground (arith, backend_of-record_block p r name j now s))
]

pub record_success-AllKept :
    (p : BlockPolicy) (name : Text) (s : SearchState)
    → AllKept p s
    → AllKept p (record_success name s)
record_success-AllKept p name s h j b e = elim (Bool-cases (name == j)) [
  | inl same ↦
      let e' : reset ≡ b = ground (arith, backend_of-record_success name j s) in
      subst (IsKept p) e' (λ _. refl, inl refl)
  | inr other ↦ h j b (ground (arith, backend_of-record_success name j s))
]

-- A backend that cannot be asked has an entry, and can be asked once its recovery time has passed.
wakes :
    (name : Text) (b : Backend) (now t : ℕ) (s : SearchState)
    → backend_of name s ≡ some b
    → CoversCooldown b
    → selectable name now s ≡ false
    → now + recovery now b ≤ t
    → selectable name t s ≡ true
unfolding selectable recovery
wakes name b now t s e kept blocked late = ground arith

has_entry :
    (name : Text) (now : ℕ) (s : SearchState)
    → selectable name now s ≡ false
    → (b : Backend) × (backend_of name s ≡ some b)
unfolding selectable
has_entry name now s blocked = elim (Option-cases (backend_of name s)) [
  | inl e ↦ absurd (ground arith)
  | inr found ↦ found
]

recoveries-cons :
    (x : Text) (pool : List Text) (now : ℕ) (s : SearchState) (b : Backend)
    → backend_of x s ≡ some b
    → recoveries (x ∷ pool) now s ≡ recovery now b ∷ recoveries pool now s
unfolding recoveries
recoveries-cons x pool now s b e = ground arith

least-cons :
    (x y : Text) (pool : List Text) (floor now : ℕ) (s : SearchState) (b c : Backend)
    → backend_of x s ≡ some b
    → backend_of y s ≡ some c
    → min_or floor (recoveries (x ∷ y ∷ pool) now s)
      ≡ min (recovery now b) (min_or floor (recoveries (y ∷ pool) now s))
least-cons x y pool floor now s b c e f =
    rw (recoveries-cons x (y ∷ pool) now s b e, recoveries-cons y pool now s c f)

-- Some backend of the pool recovers at the time that the shortest recovery gives.
pub record Earliest (pool : List Text) (floor now : ℕ) (s : SearchState) : Type 0 where
  pub index : ℕ
  pub name : Text
  pub backend : Backend
  pub at_index : get_elem? pool index ≡ some name
  pub entry : backend_of name s ≡ some backend
  pub least : recovery now backend ≡ min_or floor (recoveries pool now s)

module _ (floor now : ℕ) (s : SearchState) where
  earliest :
      (x : Text) (pool : List Text)
      → ((i : ℕ) → Unselectable (x ∷ pool) now s i)
      → Earliest (x ∷ pool) floor now s
  unfolding recoveries
  earliest x [] blocked =
      let (b, e) = has_entry x now s (blocked 0 x refl) in
      record {
        index = 0;
        name = x;
        backend = b;
        at_index = refl;
        entry = e;
        least = rw (recoveries-cons x [] now s b e);
      }
  earliest x (y ∷ pool) blocked =
      let (b, e) = has_entry x now s (blocked 0 x refl) in
      let (c, f) = has_entry y now s (blocked 1 y refl) in
      let rest = earliest y pool (λ i. blocked (suc i)) in
      let whole = least-cons x y pool floor now s b c e f in
      elim (Bool-cases (leb (recovery now b) (recovery now rest.backend))) [
        | inl first ↦ record {
          index = 0;
          name = x;
          backend = b;
          at_index = refl;
          entry = e;
          least = ground (arith, rest.least);
        }
        | inr later ↦ record {
          index = suc rest.index;
          name = rest.name;
          backend = rest.backend;
          at_index = rest.at_index;
          entry = rest.entry;
          least = ground (arith, rest.least);
        }
      ]

selectable-set_global_backoff :
    (name : Text) (wait now t : ℕ) (s : SearchState)
    → selectable name t (set_global_backoff wait now s) ≡ selectable name t s
unfolding selectable set_global_backoff
selectable-set_global_backoff name wait now t s = refl

backoff-over :
    (wait now : ℕ) (s : SearchState)
    → in_global_backoff (now + wait) (set_global_backoff wait now s) ≡ false
unfolding in_global_backoff set_global_backoff
backoff-over wait now s = ground arith

recovery-le-wait :
    (pool : List Text) (floor now : ℕ) (s : SearchState) (first : Earliest pool floor now s)
    → now + recovery now first.backend ≤ now + soonest_recovery pool floor now s
unfolding soonest_recovery
recovery-le-wait pool floor now s first = omega (arith, first.least)

-- When the pool is not empty, every quarantine in the state covers its cooldown, as the policy keeps
-- it, and no backend can be asked, the provider backs off for `soonest_recovery`. At the end of that
-- time the backoff is over, and the rotation takes a backend again.
pub backoff-wakes :
    (pool : List Text) (floor now : ℕ) (p : BlockPolicy) (s : SearchState)
    → pool ≢ []
    → AllKept p s
    → take_next_healthy pool now s ≡ none
    → let wait = soonest_recovery pool floor now s in
      let s' = set_global_backoff wait now s in
      (in_global_backoff (now + wait) s' ≡ false) × (take_next_healthy pool (now + wait) s' ≢ none)
backoff-wakes [] floor now p s nonempty kept none_left = absurd (nonempty refl)
backoff-wakes (x ∷ pool) floor now p s nonempty kept none_left =
    let blocked = take_next_healthy-none (x ∷ pool) now s none_left in
    let first = earliest floor now s x pool blocked in
    let wait = soonest_recovery (x ∷ pool) floor now s in
    let s' = set_global_backoff wait now s in
    let awake =
      wakes first.name first.backend now (now + wait) s first.entry
        (kept first.name first.backend first.entry).1
        (blocked first.index first.name first.at_index)
        (recovery-le-wait (x ∷ pool) floor now s first) in
    (
      backoff-over wait now s,
      λ stuck. cc (
        awake,
        selectable-set_global_backoff first.name wait now (now + wait) s,
        take_next_healthy-none (x ∷ pool) (now + wait) s' stuck first.index first.name
            first.at_index,
      ),
    )
