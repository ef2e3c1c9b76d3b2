-- ===== src/Search/Rotation/Laws.antt =====
-- The contract of the rotating provider: which backend is taken, and what a call reports.
use native.Mathlib.Nat.{mod-lt, mod-eq_of_lt, mod-add-mod, add-mod_right, add-zero}
use ubd_probe.Prelude.{
  ℕ, zero, suc, ◌+◌, ◌-◌, ◌%◌, ◌≤◌, ◌<◌, ◌≡◌, refl, inl, inr, true, false, Option, none, some, List,
  [], ◌∷◌, length, get_elem?, leb, nat_eq, arith, Bool-cases, Option-cases, ap, ◌∙◌, sym, leb→le,
}
use ubd_probe.Prelude.Text.{Text}
use ubd_probe.Search.State.{SearchState, set_cursor}
use ubd_probe.Search.Rotation.{Rotation, selectable, next_from, take_next_healthy}

-- The backend at an index of the pool cannot be asked.
abbrev pub Unselectable : List Text → ℕ → SearchState → ℕ → Type 0
Unselectable pool now s i =
    (name : Text) → get_elem? pool i ≡ some name → selectable name now s ≡ false

get_elem?-lt :
    (pool : List Text) (i : ℕ) → i < length pool → (name : Text) × (get_elem? pool i ≡ some name)
get_elem?-lt [] i h = elim h [ ]
get_elem?-lt (x ∷ pool) zero h = (x, refl)
get_elem?-lt (x ∷ pool) (suc i) h = get_elem?-lt pool i (omega arith)

step-mod : (n idx k : ℕ) → (suc idx % n + k) % n ≡ (idx + suc k) % n
step-mod n idx k = mod-add-mod (suc idx) n k ∙ ap (λ m. m % n) (omega arith)

start-mod : (n idx : ℕ) → idx < n → (idx + 0) % n ≡ idx
start-mod n idx h = ap (λ m. m % n) (omega arith) ∙ mod-eq_of_lt h

shift-mod : (n idx k : ℕ) → suc (suc idx % n + k) % n ≡ suc (idx + suc k) % n
shift-mod n idx k =
    ap (λ m. m % n) (omega arith) ∙ mod-add-mod (suc idx) n (suc k) ∙ ap (λ m. m % n) (omega arith)

-- What `next_from` has found: the first backend that can be asked, in the cyclic order from `idx`.
pub record FirstFrom (pool : List Text) (fuel idx now : ℕ) (s : SearchState) (name : Text)
    (next : ℕ) : Type 0 where
  pub offset : ℕ
  pub in_range : offset < fuel
  pub at_offset : get_elem? pool ((idx + offset) % length pool) ≡ some name
  pub can_ask : selectable name now s ≡ true
  pub moved : next ≡ suc (idx + offset) % length pool
  pub passed : (i : ℕ) → i < offset → Unselectable pool now s ((idx + i) % length pool)

module _ (pool : List Text) (now : ℕ) (s : SearchState) where
  stepped :
      (idx i : ℕ)
      → Unselectable pool now s ((suc idx % length pool + i) % length pool)
      → Unselectable pool now s ((idx + suc i) % length pool)
  stepped idx i h = rw (step-mod (length pool) idx i) at h

  here :
      (idx : ℕ) (b : Text)
      → idx < length pool
      → get_elem? pool idx ≡ some b
      → selectable b now s ≡ false
      → Unselectable pool now s ((idx + 0) % length pool)
  here idx b lt at no' name h = ground (arith, start-mod (length pool) idx lt)

  passed_over :
      (idx : ℕ) (b : Text) (fuel : ℕ)
      → idx < length pool
      → get_elem? pool idx ≡ some b
      → selectable b now s ≡ false
      → ((i : ℕ) → i < fuel → Unselectable pool now s ((suc idx % length pool + i) % length pool))
      → (i : ℕ) → i < suc fuel
      → Unselectable pool now s ((idx + i) % length pool)
  passed_over idx b fuel lt at no' later zero h = here idx b lt at no'
  passed_over idx b fuel lt at no' later (suc i) h = stepped idx i (later i (omega arith))

  next_from-FirstFrom :
      (fuel idx : ℕ) (name : Text) (next : ℕ)
      → idx < length pool
      → next_from pool fuel idx now s ≡ some (name, next)
      → FirstFrom pool fuel idx now s name next
  unfolding next_from
  next_from-FirstFrom zero idx name next lt h = cc
  next_from-FirstFrom (suc fuel) idx name next lt h =
      let (b, at) = get_elem?-lt pool idx lt in
      elim (Bool-cases (selectable b now s)) [
        | inl can ↦
            let e : ◌≡◌ {A = Option (Text × ℕ)} (some (b, suc idx % length pool))
                (some (name, next)) =
              ground arith in
            record {
              offset = 0;
              in_range = omega arith;
              at_offset = ground (arith, start-mod (length pool) idx lt);
              can_ask = ground arith;
              moved = ground (arith, add-zero idx);
              passed = λ i below. absurd (omega arith);
            }
        | inr cannot ↦
            let rest =
              next_from-FirstFrom fuel (suc idx % length pool) name next
                (mod-lt (suc idx) (omega arith)) (ground arith) in
            record {
              offset = suc rest.offset;
              in_range = omega (arith, rest.in_range);
              at_offset = rw (← step-mod (length pool) idx rest.offset) rest.at_offset;
              can_ask = rest.can_ask;
              moved = rest.moved ∙ shift-mod (length pool) idx rest.offset;
              passed = passed_over idx b rest.offset lt at cannot rest.passed;
            }
      ]

  next_from-none :
      (fuel idx : ℕ)
      → idx < length pool
      → next_from pool fuel idx now s ≡ none
      → (k : ℕ) → k < fuel
      → Unselectable pool now s ((idx + k) % length pool)
  unfolding next_from
  next_from-none zero idx lt h k hk = absurd (omega arith)
  next_from-none (suc fuel) idx lt h k hk =
      let (b, at) = get_elem?-lt pool idx lt in
      elim (Bool-cases (selectable b now s)) [
        | inl can ↦ absurd (ground arith)
        | inr cannot ↦
            passed_over idx b fuel lt at cannot
              (next_from-none fuel (suc idx % length pool) (mod-lt (suc idx) (omega arith))
                (ground arith))
              k hk
      ]

-- Every index of a pool is met from any start.
offset_of : (n start i : ℕ) → start < n → i < n → (k : ℕ) × (k < n) × ((start + k) % n ≡ i)
offset_of n start i hs hi = elim (Bool-cases (leb start i)) [
  | inl after ↦
      let le : start ≤ i = leb→le start i after in
      (i - start, omega arith, ap (λ m. m % n) (omega arith) ∙ mod-eq_of_lt hi)
  | inr before ↦
      let lt : i < start = ground arith in
      (
        i + n - start,
        omega arith,
        ap (λ m. m % n) (omega arith) ∙ add-mod_right i n ∙ mod-eq_of_lt hi,
      )
]

pub get_elem?-some-lt :
    (pool : List Text) (i : ℕ) {name : Text} → get_elem? pool i ≡ some name → i < length pool
get_elem?-some-lt [] i h = cc
get_elem?-some-lt (x ∷ pool) zero h = omega arith
get_elem?-some-lt (x ∷ pool) (suc i) h = omega (arith, get_elem?-some-lt pool i h)

take_next_healthy-none_at :
    (pool : List Text) (now : ℕ) (s : SearchState)
    → take_next_healthy pool now s ≡ none
    → (i : ℕ) → i < length pool
    → Unselectable pool now s i
unfolding take_next_healthy
take_next_healthy-none_at pool now s h i lt =
    let n = length pool in
    let inside : s.state.cursor % n < n = mod-lt s.state.cursor (omega arith) in
    let (k, k_lt, e) = offset_of n (s.state.cursor % n) i inside lt in
    rw e at (next_from-none pool now s n (s.state.cursor % n) inside (ground arith) k k_lt)

-- If the rotation takes no backend, then none of the pool can be asked.
pub take_next_healthy-none :
    (pool : List Text) (now : ℕ) (s : SearchState)
    → take_next_healthy pool now s ≡ none
    → (i : ℕ) → Unselectable pool now s i
take_next_healthy-none pool now s h i name at =
    take_next_healthy-none_at pool now s h i (get_elem?-some-lt pool i at) name at

-- The backend that the rotation takes is the first in the cyclic order from the cursor that can be
-- asked, and the cursor moves to the place behind it; nothing else changes but the file.
pub take_next_healthy-some :
    (pool : List Text) (now : ℕ) (s s' : SearchState) (name : Text)
    → take_next_healthy pool now s ≡ some (name, s')
    → (next : ℕ) × FirstFrom pool (length pool) (s.state.cursor % length pool) now s name next
      × (s' ≡ set_cursor next s)
unfolding take_next_healthy
take_next_healthy-some pool now s s' name h =
    elim (Option-cases (next_from pool (length pool) (s.state.cursor % length pool) now s)) [
      | inl e ↦ absurd (ground arith)
      | inr ((found, next), e) ↦
          let same : (found ≡ name) × (set_cursor next s ≡ s') × (0 < length pool) = ground arith in
          (
            next,
            next_from-FirstFrom pool now s (length pool) (s.state.cursor % length pool) name next
                (mod-lt s.state.cursor same.2) (rw same.0 at e),
            sym same.1,
          )
    ]
