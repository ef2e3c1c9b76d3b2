-- ===== src/Search/Coverage/Laws.antt =====
-- The gauge and the pruning of the host frequencies.
use ubd_probe.Prelude.{
  ℕ, ◌+◌, ◌-◌, ◌*◌, ◌≤◌, ◌<◌, ◌≡◌, refl, ◌≢◌, ◌⊎◌, inl, inr, some, List, [], ◌∷◌, list_beq_iff, ltb,
  ◌==◌, nat_eq, list_eq, length, if◌then◌else◌, arith, Bool-cases, count_if,
}
use ubd_probe.Prelude.Dict.{Dict, lookup, lookup-insert}
use ubd_probe.Prelude.Text.{Text}
use ubd_probe.Search.State.{SearchState}
use ubd_probe.Search.Coverage.{
  freq_of, bump, bump_all, prune_from, prune, note_hosts, seen_times, coverage_counts, chao1,
  saturation,
}

-- Chao1 never estimates fewer hosts than were observed, the saturation is at most 1, and both
-- have positive denominators, so neither divides by zero.
pub chao1_bounds :
    (observed f1 f2 : ℕ)
    → let est = chao1 observed f1 f2 in
      let sat = saturation observed f1 f2 in
      (observed * est.den ≤ est.num) × (0 < est.den) × (sat.num ≤ sat.den) × (0 < sat.den)
unfolding chao1 saturation
chao1_bounds observed f1 f2 = grind arith

-- With no host seen exactly once the domain counts as covered.
pub saturation-full : (observed f2 : ℕ) → let sat = saturation observed 0 f2 in sat.num ≡ sat.den
unfolding chao1 saturation
saturation-full observed f2 = grind arith

seen_times-le :
    (m n : ℕ) (freq : Dict Text ℕ) → ¬ (m ≡ n) → seen_times m freq + seen_times n freq ≤ length freq
unfolding seen_times count_if
seen_times-le m n [] ne = omega arith
seen_times-le m n ((h, k) ∷ freq) ne = ground (arith, seen_times-le m n freq)

-- Hosts seen once and hosts seen twice are different ones among the observed.
pub coverage_counts_bounds :
    (s : SearchState) → let (observed, f1, f2) = coverage_counts s in f1 + f2 ≤ observed
unfolding coverage_counts
coverage_counts_bounds s = seen_times-le 1 2 s.state.host_freq (λ e. absurd (omega arith))

-- No host that was seen more than once is pruned.
abbrev pub Kept : ℕ → Dict Text ℕ → Dict Text ℕ → Type 0
Kept cap freq after =
    (host : Text) (n : ℕ) → n ≢ 1 → lookup host freq ≡ some n → lookup host after ≡ some n

prune_from-Kept : (cap size : ℕ) (freq : Dict Text ℕ) → Kept cap freq (prune_from cap size freq)
unfolding lookup prune_from
prune_from-Kept cap size [] host n h e = e
prune_from-Kept cap size ((k, m) ∷ freq) host n h e =
    ground
      (arith, prune_from-Kept cap (size - 1) freq host n h, prune_from-Kept cap size freq host n h)

prune_from_fits :
    (cap kept size : ℕ) (freq : Dict Text ℕ)
    → kept + length freq ≡ size
    → (seen_times 1 (prune_from cap size freq) ≡ 0)
      ⊎ (kept + length (prune_from cap size freq) ≤ cap)
unfolding prune_from seen_times count_if
prune_from_fits cap kept size [] e = inl refl
prune_from_fits cap kept size ((k, m) ∷ freq) e =
    ground
      (arith, prune_from_fits cap kept (size - 1) freq, prune_from_fits cap (kept + 1) size freq)

-- After `note_hosts` there are at most `cap` hosts, or no host that was seen just once; and no host
-- that had been seen more than once is lost.
pub note_hosts_fits :
    (cap : ℕ) (hosts : List Text) (s : SearchState)
    → let freq = bump_all hosts s.state.host_freq in
      let after = (note_hosts cap hosts s).state.host_freq in
      ((seen_times 1 after ≡ 0) ⊎ (length after ≤ cap)) × Kept cap freq after
unfolding note_hosts prune
note_hosts_fits cap hosts s =
    let freq = bump_all hosts s.state.host_freq in
    elim (Bool-cases (ltb cap (length freq))) [
      | inl over ↦ rw over (
        ground (arith, prune_from_fits cap 0 (length freq) freq (omega arith)),
        prune_from-Kept cap (length freq) freq,
      )
      | inr fits ↦ rw fits (inr (ground arith), λ host n h e. e)
    ]

-- The frequency of each host after a batch is its frequency before, plus its occurrences.
pub occurrences : Text → List Text → ℕ
occurrences host [] = 0
occurrences host (h ∷ hosts) = (if h == host then 1 else 0) + occurrences host hosts

freq_of-bump :
    (host h : Text) (freq : Dict Text ℕ)
    → host ≢ []
    → freq_of (lookup host (bump h freq))
      ≡ freq_of (lookup host freq) + (if h == host then 1 else 0)
unfolding bump
freq_of-bump host [] freq ne = ground (arith, list_beq_iff [] host)
freq_of-bump host (c ∷ t) freq ne = ground (
  arith,
  lookup-insert (c ∷ t) host (freq_of (lookup (c ∷ t) freq) + 1) freq,
  list_beq_iff (c ∷ t) host,
)

-- The batch counts every host with a name exactly as often as it occurs, before the pruning.
pub freq_of-bump_all :
    (host : Text) (hosts : List Text) (freq : Dict Text ℕ)
    → host ≢ []
    → freq_of (lookup host (bump_all hosts freq))
      ≡ freq_of (lookup host freq) + occurrences host hosts
unfolding bump_all occurrences
freq_of-bump_all host [] freq ne = omega arith
freq_of-bump_all host (h ∷ hosts) freq ne =
    omega (arith, freq_of-bump_all host hosts (bump h freq) ne, freq_of-bump host h freq ne)
