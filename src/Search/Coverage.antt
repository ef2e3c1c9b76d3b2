-- ===== src/Search/Coverage.antt =====
-- Host frequencies of `SearchState` (`note_host`, `note_hosts`, `coverage_counts`) and the Chao1
-- gauge of crawler/crawler/discovery/coverage.py. An estimate is a number of halves over a
-- denominator, so that no digit is lost.
pub mod Laws
use ubd_probe.Prelude.{
  ℕ, ◌+◌, ◌-◌, ◌*◌, ◌/◌, min, Bool, true, false, ◌&&◌, Option, none, some, List, [], ◌∷◌, map, ltb,
  leb, ◌==◌, nat_eq, list_eq, length, count_if, null, if◌then◌else◌,
}
use ubd_probe.Prelude.Dict.{Dict, lookup, insert}
use ubd_probe.Prelude.Text.{Text}
use ubd_probe.Search.State.{SearchData, SearchState, commit}

abbrev pub freq_of : Option ℕ → ℕ
freq_of none = 0
freq_of (some n) = n

-- An empty or missing host is not counted.
unfoldable pub bump : Text → Dict Text ℕ → Dict Text ℕ
unfolding lookup insert
bump host freq = if null host then freq else insert host (freq_of (lookup host freq) + 1) freq

unfoldable pub note_host : Text → SearchState → SearchState
unfolding bump
note_host host s =
    if null host then s else commit (record s.state { host_freq = bump host s.state.host_freq }) s

unfoldable pub bump_all : List Text → Dict Text ℕ → Dict Text ℕ
unfolding bump
bump_all [] freq = freq
bump_all (host ∷ hosts) freq = bump_all hosts (bump host freq)

-- The pruning loop over the keys: a singleton goes while there are more than `cap` entries; `size`
-- is the number of entries that are left.
unfoldable pub prune_from : ℕ → ℕ → Dict Text ℕ → Dict Text ℕ
prune_from cap size [] = []
prune_from cap size ((host, n) ∷ freq) =
    let drop_it = prune_from cap (size - 1) freq in
    let keep_it = (host, n) ∷ prune_from cap size freq in
    if leb size cap then (host, n) ∷ freq else if n == 1 then drop_it else keep_it

unfoldable pub prune : ℕ → Dict Text ℕ → Dict Text ℕ
unfolding prune_from
prune cap freq = if ltb cap (length freq) then prune_from cap (length freq) freq else freq

-- `note_hosts`, with `_HOST_FREQ_CAP` as an argument.
unfoldable pub note_hosts : ℕ → List Text → SearchState → SearchState
unfolding bump_all prune
note_hosts cap hosts s =
    commit (record s.state { host_freq = prune cap (bump_all hosts s.state.host_freq) }) s

abbrev pub host_freq_cap : ℕ
host_freq_cap = 50_000

unfoldable pub seen_times : ℕ → Dict Text ℕ → ℕ
unfolding count_if
seen_times n freq = count_if (λ e. e.1 == n) freq

-- `coverage_counts`: observed, f1, f2
unfoldable pub coverage_counts : SearchState → ℕ × ℕ × ℕ
unfolding seen_times
coverage_counts s =
    let freq = s.state.host_freq in (length freq, seen_times 1 freq, seen_times 2 freq)

-- A fraction with a positive denominator.
pub record Ratio : Type 0 where
  pub num : ℕ
  pub den : ℕ

-- `chao1`; `f1 * (f1 - 1)` is not negative in Python either, since it is 0 at 0.
unfoldable pub chao1 : ℕ → ℕ → ℕ → Ratio
chao1 observed f1 f2 =
    if observed == 0
    then record { num = 0; den = 1 }
    else if ltb 0 f2
    then record { num = observed * (2 * f2) + f1 * f1; den = 2 * f2 }
    else record { num = observed * 2 + f1 * (f1 - 1); den = 2 }

-- `saturation`: `min(1.0, observed / est)`
unfoldable pub saturation : ℕ → ℕ → ℕ → Ratio
unfolding chao1
saturation observed f1 f2 =
    let est = chao1 observed f1 f2 in
    if est.num == 0
    then record { num = 1; den = 1 }
    else record { num = min est.num (observed * est.den); den = est.num }
