-- ===== src/Search/Phrases.antt =====
-- Per-phrase paging and productivity of `SearchState`: `current_page`, `record_page_result`,
-- `record_yield`, `record_yields`, `effective_ttl`. `alpha`, `ewma` and the multiplier's cap are in
-- millionths, times in microseconds.
pub mod Laws
use ubd_probe.Prelude.{
  ℕ, ◌+◌, ◌-◌, ◌*◌, ◌/◌, ◌^◌, min, max, Bool, true, false, ◌&&◌, ◌||◌, not, Option, none, some,
  List, [], ◌∷◌, ltb, leb, ◌==◌, nat_eq, list_eq, if◌then◌else◌,
}
use ubd_probe.Prelude.Dict.{Dict, lookup, insert}
use ubd_probe.Prelude.Text.{Text}
use ubd_probe.Search.State.{PageEntry, PhraseStats, SearchData, SearchState, commit, key}
use ubd_probe.Search.Backends.{unit}

unfoldable pub page_entry : Text → SearchState → Option PageEntry
page_entry phrase s = lookup (key phrase 1) s.state.phrase_pages

unfoldable pub current_page : Text → SearchState → ℕ
unfolding page_entry
current_page phrase s = elim (page_entry phrase s) [ none ↦ 1 | some e ↦ e.page ]

abbrev pub dry_of : Option PageEntry → ℕ
dry_of none = 0
dry_of (some e) = e.dry

-- The page to fetch next and the dry count, from the count before.
unfoldable pub next_page : ℕ → ℕ → ℕ → ℕ → PageEntry
next_page prev_dry page new_count page_cap =
    if ltb 0 new_count
    then record { page = if ltb page page_cap then page + 1 else 1; dry = 0 }
    else if leb 2 (prev_dry + 1) || leb page_cap page
    then record { page = 1; dry = 0 }
    else record { page = page + 1; dry = prev_dry + 1 }

unfoldable pub record_page_result : Text → ℕ → ℕ → ℕ → SearchState → SearchState
unfolding page_entry next_page insert key
record_page_result phrase page new_count page_cap s =
    let entry = next_page (dry_of (page_entry phrase s)) page new_count page_cap in
    commit (record s.state { phrase_pages = insert (key phrase 1) entry s.state.phrase_pages }) s

abbrev pub stats_or_new : Option PhraseStats → PhraseStats
stats_or_new none = record { tries = 0; ewma = 0; dry_streak = 0 }
stats_or_new (some e) = e

-- The new statistics of a phrase after a pass with `new_count` candidates.
unfoldable pub updated_stats : ℕ → ℕ → PhraseStats → PhraseStats
updated_stats alpha new_count e = record {
  tries = e.tries + 1;
  ewma = ((unit - alpha) * e.ewma + alpha * (new_count * unit)) / unit;
  dry_streak = if ltb 0 new_count then 0 else e.dry_streak + 1;
}

-- The body of both methods, on the table of statistics.
unfoldable pub note_yield : ℕ → Text → ℕ → Dict Text PhraseStats → Dict Text PhraseStats
unfolding lookup insert updated_stats key
note_yield alpha phrase new_count stats =
    insert (key phrase 1)
      (updated_stats alpha new_count (stats_or_new (lookup (key phrase 1) stats))) stats

unfoldable pub record_yield : ℕ → Text → ℕ → SearchState → SearchState
unfolding note_yield
record_yield alpha phrase new_count s =
    commit
      (record s.state { phrase_stats = note_yield alpha phrase new_count s.state.phrase_stats }) s

note_yields : ℕ → List (Text × ℕ) → Dict Text PhraseStats → Dict Text PhraseStats
unfolding note_yield
note_yields alpha [] stats = stats
note_yields alpha ((phrase, n) ∷ rest) stats =
    note_yields alpha rest (note_yield alpha phrase n stats)

-- The batch: one `_save` for all phrases.
unfoldable pub record_yields : ℕ → List (Text × ℕ) → SearchState → SearchState
unfolding note_yields
record_yields alpha new_by_phrase s =
    commit (record s.state { phrase_stats = note_yields alpha new_by_phrase s.state.phrase_stats })
      s

-- `_DRY_EPSILON`, 0.05
abbrev pub dry_epsilon : ℕ
dry_epsilon = 50_000

-- `min(mult_cap, 2.0 ** max(0, dry - cold_tries + 1))`, in millionths
unfoldable pub dry_factor : ℕ → ℕ → ℕ → ℕ
dry_factor cold_tries mult_cap dry = min mult_cap (unit * 2 ^ (dry + 1 - cold_tries))

unfoldable pub stats_ttl : Option PhraseStats → ℕ → ℕ → ℕ → ℕ
unfolding dry_factor
stats_ttl none base_ttl cold_tries mult_cap = base_ttl
stats_ttl (some e) base_ttl cold_tries mult_cap =
    if ltb e.tries cold_tries
    then base_ttl
    else if leb dry_epsilon e.ewma
    then base_ttl
    else base_ttl * dry_factor cold_tries mult_cap e.dry_streak / unit

unfoldable pub effective_ttl : Text → ℕ → ℕ → ℕ → SearchState → ℕ
effective_ttl phrase base_ttl cold_tries mult_cap s =
    stats_ttl (lookup (key phrase 1) s.state.phrase_stats) base_ttl cold_tries mult_cap
