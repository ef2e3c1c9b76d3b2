-- ===== src/Search/State.antt =====
-- `SearchState` of crawler/crawler/discovery/search_state.py: the JSON object, the file that
-- `_save` writes, and the flag that is kept in memory only. Times and durations are whole
-- microseconds, ratios are millionths.
pub mod Keys
use ubd_probe.Prelude.{ℕ, Bool, true, false, List, [], ◌++◌, leb, if◌then◌else◌}
use ubd_probe.Prelude.Dict.{Dict}
use ubd_probe.Prelude.Text.{Text, codes, lower, strip, decimal}

-- An entry of `backends`.
pub record Backend : Type 0 where
  pub fails : ℕ
  pub cooldown_until : ℕ
  pub quarantined_until : ℕ
  pub next_reprobe_at : ℕ

-- What is cached of a `SourceCandidate`.
pub record Candidate : Type 0 where
  pub name : Text
  pub type : Text
  pub url_or_handle : Text

pub record CacheEntry : Type 0 where
  pub ts : ℕ
  pub harvested : Bool
  pub candidates : List Candidate

-- An entry of `phrase_pages`.
pub record PageEntry : Type 0 where
  pub page : ℕ
  pub dry : ℕ

-- An entry of `phrase_stats`; `ewma` is in millionths.
pub record PhraseStats : Type 0 where
  pub tries : ℕ
  pub ewma : ℕ
  pub dry_streak : ℕ

-- The JSON object `_data`.
pub record SearchData : Type 0 where
  pub cursor : ℕ
  pub grid_cursor : ℕ
  pub site_cursor : ℕ
  pub approved_cursor : ℕ
  pub next_allowed_at : ℕ
  pub backends : Dict Text Backend
  pub cache : Dict Text CacheEntry
  pub phrase_pages : Dict Text PageEntry
  pub phrase_stats : Dict Text PhraseStats
  pub host_freq : Dict Text ℕ

-- `_EMPTY`
abbrev pub empty : SearchData
empty = record {
  cursor = 0;
  grid_cursor = 0;
  site_cursor = 0;
  approved_cursor = 0;
  next_allowed_at = 0;
  backends = [];
  cache = [];
  phrase_pages = [];
  phrase_stats = [];
  host_freq = [];
}

-- `_data`, the file's content, and `_degraded`.
pub record SearchState : Type 0 where
  pub state : SearchData
  pub disk : SearchData
  pub degraded : Bool

abbrev pub fresh_state : SearchState
fresh_state = record { state = empty; disk = empty; degraded = false }

-- `_save`
abbrev pub save : SearchState → SearchState
save s = record s { disk = s.state }

-- A mutation of `_data` that ends in `_save`.
abbrev pub commit : SearchData → SearchState → SearchState
commit d s = save (record s { state = d })

-- `_key`
unfoldable pub key : Text → ℕ → Text
unfolding strip lower decimal
key keyword page =
    let base = lower (strip keyword) in
    if leb page 1 then base else base ++ (codes "#p" ++ decimal page)

unfoldable pub set_cursor : ℕ → SearchState → SearchState
set_cursor value s = commit (record s.state { cursor = value }) s

unfoldable pub set_grid_cursor : ℕ → SearchState → SearchState
set_grid_cursor value s = commit (record s.state { grid_cursor = value }) s

unfoldable pub set_site_cursor : ℕ → SearchState → SearchState
set_site_cursor value s = commit (record s.state { site_cursor = value }) s

unfoldable pub set_approved_cursor : ℕ → SearchState → SearchState
set_approved_cursor value s = commit (record s.state { approved_cursor = value }) s

unfoldable pub mark_degraded : SearchState → SearchState
mark_degraded s = record s { degraded = true }

unfoldable pub clear_degraded : SearchState → SearchState
clear_degraded s = record s { degraded = false }
