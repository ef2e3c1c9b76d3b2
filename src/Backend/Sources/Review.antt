-- ===== src/Backend/Sources/Review.antt =====
-- backend/app/crud/source.py, suggested_source.py and crawl_state.py: the update and the deletion of
-- a source, the review of a suggestion, the listings and the crawl cursor.
use ubd_probe.Prelude.{
  ℕ, Bool, true, false, ◌&&◌, ◌||◌, not, Option, none, some, List, [], ◌∷◌, map, filter, find?,
  take, is_some, ◌==◌, nat_eq, option_eq, if◌then◌else◌,
}
use ubd_probe.Prelude.Table.{row_at, put, drop_at}
use ubd_probe.Prelude.Text.{Text}
use ubd_probe.Backend.Model.{crawler_suggestion, Offer, Result, ok, err, conflict, integrity_error}
use ubd_probe.Backend.Sources.{
  Source, SourceUpdate, Patch, unset, null_value, value, SuggestedSource, SuggestionStatus, pending,
  approved, rejected, suggestion_eq, CrawlState, Tables, source_id_of, suggestion_id_of,
  is_active_website, create_source, get_source, get_suggestion,
}

-- The value that a patched field gets, and whether the column refuses it.
abbrev pub patched : {A : Type 0} → Patch A → A → A
patched unset old = old
patched null_value old = old
patched (value new) old = new

abbrev pub is_null : {A : Type 0} → Patch A → Bool
is_null unset = false
is_null null_value = true
is_null (value new) = false

abbrev pub updated_source : SourceUpdate → Source → Source
updated_source sent s = record s {
  name = patched sent.name s.name;
  type = patched sent.type s.type;
  url_or_handle = patched sent.url_or_handle s.url_or_handle;
  is_active = patched sent.is_active s.is_active;
}

-- All four columns refuse a null.
unfoldable pub update_source : Tables → ℕ → SourceUpdate → Result (Source × Tables)
unfolding get_source row_at put
update_source db id sent = elim (get_source db id) [
  | err e ↦ err e
  | ok s ↦
      if is_null sent.name
        || is_null sent.type
        || is_null sent.url_or_handle
        || is_null sent.is_active
      then err integrity_error
      else ok (
        updated_source sent s,
        record db { sources = put source_id_of (updated_source sent s) db.sources },
      )
]

abbrev pub orphan_offer : ℕ → Offer → Offer
orphan_offer id o = if o.source_id == some id then record o { source_id = none } else o

abbrev pub orphan_suggestion : ℕ → SuggestedSource → SuggestedSource
orphan_suggestion id s =
    if s.discovered_from_source_id == some id
    then record s { discovered_from_source_id = none }
    else s

-- The tables without the source: its cursor is dropped, its offers and its suggestions stay as
-- orphans.
unfoldable pub without_source : ℕ → Tables → Tables
unfolding drop_at filter
without_source id db = record db {
  crawl_states = filter (λ c. not (c.source_id == id)) db.crawl_states;
  offers = map (orphan_offer id) db.offers;
  suggestions = map (orphan_suggestion id) db.suggestions;
  sources = drop_at source_id_of id db.sources;
}

unfoldable pub delete_source : Tables → ℕ → Result Tables
unfolding get_source row_at without_source
delete_source db id = elim (get_source db id) [ err e ↦ err e | ok s ↦ ok (without_source id db) ]

abbrev pub reviewed : SuggestionStatus → ℕ → ℕ → SuggestedSource → SuggestedSource
reviewed status by now s = record s {
  status = status;
  reviewed_by = some by;
  reviewed_at = some now;
}

-- The suggestion with its new status, in the tables that the source was added to.
abbrev pub with_review : SuggestedSource → Tables → Tables
with_review s db = record db { suggestions = put suggestion_id_of s db.suggestions }

module _ (pick : List Source → Option Source) where
  unfoldable pub approve : Tables → ℕ → ℕ → ℕ → Result (Source × Tables)
  unfolding get_suggestion row_at create_source put
  approve db id by now = elim (get_suggestion db id) [
    | err e ↦ err e
    | ok s ↦
        let made =
          create_source pick db
            (record {
              name = s.name;
              type = s.type;
              url_or_handle = s.url_or_handle;
              is_active = true;
            })
            crawler_suggestion in
        if s.status == pending
        then ok (made.0, with_review (reviewed approved by now s) made.1)
        else err conflict
  ]

unfoldable pub reject : Tables → ℕ → ℕ → ℕ → Result (SuggestedSource × Tables)
unfolding get_suggestion row_at put
reject db id by now = elim (get_suggestion db id) [
  | err e ↦ err e
  | ok s ↦
      if s.status == pending
      then ok (reviewed rejected by now s, with_review (reviewed rejected by now s) db)
      else err conflict
]

-- The listings, without the order by the time of creation, which the rows do not hold.
unfoldable pub list_sources : Tables → Option Bool → List Source
unfolding filter
list_sources db none = db.sources
list_sources db (some true) = filter (λ s. s.is_active) db.sources
list_sources db (some false) = filter (λ s. not s.is_active) db.sources

unfoldable pub list_suggestions : Tables → Option SuggestionStatus → List SuggestedSource
unfolding filter
list_suggestions db none = db.suggestions
list_suggestions db (some status) = filter (λ s. s.status == status) db.suggestions

unfoldable pub list_uncrawled_website_sources : Tables → ℕ → List Source
unfolding filter is_active_website
list_uncrawled_website_sources db limit =
    take limit (filter (λ s. is_active_website s && not (is_some s.last_crawled_at)) db.sources)

unfoldable pub get_crawl_state : Tables → ℕ → Result (Option CrawlState)
unfolding get_source row_at find?
get_crawl_state db id = elim (get_source db id) [
  | err e ↦ err e
  | ok s ↦ ok (find? (λ c. c.source_id == id) db.crawl_states)
]

-- The cursor of the source, changed or new at the end; a source has one row at most.
unfoldable pub put_cursor : CrawlState → List CrawlState → List CrawlState
put_cursor c [] = c ∷ []
put_cursor c (x ∷ rows) =
    let rest = put_cursor c rows in if x.source_id == c.source_id then c ∷ rows else x ∷ rest

unfoldable pub upsert_crawl_state : Tables → ℕ → Option Text → ℕ → Result (CrawlState × Tables)
unfolding get_source row_at put put_cursor
upsert_crawl_state db id last_seen_key now =
    let obj : CrawlState = record {
      source_id = id;
      last_seen_key = last_seen_key;
      last_crawled_at = some now;
    } in
    elim (get_source db id) [
      | err e ↦ err e
      | ok s ↦ ok (
        obj,
        record db {
          crawl_states = put_cursor obj db.crawl_states;
          sources = put source_id_of (record s { last_crawled_at = some now }) db.sources;
        },
      )
    ]
