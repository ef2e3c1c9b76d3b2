-- ===== src/Backend/Sources.antt =====
-- backend/app/crud/source.py, suggested_source.py and crawl_state.py: the sources that are crawled,
-- the sources that the crawler suggests, and the cursor of each source's crawl. The calls keep their
-- order; a time is a number, `now` the clock's. Where a query states no order, `pick` is the
-- database's choice of the first row.
pub mod Tests
pub mod Review
pub mod OnePerHost
pub mod Steps
pub mod Reviewed
pub mod Deleted
use mathlib.Core.Path.{◌≡◌}
use ubd_probe.Prelude.{
  ℕ, suc, ◌↔◌, Bool, true, false, ◌&&◌, ◌||◌, not, Option, none, some, List, [], ◌∷◌, ◌++◌, map,
  filter, any, ◌==◌, Eq, nat_beq, nat_eq, list_eq, list_beq, option_eq, if◌then◌else◌, is_some,
  arith,
}
use ubd_probe.Prelude.Table.{row_at, put, drop_at}
use ubd_probe.Prelude.Text.{Text}
use ubd_probe.Backend.Model.{
  CreatedBy, crawler_suggestion, Offer, Result, ok, err, not_found, conflict, integrity_error,
}
use ubd_probe.Backend.Urlnorm.{source_host, normalize_ref}

pub data SourceType : Type 0 where
  website facebook telegram instagram : SourceType

pub data SuggestionStatus : Type 0 where
  pending approved rejected : SuggestionStatus

abbrev type_code : SourceType → ℕ
type_code website = 0
type_code facebook = 1
type_code telegram = 2
type_code instagram = 3

pub type_iff : (a b : SourceType) → (nat_beq (type_code a) (type_code b) ≡ true) ↔ (a ≡ b)
type_iff a b = ground arith

instance abbrev pub type_eq : Eq SourceType
type_eq = record { beq = λ a b. nat_beq (type_code a) (type_code b); beq_iff = type_iff }

abbrev suggestion_code : SuggestionStatus → ℕ
suggestion_code pending = 0
suggestion_code approved = 1
suggestion_code rejected = 2

pub suggestion_iff :
    (a b : SuggestionStatus) → (nat_beq (suggestion_code a) (suggestion_code b) ≡ true) ↔ (a ≡ b)
suggestion_iff a b = ground arith

instance abbrev pub suggestion_eq : Eq SuggestionStatus
suggestion_eq = record {
  beq = λ a b. nat_beq (suggestion_code a) (suggestion_code b);
  beq_iff = suggestion_iff;
}

pub record Source : Type 0 where
  pub id : ℕ
  pub name : Text
  pub type : SourceType
  pub url_or_handle : Text
  pub is_active : Bool
  pub last_crawled_at : Option ℕ
  pub created_by : CreatedBy

pub record SourceCreate : Type 0 where
  pub name : Text
  pub type : SourceType
  pub url_or_handle : Text
  pub is_active : Bool

-- A field of an update: not sent, sent as null, or sent with a value.
pub data Patch (A : Type 0) : Type 0 where
  unset null_value : Patch A
  value : A → Patch A

pub record SourceUpdate : Type 0 where
  pub name : Patch Text
  pub type : Patch SourceType
  pub url_or_handle : Patch Text
  pub is_active : Patch Bool

pub record SuggestedSource : Type 0 where
  pub id : ℕ
  pub name : Text
  pub type : SourceType
  pub url_or_handle : Text
  pub discovered_from_source_id : Option ℕ
  pub discovery_note : Option Text
  pub status : SuggestionStatus
  pub reviewed_by : Option ℕ
  pub reviewed_at : Option ℕ

pub record SuggestedSourceCreate : Type 0 where
  pub name : Text
  pub type : SourceType
  pub url_or_handle : Text
  pub discovered_from_source_id : Option ℕ
  pub discovery_note : Option Text

pub record CrawlState : Type 0 where
  pub source_id : ℕ
  pub last_seen_key : Option Text
  pub last_crawled_at : Option ℕ

pub record Tables : Type 0 where
  pub sources : List Source
  pub next_source : ℕ
  pub suggestions : List SuggestedSource
  pub next_suggestion : ℕ
  pub crawl_states : List CrawlState
  pub offers : List Offer

abbrev pub source_id_of : Source → ℕ
source_id_of s = s.id

abbrev pub suggestion_id_of : SuggestedSource → ℕ
suggestion_id_of s = s.id

-- An active website source.
unfoldable pub is_active_website : Source → Bool
is_active_website s = s.type == website && s.is_active

-- `if host: … source_host(s.url_or_handle) == host`
unfoldable pub has_host : Text → Source → Bool
unfolding list_beq source_host
has_host host s = source_host s.url_or_handle == some host

unfoldable pub add_source : Tables → SourceCreate → CreatedBy → Source × Tables
add_source db posted created_by =
    let obj : Source = record {
      id = db.next_source;
      name = posted.name;
      type = posted.type;
      url_or_handle = posted.url_or_handle;
      is_active = posted.is_active;
      last_crawled_at = none;
      created_by = created_by;
    } in
    (obj, record db { sources = db.sources ++ (obj ∷ []); next_source = suc db.next_source })

unfoldable pub get_source : Tables → ℕ → Result Source
unfolding row_at
get_source db id = elim (row_at source_id_of id db.sources) [ none ↦ err not_found | some s ↦ ok s ]

unfoldable pub get_suggestion : Tables → ℕ → Result SuggestedSource
unfolding row_at
get_suggestion db id = elim (row_at suggestion_id_of id db.suggestions) [
  | none ↦ err not_found
  | some s ↦ ok s
]

module _ (pick : List Source → Option Source) where
  -- The active website source of the host of a reference, which both ways to add a source give
  -- back first.
  unfoldable pub same_site : SourceType → Text → List Source → Option Source
  unfolding filter is_active_website has_host source_host
  same_site type url rows =
      if type == website
      then (elim (source_host url) [
        | none ↦ none
        | some host ↦ pick (filter (λ s. is_active_website s && has_host host s) rows)
      ])
      else none

  unfoldable pub create_source : Tables → SourceCreate → CreatedBy → Source × Tables
  unfolding same_site add_source
  create_source db posted created_by =
      elim (same_site posted.type posted.url_or_handle db.sources) [
        | some s ↦ (s, db)
        | none ↦ add_source db posted created_by
      ]

  unfoldable pub get_or_create_source_by_ref :
      Tables → SourceType → Text → Text → CreatedBy → Source × Tables
  unfolding same_site filter put add_source list_beq
  get_or_create_source_by_ref db type url name created_by = elim (same_site type url db.sources) [
    | some s ↦ (s, db)
    | none ↦ elim (pick (filter (λ s. s.type == type && s.url_or_handle == url) db.sources)) [
      | some existing ↦
          if existing.is_active
          then (existing, db)
          else (let obj : Source = record existing { is_active = true } in
              (obj, record db { sources = put source_id_of obj db.sources }))
      | none ↦
          add_source db (record { name = name; type = type; url_or_handle = url; is_active = true })
            created_by
    ]
  ]

unfoldable pub create_suggestion :
    (List SuggestedSource → Option SuggestedSource)
    → Tables
    → SuggestedSourceCreate
    → Option SuggestedSource × Tables
unfolding filter any normalize_ref source_host list_beq
create_suggestion first db posted =
    let active = filter (λ s. s.type == posted.type && s.is_active) db.sources in
    let ref = normalize_ref posted.url_or_handle in
    let host = source_host posted.url_or_handle in
    let obj : SuggestedSource = record {
      id = db.next_suggestion;
      name = posted.name;
      type = posted.type;
      url_or_handle = posted.url_or_handle;
      discovered_from_source_id = posted.discovered_from_source_id;
      discovery_note = posted.discovery_note;
      status = pending;
      reviewed_by = none;
      reviewed_at = none;
    } in
    if any (λ s. normalize_ref s.url_or_handle == ref) active
    then (none, db)
    else if posted.type == website
        && is_some host
        && any (λ s. source_host s.url_or_handle == host) active
    then (none, db)
    else elim (first (
        filter (λ s. s.type == posted.type && s.url_or_handle == posted.url_or_handle)
          db.suggestions)) [
            | some existing ↦ (some existing, db)
            | none ↦ (
              some obj,
              record db {
                suggestions = db.suggestions ++ (obj ∷ []);
                next_suggestion = suc db.next_suggestion;
              },
            )
          ]
