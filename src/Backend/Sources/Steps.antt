-- ===== src/Backend/Sources/Steps.antt =====
-- The operations on the sources as steps between tables: what is true of every table that they reach.
use ubd_probe.Prelude.{ℕ, ◌≡◌, ap, not, Option, List, ◌==◌, nat_eq, Option-cases, arith}
use ubd_probe.Prelude.Table.{IsChoice, All-kept, Pairwise-filter, row_at, drop_at}
use ubd_probe.Prelude.Text.{Text}
use ubd_probe.Backend.Model.{CreatedBy, crawler_suggestion, ok}
use ubd_probe.Backend.Sources.{
  SourceType, Source, SourceCreate, SuggestedSource, SuggestedSourceCreate, suggestion_eq, Tables,
  source_id_of, get_source, create_source, get_or_create_source_by_ref, create_suggestion,
}
use ubd_probe.Backend.Sources.Review.{without_source, delete_source, approve, reject}
use ubd_probe.Backend.Sources.Reviewed.{posted, approve-ok, reject-ok}
use ubd_probe.Backend.Sources.OnePerHost.{
  IsOnePerHost, create_source-IsOnePerHost, get_or_create-IsOnePerHost,
}

pub deleted-tables :
    (db : Tables) (id : ℕ) {next : Tables}
    → delete_source db id ≡ ok next
    → next ≡ without_source id db
unfolding delete_source get_source
deleted-tables db id e = ground (arith, Option-cases (row_at source_id_of id db.sources))

module _ (pick : List Source → Option Source)
    (first : List SuggestedSource → Option SuggestedSource) where
  -- One request that adds, suggests, reviews or deletes a source, when it is answered without an
  -- error. An update of a source by hand is no step here.
  pub data Step (db : Tables) : Tables → Type 0 where
    created : (sent : SourceCreate) (by : CreatedBy) → Step db (create_source pick db sent by).1
    referred :
        (type : SourceType) (url name : Text) (by : CreatedBy)
        → Step db (get_or_create_source_by_ref pick db type url name by).1
    suggested : (sent : SuggestedSourceCreate) → Step db (create_suggestion first db sent).1
    accepted :
        {next : Tables} (id by now : ℕ) (s : Source)
        → approve pick db id by now ≡ ok (s, next)
        → Step db next
    refused :
        {next : Tables} (id by now : ℕ) (s : SuggestedSource)
        → reject db id by now ≡ ok (s, next)
        → Step db next
    deleted : {next : Tables} (id : ℕ) → delete_source db id ≡ ok next → Step db next

  pub data Reach (start : Tables) : Tables → Type 0 where
    here : Reach start start
    after : {db next : Tables} → Reach start db → Step db next → Reach start next

  abbrev pub IsSound : Tables → Type 0
  IsSound db = IsOnePerHost db.sources db.next_source

  suggested-sources :
      (db : Tables) (sent : SuggestedSourceCreate)
      → ((create_suggestion first db sent).1.sources ≡ db.sources)
        × ((create_suggestion first db sent).1.next_source ≡ db.next_source)
  unfolding create_suggestion
  suggested-sources db sent = ground arith

  approved-sources :
      (db : Tables) (id by now : ℕ) (s : Source) (next : Tables)
      → approve pick db id by now ≡ ok (s, next)
      → (sent : SourceCreate) × (next.sources
          ≡ (create_source pick db sent crawler_suggestion).1.sources)
        × (next.next_source ≡ (create_source pick db sent crawler_suggestion).1.next_source)
  approved-sources db id by now s next e =
      let (row, found, was, made, then_is) = approve-ok pick db id by now e in
      (
        posted row,
        ap (λ (t : Tables). t.sources) then_is,
        ap (λ (t : Tables). t.next_source) then_is,
      )

  without_source-IsSound : (db : Tables) (id : ℕ) → IsSound db → IsSound (without_source id db)
  unfolding without_source drop_at
  without_source-IsSound db id h = record {
    apart = Pairwise-filter _ (λ s. not (s.id == id)) db.sources h.apart;
    below = All-kept _ (λ s. not (s.id == id)) db.sources h.below;
    differ = Pairwise-filter _ (λ s. not (s.id == id)) db.sources h.differ;
  }

  module _ (choice : IsChoice pick) where
    Step-IsSound : {db next : Tables} → Step db next → IsSound db → IsSound next
    Step-IsSound {db} (created sent by) h = create_source-IsOnePerHost pick choice db sent by h
    Step-IsSound {db} (referred type url name by) h =
        get_or_create-IsOnePerHost pick choice db type url name by h
    Step-IsSound {db} (suggested sent) h =
        let same = suggested-sources db sent in rw (same.0, same.1) h
    Step-IsSound {db} {next} (accepted id by now s e) h =
        let (sent, rows, count) = approved-sources db id by now s next e in
        rw (rows, count) (create_source-IsOnePerHost pick choice db sent crawler_suggestion h)
    Step-IsSound {db} (refused id by now s e) h =
        let (row, found, was, then_is) = reject-ok db id by now e in rw then_is h
    Step-IsSound {db} (deleted id e) h =
        rw (deleted-tables db id e) (without_source-IsSound db id h)

    -- From tables with unique ids and one active website source per host, every sequence of requests
    -- that add, suggest, review or delete sources reaches only such tables, whichever first row the
    -- database picks.
    pub Reach-IsSound : {start db : Tables} → IsSound start → Reach start db → IsSound db
    Reach-IsSound h here = h
    Reach-IsSound h (after before step) = Step-IsSound step (Reach-IsSound h before)
