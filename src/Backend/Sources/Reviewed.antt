-- ===== src/Backend/Sources/Reviewed.antt =====
-- The review of a suggestion: what `approve`, `reject` and `delete_source` leave behind.
use mathlib.Core.Path.{subst}
use ubd_probe.Prelude.{
  ℕ, ◌≡◌, ◌⊎◌, inl, inr, refl, sym, ◌∙◌, Bool, true, false, ◌&&◌, Option, none, some, List, filter,
  any, ◌==◌, nat_eq, list_eq, option_eq, eq_refl, Bool-cases, Option-cases, arith,
}
use ubd_probe.Prelude.Table.{
  IsChoice, any-last, any-filter, any-within, row_at, row_at-id, row_at-put, put,
}
use ubd_probe.Prelude.Text.{Text}
use ubd_probe.Backend.Model.{CreatedBy, crawler_suggestion, ok, err, conflict}
use ubd_probe.Backend.Urlnorm.{source_host, normalize_ref}
use ubd_probe.Backend.Sources.{
  SourceType, website, Source, SourceCreate, SuggestedSource, SuggestedSourceCreate,
  SuggestionStatus, add_source, approved, rejected, pending, type_eq, suggestion_eq, Tables,
  suggestion_id_of, get_suggestion, create_source, create_suggestion, is_active_website, has_host,
  same_site,
}
use ubd_probe.Backend.Sources.Review.{reviewed, with_review, approve, reject}

-- An active website source of a host.
unfoldable pub serves : Text → Source → Bool
unfolding is_active_website has_host
serves host s = is_active_website s && has_host host s

-- What a suggestion posts when it is approved.
abbrev pub posted : SuggestedSource → SourceCreate
posted s = record {
  name = s.name;
  type = s.type;
  url_or_handle = s.url_or_handle;
  is_active = true;
}

module _ (pick : List Source → Option Source) where
  -- An approval that is answered without an error has found a pending suggestion, and has added its
  -- source and written its review.
  pub approve-ok :
      (db : Tables) (id by now : ℕ) {s : Source} {next : Tables}
      → approve pick db id by now ≡ ok (s, next)
      → (row : SuggestedSource) × (row_at suggestion_id_of id db.suggestions ≡ some row)
        × (row.status ≡ pending)
        × (s ≡ (create_source pick db (posted row) crawler_suggestion).0)
        × (next
            ≡ with_review
                (reviewed approved by now row)
                (create_source pick db (posted row) crawler_suggestion).1)
  unfolding approve get_suggestion
  approve-ok db id by now {s} {next} e =
      elim (Option-cases (row_at suggestion_id_of id db.suggestions)) [
        | inl gone ↦ absurd (ground arith)
        | inr (row, found) ↦ elim (Bool-cases (row.status == pending)) [
          | inl waiting ↦ (row, found, ground arith, ground arith, ground arith)
          | inr done ↦ absurd (ground arith)
        ]
      ]

pub reject-ok :
    (db : Tables) (id by now : ℕ) {s : SuggestedSource} {next : Tables}
    → reject db id by now ≡ ok (s, next)
    → (row : SuggestedSource) × (row_at suggestion_id_of id db.suggestions ≡ some row)
      × (row.status ≡ pending)
      × (next ≡ with_review (reviewed rejected by now row) db)
unfolding reject get_suggestion
reject-ok db id by now {s} {next} e =
    elim (Option-cases (row_at suggestion_id_of id db.suggestions)) [
      | inl gone ↦ absurd (ground arith)
      | inr (row, found) ↦ elim (Bool-cases (row.status == pending)) [
        | inl waiting ↦ (row, found, ground arith, ground arith)
        | inr done ↦ absurd (ground arith)
      ]
    ]

-- Once the review of a row is written, the suggestion refuses every further review.
written-conflict :
    (pick : List Source → Option Source) (status : SuggestionStatus) (db : Tables)
    (id by now by' now' : ℕ) (row : SuggestedSource)
    → (status == pending) ≡ false
    → row_at suggestion_id_of id db.suggestions ≡ some row
    → (approve pick (with_review (reviewed status by now row) db) id by' now' ≡ err conflict)
      × (reject (with_review (reviewed status by now row) db) id by' now' ≡ err conflict)
unfolding approve reject get_suggestion
written-conflict pick status db id by now by' now' row done found =
    let same = row_at-id suggestion_id_of id db.suggestions row found in
    let again : row_at suggestion_id_of id
          (put suggestion_id_of (reviewed status by now row) db.suggestions)
        ≡ some (reviewed status by now row) =
      subst
        (λ i.
          row_at suggestion_id_of i db.suggestions ≡ some row
          → row_at suggestion_id_of i
              (put suggestion_id_of (reviewed status by now row) db.suggestions)
            ≡ some (reviewed status by now row))
        same (row_at-put suggestion_id_of (reviewed status by now row) db.suggestions row) found in
    rw (approve, reject, again, done) (refl, refl)

-- A host that an active website source serves is suggested no more.
known_host-refused :
    (first : List SuggestedSource → Option SuggestedSource) (db : Tables)
    (sent : SuggestedSourceCreate) (host : Text)
    → sent.type ≡ website
    → source_host sent.url_or_handle ≡ some host
    → any (serves host) db.sources ≡ true
    → create_suggestion first db sent ≡ (none, db)
unfolding create_suggestion serves is_active_website has_host
known_host-refused first db sent host web own served =
    let active = filter (λ s. s.type == website && s.is_active) db.sources in
    let hit : any (λ s. source_host s.url_or_handle == some host) active ≡ true =
      any-within _ _ db.sources served in
    elim (Bool-cases
      (any (λ s. normalize_ref s.url_or_handle == normalize_ref sent.url_or_handle) active)) [
        | inl known ↦ rw (create_suggestion, web, own, known) refl
        | inr other ↦ rw (create_suggestion, web, own, other, hit) refl
      ]

module _ (pick : List Source → Option Source) where
  create_source-suggestions :
      (db : Tables) (sent : SourceCreate) (by : CreatedBy)
      → (create_source pick db sent by).1.suggestions ≡ db.suggestions
  unfolding create_source add_source
  create_source-suggestions db sent by =
      elim (Option-cases (same_site pick sent.type sent.url_or_handle db.sources)) [
        | inl free ↦ rw (create_source, free) refl
        | inr (s, e) ↦ rw (create_source, e) refl
      ]

  -- A suggestion is reviewed once: after an approval or a rejection that is answered without an
  -- error, every further approval and every further rejection of the same suggestion is a conflict.
  pub review_once :
      (db : Tables) (id by now by' now' : ℕ) (next : Tables)
      → ((s : Source) × (approve pick db id by now ≡ ok (s, next)))
        ⊎ ((s : SuggestedSource) × (reject db id by now ≡ ok (s, next)))
      → (approve pick next id by' now' ≡ err conflict) × (reject next id by' now' ≡ err conflict)
  review_once db id by now by' now' next (inl (s, e)) =
      let (row, found, was, made, then_is) = approve-ok pick db id by now e in
      let made_db = (create_source pick db (posted row) crawler_suggestion).1 in
      let still : row_at suggestion_id_of id made_db.suggestions ≡ some row =
        rw (create_source-suggestions db (posted row) crawler_suggestion) found in
      rw then_is (written-conflict pick approved made_db id by now by' now' row refl still)
  review_once db id by now by' now' next (inr (s, e)) =
      let (row, found, was, then_is) = reject-ok db id by now e in
      rw then_is (written-conflict pick rejected db id by now by' now' row refl found)

  same_site-website :
      (type : SourceType) (url : Text) (rows : List Source) (host : Text)
      → type ≡ website
      → source_host url ≡ some host
      → same_site pick type url rows ≡ pick (filter (serves host) rows)
  unfolding same_site serves
  same_site-website type url rows host web own = rw (same_site, web, own) refl

  -- The source that `create_source` gives back for an active website of a host serves that host.
  created-serves :
      (db : Tables) (sent : SourceCreate) (by : CreatedBy) (host : Text)
      → IsChoice pick
      → sent.type ≡ website
      → sent.is_active ≡ true
      → source_host sent.url_or_handle ≡ some host
      → any (serves host) (create_source pick db sent by).1.sources ≡ true
  unfolding create_source add_source same_site serves
  created-serves db sent by host choice web on own =
      elim (Option-cases (same_site pick sent.type sent.url_or_handle db.sources)) [
        | inl free ↦
            rw (create_source, free)
              (any-last (serves host) db.sources (add_source db sent by).0
                (rw (web, on, own) (eq_refl {A = Option Text} (some host))))
        | inr (s, e) ↦
            let picked : pick (filter (serves host) db.sources) ≡ some s =
              sym (same_site-website sent.type sent.url_or_handle db.sources host web own) ∙ e in
            rw (create_source, e)
              (choice.chosen (λ x. any (serves host) db.sources ≡ true)
                (filter (serves host) db.sources) s (any-filter (serves host) db.sources) picked)
      ]

  -- After an approval of a website suggestion with a host, a suggestion of any address of that host is
  -- answered with nothing, and no table changes.
  pub approve-create_suggestion :
      (first : List SuggestedSource → Option SuggestedSource) (db next : Tables) (id by now : ℕ)
      (row : SuggestedSource) (host : Text) (s : Source) (sent : SuggestedSourceCreate)
      → IsChoice pick
      → row_at suggestion_id_of id db.suggestions ≡ some row
      → row.type ≡ website
      → source_host row.url_or_handle ≡ some host
      → approve pick db id by now ≡ ok (s, next)
      → sent.type ≡ website
      → source_host sent.url_or_handle ≡ some host
      → create_suggestion first next sent ≡ (none, next)
  approve-create_suggestion first db next id by now row host s sent choice found web own e same_type
        same_host =
      let (row', found', was, made, then_is) = approve-ok pick db id by now e in
      let row_is : row' ≡ row = cc in
      let served : any (serves host)
            (create_source pick db (posted row) crawler_suggestion).1.sources
          ≡ true =
        created-serves db (posted row) crawler_suggestion host choice web refl own in
      let next_serves : any (serves host) next.sources ≡ true = rw (then_is, row_is) served in
      known_host-refused first next sent host same_type same_host next_serves
