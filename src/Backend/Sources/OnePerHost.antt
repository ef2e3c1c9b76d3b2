-- ===== src/Backend/Sources/OnePerHost.antt =====
-- `create_source` and `get_or_create_source_by_ref`, and the claim of their comments: one active
-- website source per host.
use mathlib.Core.Path.{subst}
use ubd_probe.Prelude.{
  ℕ, ◌<◌, ◌≡◌, ◌≢◌, ◌⊎◌, inl, inr, refl, sym, ◌∙◌, Bool, true, false, ◌&&◌, Option, none, some,
  List, All, filter, ◌==◌, eq_sound, eq_refl, nat_eq, option_eq, list_eq, if◌then◌else◌, Bool-cases,
  Option-cases, &&-true, arith,
}
use ubd_probe.Prelude.Table.{
  IsChoice, Pairwise, Apart, All-map, All-every, All-both, All-append, filter-All, filter-empty,
  All-kept, Pairwise-append, put, All-put, Pairwise-put, Apart-put, Apart-append,
}
use ubd_probe.Prelude.Text.{Text}
use ubd_probe.Backend.Model.{CreatedBy}
use ubd_probe.Backend.Urlnorm.{source_host}
use ubd_probe.Backend.Sources.{
  SourceType, website, type_eq, Source, SourceCreate, Tables, source_id_of, is_active_website,
  has_host, add_source, same_site, create_source, get_or_create_source_by_ref,
}

-- The site that an active website source stands for.
unfoldable pub site : Source → Option Text
unfolding is_active_website source_host
site s = if is_active_website s then source_host s.url_or_handle else none

-- Two sources do not stand for one site.
abbrev pub Differ : Source → Source → Type 0
Differ s t = (site s ≡ none) ⊎ (site s ≢ site t)

-- The table of the sources as the code means it: ids apart and below the next id, and one active
-- website source per host.
pub record IsOnePerHost (rows : List Source) (next : ℕ) : Type 0 where
  pub apart : Pairwise (Apart source_id_of) rows
  pub below : All (λ s. s.id < next) rows
  pub differ : Pairwise Differ rows

Differ-sym : (s t : Source) → Differ s t → Differ t s
Differ-sym s t (inl e) = elim (Option-cases (site t)) [
  | inl none_t ↦ inl none_t
  | inr (h, some_t) ↦ inr (λ same. absurd (cc))
]
Differ-sym s t (inr off) = inr (λ same. off (sym same))

site_missed :
    (host : Text) (s : Source)
    → (is_active_website s && has_host host s) ≡ false
    → site s ≢ some host
unfolding site has_host
site_missed host s miss same = elim (Bool-cases (is_active_website s)) [
  | inl on ↦
      let own : source_host s.url_or_handle ≡ some host = ground arith in
      let hit : (source_host s.url_or_handle == some host) ≡ true =
        rw own (eq_refl {A = Option Text} (some host)) in
      ground arith
  | inr off ↦ ground arith
]

site-website :
    (s : Source) → s.type ≡ website → s.is_active ≡ true → site s ≡ source_host s.url_or_handle
unfolding site is_active_website
site-website s e on = rw (e, on) refl

site-other : (s : Source) → (s.type == website) ≡ false → site s ≡ none
unfolding site is_active_website
site-other s e = rw e refl

site_cases : (s : Source) → (site s ≡ none) ⊎ (site s ≡ source_host s.url_or_handle)
unfolding site
site_cases s = elim (Bool-cases (is_active_website s)) [
  | inl on ↦ inr (rw on refl)
  | inr off ↦ inl (rw off refl)
]

-- A changed row that differs from all others.
put-IsOnePerHost :
    (new : Source) (rows : List Source) (next : ℕ)
    → IsOnePerHost rows next
    → new.id < next
    → All (Differ new) rows
    → IsOnePerHost (put source_id_of new rows) next
put-IsOnePerHost new rows next h less off = record {
  apart = Apart-put source_id_of new rows h.apart;
  below = All-put source_id_of (λ s. s.id < next) new rows h.below less;
  differ =
      Pairwise-put source_id_of Differ Differ-sym new rows h.apart h.differ
        (All-map rows (λ s d. inr d) off);
}

module _ (pick : List Source → Option Source) (choice : IsChoice pick) where
  -- The scan that finds no source of the site leaves none that has it.
  site_free :
      (url : Text) (rows : List Source)
      → same_site pick website url rows ≡ none
      → (source_host url ≡ none) ⊎ All (λ s. site s ≢ source_host url) rows
  unfolding same_site
  site_free url rows free = elim (Option-cases (source_host url)) [
    | inl none_host ↦ inl none_host
    | inr (host, e) ↦
        let empty : pick (filter (λ s. is_active_website s && has_host host s) rows) ≡ none =
          ground arith in
        inr (
          rw e (
            All-map rows (site_missed host) (
              filter-empty (λ s. is_active_website s && has_host host s) rows
                (choice.missed _ empty))))
  ]

  -- A source with the reference that the scan was made for differs from every other.
  new_differs :
      (new : Source) (rows : List Source)
      → same_site pick new.type new.url_or_handle rows ≡ none
      → All (Differ new) rows
  new_differs new rows free = elim (Bool-cases (new.type == website)) [
    | inr other ↦ All-every (Differ new) rows (λ s. inl (site-other new other))
    | inl web ↦ elim (site_cases new) [
      | inl off ↦ All-every (Differ new) rows (λ s. inl off)
      | inr own ↦
          let scan : same_site pick website new.url_or_handle rows ≡ none =
            subst (λ t. same_site pick t new.url_or_handle rows ≡ none)
              (eq_sound new.type website web) free in
          elim (site_free new.url_or_handle rows scan) [
            | inl none_host ↦ All-every (Differ new) rows (λ s. inl (own ∙ none_host))
            | inr others ↦ All-map rows (λ s off. inr (λ same. off (sym same ∙ own))) others
          ]
    ]
  ]

  add_source-IsOnePerHost :
      (db : Tables) (sent : SourceCreate) (by : CreatedBy)
      → IsOnePerHost db.sources db.next_source
      → same_site pick sent.type sent.url_or_handle db.sources ≡ none
      → IsOnePerHost (add_source db sent by).1.sources (add_source db sent by).1.next_source
  unfolding add_source
  add_source-IsOnePerHost db sent by h free = record {
    apart = Apart-append source_id_of (add_source db sent by).0 db.sources h.apart h.below;
    below =
        All-append _ db.sources _ (All-map db.sources (λ s less. omega arith) h.below)
          (omega arith, tt);
    differ = Pairwise-append Differ db.sources _ h.differ (
        All-map db.sources (λ s d. Differ-sym _ s d)
          (new_differs (add_source db sent by).0 db.sources free));
  }

  pub create_source-IsOnePerHost :
      (db : Tables) (sent : SourceCreate) (by : CreatedBy)
      → IsOnePerHost db.sources db.next_source
      → IsOnePerHost
          (create_source pick db sent by).1.sources
          (create_source pick db sent by).1.next_source
  unfolding create_source
  create_source-IsOnePerHost db sent by h =
      elim (Option-cases (same_site pick sent.type sent.url_or_handle db.sources)) [
        | inr (s, e) ↦ rw (create_source, e) h
        | inl free ↦ rw (create_source, free) (add_source-IsOnePerHost db sent by h free)
      ]

  -- The inactive source of this reference wakes.
  woken-IsOnePerHost :
      (old : Source) (type : SourceType) (url : Text) (rows : List Source) (next : ℕ)
      → IsOnePerHost rows next
      → same_site pick type url rows ≡ none
      → pick (filter (λ s. s.type == type && s.url_or_handle == url) rows) ≡ some old
      → IsOnePerHost (put source_id_of (record old { is_active = true }) rows) next
  woken-IsOnePerHost old type url rows next h free e =
      let matches : Source → Bool = λ s. s.type == type && s.url_or_handle == url in
      let found =
        choice.chosen (λ s. (s.id < next) × (matches s ≡ true)) (filter matches rows) old
          (All-both _ _ (filter matches rows) (All-kept _ matches rows h.below)
            (filter-All matches rows))
          e in
      let both = &&-true (old.type == type) (old.url_or_handle == url) found.1 in
      let scan : same_site pick old.type old.url_or_handle rows ≡ none =
        subst (λ t. same_site pick t old.url_or_handle rows ≡ none)
          (sym (eq_sound old.type type both.0))
          (subst (λ u. same_site pick type u rows ≡ none)
            (sym (eq_sound old.url_or_handle url both.1)) free) in
      put-IsOnePerHost (record old { is_active = true }) rows next h found.0
        (new_differs (record old { is_active = true }) rows scan)

  pub get_or_create-IsOnePerHost :
      (db : Tables) (type : SourceType) (url name : Text) (by : CreatedBy)
      → IsOnePerHost db.sources db.next_source
      → IsOnePerHost
          (get_or_create_source_by_ref pick db type url name by).1.sources
          (get_or_create_source_by_ref pick db type url name by).1.next_source
  unfolding get_or_create_source_by_ref
  get_or_create-IsOnePerHost db type url name by h =
      elim (Option-cases (same_site pick type url db.sources)) [
        | inr (s, e) ↦ rw (get_or_create_source_by_ref, e) h
        | inl free ↦
            elim (Option-cases
              (pick (filter (λ s. s.type == type && s.url_or_handle == url) db.sources))) [
                | inl new ↦
                    rw (get_or_create_source_by_ref, free, new)
                      (add_source-IsOnePerHost db _ by h free)
                | inr (old, e) ↦ elim (Bool-cases old.is_active) [
                  | inl on ↦ rw (get_or_create_source_by_ref, free, e, on) h
                  | inr off ↦
                      rw (get_or_create_source_by_ref, free, e, off)
                        (woken-IsOnePerHost old type url db.sources db.next_source h free e)
                ]
              ]
      ]
