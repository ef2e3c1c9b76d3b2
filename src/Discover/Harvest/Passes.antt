-- ===== src/Discover/Harvest/Passes.antt =====
-- The account over the pages of a candidate and over the candidates of a pass.
use mathlib.Core.Path.{subst}
use ubd_probe.Prelude.{
  ℕ, ◌≡◌, ◌⊎◌, refl, ◌∙◌, Bool, false, ◌&&◌, ◌||◌, not, List, [], ◌∷◌, contains, nat_eq, list_eq,
  Bool-cases, Option-cases, inl, inr, arith,
}
use ubd_probe.Prelude.Text.{Text, codes, join}
use ubd_probe.Hosts.{bare_host}
use ubd_probe.Crawl.Registry.{Registry, record_crawl, media_block_due, editorial_block_due}
use ubd_probe.Discover.Types.{SourceCandidate, RawItem}
use ubd_probe.Discover.Ref.{normalize_ref}
use ubd_probe.Discover.Blocklist.{is_blocked_host, block_media}
use ubd_probe.Discover.Select.{is_website}
use ubd_probe.Discover.Harvest.{Parts, Settings, World, Summary, meet}
use ubd_probe.Discover.Harvest.Pages.{is_editorial_page, is_news_portal_page, process_page}
use ubd_probe.Discover.Harvest.Run.{
  Net, plan, pin_lang, block_host, block_portal, one_error, texts, Visit, leaves, goes_on, visit,
  walk_pages, harvest_one, note_crawl, run_one, merged, work,
}
use ubd_probe.Discover.Harvest.Account.{
  Follows, Follows-trans, Follows-same, Follows-refl, meet-Follows, process_page-After,
}

Visit-cases :
    (v : Visit)
    → ((left : World) × (v ≡ leaves left))
      ⊎ ((shown : Bool) × (next : World) × (counted : Summary) × (v ≡ goes_on shown next counted))
Visit-cases (leaves left) = inl (left, refl)
Visit-cases (goes_on shown next counted) = inr (shown, next, counted, refl)

-- A step that changes stores only.
record IsQuiet (w w' : World) : Type 0 where
  offers : w'.offers ≡ w.offers
  suggestions : w'.suggestions ≡ w.suggestions
  known : w'.known ≡ w.known

quiet : (w w' : World) (s : Summary) → IsQuiet w w' → Follows w s w' s
quiet w w' s h = Follows-same w w' s h.offers h.suggestions h.known

same_as : {w v v' : World} → IsQuiet v v' → IsQuiet w v → IsQuiet w v'
same_as h k = record {
  offers = h.offers ∙ k.offers;
  suggestions = h.suggestions ∙ k.suggestions;
  known = h.known ∙ k.known;
}

failed : (w : World) (s : Summary) → Follows w s w (one_error s)
failed w s = record {
  offers = refl;
  suggestions = refl;
  errors = omega arith;
  once = λ o. o;
  grows = λ ref e. e;
}

pin_lang-IsQuiet : (url : Text) (w : World) → IsQuiet w (pin_lang url w)
unfolding pin_lang
pin_lang-IsQuiet url w = elim (Option-cases w.lang_hosts) [
  | inl missing ↦
      rw (pin_lang, missing) (record { offers = refl; suggestions = refl; known = refl })
  | inr (hosts, e) ↦ rw (pin_lang, e) (record { offers = refl; suggestions = refl; known = refl })
]

abbrev pub nothing : Summary
nothing = record { offers = 0; suggestions = 0; errors = 0 }

module _ (net : Net) where
  block_host-IsQuiet :
      (host : Text) (r : Registry) (w : World) → IsQuiet w (block_host net host r w)
  unfolding block_host
  block_host-IsQuiet host r w = elim (Option-cases net.media_blocker) [
    | inl missing ↦
        rw (block_host, missing) (record { offers = refl; suggestions = refl; known = refl })
    | inr (accepts, e) ↦ elim (Bool-cases (block_media (accepts host) host w.stores.blocks).0) [
      | inl blocked ↦
          rw (block_host, e, blocked) (record { offers = refl; suggestions = refl; known = refl })
      | inr refused ↦
          rw (block_host, e, refused) (record { offers = refl; suggestions = refl; known = refl })
    ]
  ]

  block_portal-IsQuiet :
      (cand : SourceCandidate) (items : List RawItem) (w : World)
      → IsQuiet w (block_portal net cand items w)
  unfolding block_portal
  block_portal-IsQuiet cand items w = elim (Option-cases w.stores.registry) [
    | inl missing ↦
        rw (block_portal, missing) (record { offers = refl; suggestions = refl; known = refl })
    | inr (r, e) ↦
        elim (Bool-cases
          (is_news_portal_page items && editorial_block_due (bare_host cand.url_or_handle) r)) [
            | inl due ↦
                rw (block_portal, e, due)
                  (same_as (block_host-IsQuiet (bare_host cand.url_or_handle) r w)
                    (record { offers = refl; suggestions = refl; known = refl }))
            | inr spared ↦
                rw (block_portal, e, spared)
                  (record { offers = refl; suggestions = refl; known = refl })
          ]
  ]

  module _ (parts : Parts) (settings : Settings) where
    note_crawl-IsQuiet :
        (cand : SourceCandidate) (now : ℕ) (structural : Bool) (s : Summary) (w : World)
        → IsQuiet w (note_crawl net parts settings cand now structural s w)
    unfolding note_crawl
    note_crawl-IsQuiet cand now structural s w = elim (Option-cases w.stores.registry) [
      | inl missing ↦
          rw (note_crawl, missing) (record { offers = refl; suggestions = refl; known = refl })
      | inr (r, e) ↦
          let host = bare_host cand.url_or_handle in
          let next = record_crawl host s.offers s.errors structural now r in
          elim (Bool-cases (is_website cand)) [
            | inr other ↦
                rw (note_crawl, e, other)
                  (record { offers = refl; suggestions = refl; known = refl })
            | inl web ↦
                elim (Bool-cases (media_block_due host settings.media_autoblock_crawls next)) [
                  | inl due ↦
                      rw (note_crawl, e, web, due)
                        (same_as (block_host-IsQuiet host next _)
                          (record { offers = refl; suggestions = refl; known = refl }))
                  | inr early ↦
                      rw (note_crawl, e, web, early)
                        (record { offers = refl; suggestions = refl; known = refl })
                ]
          ]
    ]

    -- What one page leaves behind keeps the account.
    abbrev VisitFollows : World → Summary → Visit → Type 0
    VisitFollows w s (leaves left) = Follows w s left s
    VisitFollows w s (goes_on shown next counted) = Follows w s next counted

    visit-Follows :
        (cand : SourceCandidate) (url : Text) (structural : Bool) (w : World) (s : Summary)
        → VisitFollows (meet parts w) s (visit net parts settings cand url structural w s)
    unfolding visit
    visit-Follows cand url structural before s =
        let w = meet parts before in
        elim (Option-cases (net.fetch cand.type url)) [
          | inl down ↦ rw (visit, down) (failed w s)
          | inr (items, e) ↦
              let page = process_page parts settings cand items w s in
              let p = page.1 in
              let read = process_page-After parts settings cand items w s in
              elim (Bool-cases (net.is_non_ukrainian (join (codes " ") (texts items)))) [
                | inl foreign ↦
                    rw (visit, e, foreign) (quiet w _ s (pin_lang-IsQuiet cand.url_or_handle w))
                | inr ours ↦
                    elim (Bool-cases (
                      settings.editorial_gate_enabled
                      && not structural
                      && is_editorial_page items)) [
                        | inl editorial ↦
                            rw (visit, e, ours, editorial)
                              (quiet w _ s (block_portal-IsQuiet cand items w))
                        | inr commercial ↦ elim (Bool-cases p.raised) [
                          | inl raised ↦
                              rw (visit, e, ours, commercial, raised)
                                (Follows-trans w s p.world p.summary p.world (one_error p.summary)
                                  read (failed p.world p.summary))
                          | inr fine ↦ rw (visit, e, ours, commercial, fine) read
                        ]
                      ]
              ]
        ]

    walk_pages-Follows :
        (cand : SourceCandidate) (urls : List Text) (structural : Bool) (w : World) (s : Summary)
        → Follows w s
            (walk_pages net parts settings cand urls structural w s).1
            (walk_pages net parts settings cand urls structural w s).2
    unfolding walk_pages
    walk_pages-Follows cand [] structural w s = Follows-refl w s
    walk_pages-Follows cand (url ∷ urls) structural w s =
        let met = meet parts w in
        let v = visit net parts settings cand url structural w s in
        let one = visit-Follows cand url structural w s in
        elim (Visit-cases v) [
          | inl (left, e) ↦
              rw (walk_pages, e)
                (Follows-trans w s met s left s (meet-Follows parts w s)
                  (subst (VisitFollows met s) e one))
          | inr (shown, next, counted, e) ↦
              rw (walk_pages, e)
                (Follows-trans w s met s _ _ (meet-Follows parts w s) (
                  Follows-trans met s next counted _ _ (subst (VisitFollows met s) e one)
                    (walk_pages-Follows cand urls shown next counted)))
        ]

    harvest_one-Follows :
        (cand : SourceCandidate) (w : World)
        → Follows w nothing
            (harvest_one net parts settings cand w).1
            (harvest_one net parts settings cand w).2
    unfolding harvest_one
    harvest_one-Follows cand w = elim (Option-cases (plan net cand)) [
      | inl raises ↦ rw (harvest_one, raises) (failed w nothing)
      | inr (walk, e) ↦ elim (Bool-cases walk.foreign) [
        | inl foreign ↦
            rw (harvest_one, e, foreign) (quiet w _ nothing (pin_lang-IsQuiet cand.url_or_handle w))
        | inr ours ↦ rw (harvest_one, e, ours) (walk_pages-Follows cand walk.urls false w nothing)
      ]
    ]

    run_one-Follows :
        (now : ℕ) (cand : SourceCandidate) (w : World)
        → Follows w nothing
            (run_one net parts settings now cand w).0
            (run_one net parts settings now cand w).1
    unfolding run_one
    run_one-Follows now cand before =
        let w = meet parts before in
        let met = meet-Follows parts before nothing in
        let done = harvest_one net parts settings cand w in
        let told = meet parts done.1 in
        elim (Bool-cases (
          (is_website cand && is_blocked_host w.stores.blocks cand.url_or_handle)
          || contains w.known (normalize_ref cand.type cand.url_or_handle)
          || not (net.fetchers cand.type))) [
            | inl closed ↦ rw (run_one, closed) met
            | inr clear ↦
                rw (run_one, clear)
                  (Follows-trans before nothing w nothing _ _ met (
                    Follows-trans w nothing done.1 done.2 _ _ (harvest_one-Follows cand w) (
                      Follows-trans done.1 done.2 told done.2 _ _ (meet-Follows parts done.1 done.2)
                        (quiet told _ done.2 (note_crawl-IsQuiet cand now done.0 done.2 told)))))
          ]

    shifted :
        (w w' : World) (s one : Summary)
        → Follows w nothing w' one
        → Follows w s w' (merged net parts settings s one)
    shifted w w' s one h = record {
      offers = omega (arith, h.offers);
      suggestions = omega (arith, h.suggestions);
      errors = omega arith;
      once = h.once;
      grows = h.grows;
    }

    pub work-Follows :
        (order : List (ℕ × SourceCandidate)) (w : World) (s : Summary)
        → Follows w s (work net parts settings order w s).0 (work net parts settings order w s).1
    unfolding work
    work-Follows [] w s = Follows-refl w s
    work-Follows ((now, cand) ∷ order) w s =
        let one = run_one net parts settings now cand w in
        let sum = merged net parts settings s one.1 in
        Follows-trans w s one.0 sum _ _ (shifted w one.0 s one.1 (run_one-Follows now cand w))
          (work-Follows order one.0 sum)
