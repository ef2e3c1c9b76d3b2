-- ===== src/Discover/Harvest/Account.antt =====
-- The account of a harvest: its counts are true, and no reference is suggested twice.
use ubd_probe.Prelude.{
  ◌+◌, ◌≤◌, ◌≡◌, ◌≢◌, inl, inr, refl, true, false, ◌||◌, Option, List, [], ◌∷◌, ◌++◌, map, length,
  length-append, contains, nat_eq, list_eq, eq_refl, ◌==◌, All, Bool-cases, Option-cases, arith,
  none, some,
}
use ubd_probe.Prelude.Table.{Pairwise, Pairwise-append, All-append, All-map}
use ubd_probe.Prelude.Text.{Text}
use ubd_probe.Hosts.Quality.{is_directory_page}
use ubd_probe.Discover.Types.{SourceCandidate, RawItem, text_or, first_text}
use ubd_probe.Discover.Ref.{normalize_ref}
use ubd_probe.Discover.Blocklist.{is_blocked_host}
use ubd_probe.Discover.Blocklist.Laws.{or_right}
use ubd_probe.Discover.Attribution.{Attribution, build_page_ctx}
use ubd_probe.Discover.Harvest.{
  OfferCandidate, Suggestion, Parts, Settings, World, Summary, Progress, group_from, page_offer,
  submit_offer, submit_group, submit_groups, meet, suggest, suggest_all, suggested_sites,
  hinted_site,
}
use ubd_probe.Discover.Harvest.Pages.{
  screen, collect, queue_business, mine_page, submit_page, offer_page, process_page,
}

-- The key of a suggestion.
unfoldable pub ref_of : Suggestion → Text
unfolding normalize_ref
ref_of s = normalize_ref s.type s.url_or_handle

-- No reference is suggested twice, and every one that was suggested is known.
pub record IsOnce (w : World) : Type 0 where
  pub apart : Pairwise (λ s t. ref_of s ≢ ref_of t) w.suggestions
  pub noted : All (λ s. contains w.known (ref_of s) ≡ true) w.suggestions

-- From one world and summary to a later one: the counts grow as the submissions do, errors are not
-- taken back, references stay suggested once, and known ones stay known.
pub record Follows (w : World) (s : Summary) (w' : World) (s' : Summary) : Type 0 where
  pub offers : length w'.offers + s.offers ≡ length w.offers + s'.offers
  pub suggestions : length w'.suggestions + s.suggestions ≡ length w.suggestions + s'.suggestions
  pub errors : s.errors ≤ s'.errors
  pub once : IsOnce w → IsOnce w'
  pub grows : (ref : Text) → contains w.known ref ≡ true → contains w'.known ref ≡ true

abbrev pub After : World → Summary → Progress → Type 0
After w s p = Follows w s p.world p.summary

pub Follows-trans :
    (a : World) (r : Summary) (b : World) (s : Summary) (c : World) (t : Summary)
    → Follows a r b s
    → Follows b s c t
    → Follows a r c t
Follows-trans a r b s c t h k = record {
  offers = omega (arith, h.offers, k.offers);
  suggestions = omega (arith, h.suggestions, k.suggestions);
  errors = omega (arith, h.errors, k.errors);
  once = λ o. k.once (h.once o);
  grows = λ ref e. k.grows ref (h.grows ref e);
}

-- A step that submits nothing and leaves what is known.
pub Follows-same :
    (w w' : World) (s : Summary)
    → w'.offers ≡ w.offers
    → w'.suggestions ≡ w.suggestions
    → w'.known ≡ w.known
    → Follows w s w' s
Follows-same w w' s offers suggestions known = record {
  offers = rw offers refl;
  suggestions = rw suggestions refl;
  errors = omega arith;
  once = λ o. record { apart = rw suggestions o.apart; noted = rw (suggestions, known) o.noted };
  grows = λ ref e. rw known e;
}

pub Follows-refl : (w : World) (s : Summary) → Follows w s w s
Follows-refl w s = Follows-same w w s refl refl refl

contains-append :
    (more known : List Text) (ref : Text)
    → contains known ref ≡ true
    → contains (more ++ known) ref ≡ true
unfolding contains
contains-append [] known ref e = e
contains-append (x ∷ more) known ref e = or_right (x == ref) _ (contains-append more known ref e)

module _ (parts : Parts) where
  -- What the others do takes nothing back.
  pub meet-Follows : (w : World) (s : Summary) → Follows w s (meet parts w) s
  unfolding meet
  meet-Follows w s = record {
    offers = refl;
    suggestions = refl;
    errors = omega arith;
    once = λ o. record {
      apart = o.apart;
      noted =
          All-map w.suggestions
            (λ t at. contains-append (parts.others w.moment).added w.known (ref_of t) at) o.noted;
    };
    grows = λ ref e. contains-append (parts.others w.moment).added w.known ref e;
  }

  submit_offer-After :
      (offer : OfferCandidate) (p : Progress) → After p.world p.summary (submit_offer parts offer p)
  unfolding submit_offer
  submit_offer-After offer p = elim (Bool-cases p.raised) [
    | inl raised ↦ rw (submit_offer, raised) (Follows-refl p.world p.summary)
    | inr fine ↦ elim (Bool-cases (parts.accepts_offer offer)) [
      | inl taken ↦
          rw (submit_offer, fine, taken)
            (record {
              offers = omega (arith, length-append p.world.offers (offer ∷ []));
              suggestions = refl;
              errors = omega arith;
              once = λ o. record { apart = o.apart; noted = o.noted };
              grows = λ ref e. e;
            })
      | inr refused ↦ rw (submit_offer, fine, refused) (Follows-refl p.world p.summary)
    ]
  ]

  submit_group-After :
      (group : List OfferCandidate) (p : Progress)
      → After p.world p.summary (submit_group parts group p)
  unfolding submit_group
  submit_group-After group p = elim (Option-cases (page_offer parts group)) [
    | inl raises ↦ rw (submit_group, raises) (Follows-refl p.world p.summary)
    | inr (offer, e) ↦ rw (submit_group, e) (submit_offer-After offer p)
  ]

  submit_groups-After :
      (groups : List (Option Text × List OfferCandidate)) (p : Progress)
      → After p.world p.summary (submit_groups parts groups p)
  unfolding submit_groups
  submit_groups-After [] p = Follows-refl p.world p.summary
  submit_groups-After ((key, group) ∷ groups) p =
      let one = submit_group parts group p in
      Follows-trans p.world p.summary one.world one.summary _ _ (submit_group-After group p)
        (submit_groups-After groups one)

  -- A suggestion whose reference is new is kept apart from every earlier one.
  new_apart :
      (s : Suggestion) (w : World)
      → contains w.known (ref_of s) ≡ false
      → IsOnce w
      → All (λ t. ref_of t ≢ ref_of s) w.suggestions
  new_apart s w new o = All-map w.suggestions (λ t at same. ground (arith, at, new, same)) o.noted

  known_more :
      (new : Text) (w : World) (ref : Text)
      → contains w.known ref ≡ true
      → contains (new ∷ w.known) ref ≡ true
  unfolding contains
  known_more new w ref e = or_right (new == ref) _ e

  noted_more :
      (ref : Text) (w : World)
      → IsOnce w
      → All (λ t. contains (ref ∷ w.known) (ref_of t) ≡ true) w.suggestions
  unfolding contains
  noted_more ref w o = All-map w.suggestions (λ t at. or_right (ref == ref_of t) _ at) o.noted

  suggested-IsOnce :
      (s : Suggestion) (w : World)
      → contains w.known (ref_of s) ≡ false
      → IsOnce w
      → IsOnce (record w { suggestions = w.suggestions ++ (s ∷ []); known = ref_of s ∷ w.known })
  unfolding contains
  suggested-IsOnce s w new o = record {
    apart = Pairwise-append _ w.suggestions s o.apart (new_apart s w new o);
    noted =
        All-append _ w.suggestions (s ∷ []) (noted_more (ref_of s) w o)
          (rw (eq_refl (ref_of s)) refl, tt);
  }

  suggest-After : (s : Suggestion) (p : Progress) → After p.world p.summary (suggest parts s p)
  unfolding suggest ref_of
  suggest-After s p =
      let w = meet parts p.world in
      let met = meet-Follows p.world p.summary in
      elim (Bool-cases (p.raised || contains w.known (ref_of s))) [
        | inl stop ↦ rw (suggest, stop) met
        | inr fresh ↦ elim (Bool-cases (parts.accepts_suggestion s)) [
          | inr refused ↦ rw (suggest, fresh, refused) met
          | inl taken ↦
              rw (suggest, fresh, taken)
                (Follows-trans p.world p.summary w p.summary _ _ met (record {
                  offers = refl;
                  suggestions = omega (arith, length-append w.suggestions (s ∷ []));
                  errors = omega arith;
                  once = λ o. suggested-IsOnce s w (ground arith) o;
                  grows = λ ref e. known_more (ref_of s) w ref e;
                }))
        ]
      ]

  suggest_all-After :
      (rest : List Suggestion) (p : Progress) → After p.world p.summary (suggest_all parts rest p)
  unfolding suggest_all
  suggest_all-After [] p = Follows-refl p.world p.summary
  suggest_all-After (s ∷ rest) p =
      let one = suggest parts s p in
      Follows-trans p.world p.summary one.world one.summary _ _ (suggest-After s p)
        (suggest_all-After rest one)

module _ (parts : Parts) (settings : Settings) (cand : SourceCandidate) (items : List RawItem) where
  submit_page-After :
      (host : Option Text) (collected : List (OfferCandidate × Attribution)) (p : Progress)
      → After p.world p.summary (submit_page parts settings cand items host collected p)
  unfolding submit_page
  submit_page-After host collected p =
      let offered = submit_groups parts (group_from (map (λ x. x.0) collected) []) p in
      let sites = suggested_sites cand (map (λ x. x.1) collected) in
      let suggested = suggest_all parts sites offered in
      let hints = map (hinted_site cand) (parts.email_domains items host) in
      let two =
        Follows-trans p.world p.summary offered.world offered.summary suggested.world
          suggested.summary (submit_groups-After parts (group_from (map (λ x. x.0) collected) []) p)
          (suggest_all-After parts sites offered) in
      elim (Bool-cases settings.source_hint_enabled) [
        | inr off ↦ rw (submit_page, off) two
        | inl on ↦
            rw (submit_page, on)
              (Follows-trans p.world p.summary suggested.world suggested.summary _ _ two
                (suggest_all-After parts hints suggested))
      ]

  mine_page-After :
      (passing : List RawItem) (host : Option Text) (world : World) (summary : Summary)
      → Follows world summary (mine_page parts settings passing host world) summary
  unfolding mine_page
  mine_page-After passing host world summary =
      elim (Bool-cases (is_blocked_host world.stores.blocks (text_or host))) [
        | inl blocked ↦ rw (mine_page, blocked) (Follows-same world _ summary refl refl refl)
        | inr clean ↦ rw (mine_page, clean) (Follows-refl world summary)
      ]

  offer_page-After :
      (host : Option Text) (collected : Option (List (OfferCandidate × Attribution))) (p : Progress)
      → After p.world p.summary (offer_page parts settings cand items host collected p)
  unfolding offer_page
  offer_page-After host none p = Follows-refl p.world p.summary
  offer_page-After host (some []) p = Follows-refl p.world p.summary
  offer_page-After host (some (one ∷ more)) p = submit_page-After host (one ∷ more) p

  -- One page keeps the account.
  pub process_page-After :
      (world : World) (summary : Summary)
      → After world summary (process_page parts settings cand items world summary).1
  unfolding process_page queue_business
  process_page-After world summary =
      let screened = screen parts settings items world.corpus in
      let passing = screened.passing in
      let ctx = build_page_ctx world.stores.blocks cand passing in
      let title = first_text (map (λ it. it.title) items) in
      let collected = collect parts settings world.stores.blocks ctx passing in
      let seen : World = record world { corpus = screened.corpus } in
      let found = mine_page parts settings passing ctx.host seen in
      let searched : Follows world summary found summary =
        Follows-trans world summary seen summary found summary
          (Follows-same world seen summary refl refl refl)
          (mine_page-After passing ctx.host seen summary) in
      elim (Bool-cases screened.raised) [
        | inl raised ↦ rw (process_page, raised) (Follows-same world _ summary refl refl refl)
        | inr fine ↦ elim (Bool-cases (is_directory_page cand.url_or_handle title)) [
          | inl directory ↦
              rw (process_page, fine, directory) (Follows-same world _ summary refl refl refl)
          | inr page ↦
              rw (process_page, fine, page)
                (Follows-trans world summary found summary _ _ searched (
                  offer_page-After ctx.host collected
                    (record { world = found; summary = summary; raised = false })))
        ]
      ]
