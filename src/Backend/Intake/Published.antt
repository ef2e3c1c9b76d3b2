-- ===== src/Backend/Intake/Published.antt =====
-- `create_offer` and the rows that are published: a submission of the crawler never changes them.
use ubd_probe.Prelude.{
  ℕ, ◌≡◌, refl, inl, inr, true, ◌&&◌, not, Option, none, some, List, filter, find?, find?-true,
  ◌==◌, nat_eq, list_eq, option_eq, arith, Option-cases, null, is_some,
}
use ubd_probe.Prelude.Text.{Text}
use ubd_probe.Backend.Dedup.{magnitude_eq, is_subset}
use ubd_probe.Backend.Content.{canonical_of, row_mags, payload_mags}
use ubd_probe.Backend.Branches.{
  Request, from_crawler, is_blocked, canon_article, unchanged, same_content,
}
use ubd_probe.Backend.Branches.Shadow.{
  first_submission, changed_live, live_parent, shadow_of, make_shadow, shadow_rows, find_revive,
  drop_live, still_pending,
}
use ubd_probe.Backend.Branches.Known.{
  known_page, known_promo, is_comparable, known_hub, same_target, add_link,
}
use ubd_probe.Backend.Chain.{or_try-Holds, when-Holds, given-Holds, if-Holds, or_insert-Holds}
use ubd_probe.Backend.Intake.{existing_row, inserted, create_rows}
use ubd_probe.Backend.Model.{expired, status_eq, creator_eq, Offer, Db}
use ubd_probe.Backend.Rows.{
  In, IsPick, HasIds, find?-In, filter-In, filter-nil, Keeps, Keeps-trans, Keeps-append, NoneLive,
  modify-Keeps, modify-Keeps-Frozen, NoneLive-In,
}
use ubd_probe.Backend.Intake.Kept.{
  KeptBy, KeepsDone, touch-Keeps, touched-KeepsDone, unchanged-KeepsDone, not_live_of, status_of,
  pending_not_live, submission_not_live, drop_live-Keeps, drop_live-NoneLive,
}

module _ (pick : List Offer → Option Offer) (lawful : IsPick pick) (db : Db)
    (ids : HasIds db.offers) (r : Request) where
  -- The row that is revived has expired: branch 1 has found no other row of this content.
  revive-expired :
      (source : ℕ) (old : Offer)
      → from_crawler r ≡ true
      → r.source_id ≡ some source
      → unchanged pick db r ≡ none
      → find_revive pick r source db.offers ≡ some old
      → In old db.offers × (old.status ≡ expired)
  unfolding unchanged find_revive
  revive-expired source old crawled from new found = elim (Option-cases r.content_hash) [
    | inl e ↦ absurd (ground arith)
    | inr (hash, e) ↦
        let chosen : pick
              (filter (λ o. o.source_id == some source && o.content_hash == some hash) db.offers)
            ≡ some old =
          ground arith in
        let matched =
          filter-In (λ o. o.source_id == some source && o.content_hash == some hash) db.offers old
            (lawful.picked _ old chosen) in
        let none_live : pick (filter (same_content r hash) db.offers) ≡ none = ground arith in
        let other =
          filter-nil (same_content r hash) db.offers old (lawful.missed _ none_live) matched.0 in
        (matched.0, status_of r source hash old from matched.1 other)
  ]

  live_not_published :
      (parent : ℕ) (live : Offer)
      → find? (shadow_of parent) db.offers ≡ some live
      → NoneLive live.id db.offers
  live_not_published parent live e =
      let found = find?-true (shadow_of parent) db.offers e in
      NoneLive-In db.offers live ids (find?-In (shadow_of parent) db.offers live e)
        (pending_not_live parent live found)

  shadow_rows-Keeps :
      (source : ℕ) (parent : Offer) (old live : Option Offer)
      → ((o : Offer) → old ≡ some o → NoneLive o.id db.offers)
      → ((o : Offer) → live ≡ some o → NoneLive o.id db.offers)
      → Keeps db.offers (shadow_rows db r source parent old live).rows
  unfolding shadow_rows
  shadow_rows-Keeps source parent (some old) live dead quiet =
      let dropped = drop_live-Keeps live old.id db.offers quiet in
      let gone = drop_live-NoneLive live old.id db.offers (dead old refl) in
      Keeps-trans db.offers (drop_live live old.id db.offers) _ dropped (
        Keeps-trans (drop_live live old.id db.offers) _ _
          (modify-Keeps old.id _ (drop_live live old.id db.offers) (λ o. refl) gone)
          (touch-Keeps _ parent.id r.now))
  shadow_rows-Keeps source parent none (some shadow) dead quiet =
      Keeps-trans db.offers _ _ (modify-Keeps shadow.id _ db.offers (λ o. refl) (quiet shadow refl))
        (touch-Keeps _ parent.id r.now)
  shadow_rows-Keeps source parent none none dead quiet =
      Keeps-trans db.offers _ _ (Keeps-append db.offers _) (touch-Keeps _ parent.id r.now)

  changed_live-KeepsDone :
      (source : ℕ) (canon : Text)
      → from_crawler r ≡ true
      → r.source_id ≡ some source
      → unchanged pick db r ≡ none
      → KeepsDone db.offers (changed_live pick db r source canon)
  unfolding changed_live make_shadow
  changed_live-KeepsDone source canon crawled from new =
      given-Holds (KeptBy db.offers) (find? (live_parent source canon) db.offers) _ λ parent _.
        if-Holds (KeptBy db.offers)
          (not (null (row_mags parent)) && is_subset (row_mags parent) (payload_mags r.payload)) _ _
          (touch-Keeps db.offers parent.id r.now)
          (shadow_rows-Keeps source parent (find_revive pick r source db.offers)
            (find? (shadow_of parent.id) db.offers)
            (λ old e.
              let gone = revive-expired source old crawled from new e in
              NoneLive-In db.offers old ids gone.0
                (not_live_of old expired gone.1 (λ q. absurd (cc))))
            (live_not_published parent.id))

  still_pending-KeepsDone :
      (source : ℕ) (canon : Text) → KeepsDone db.offers (still_pending db r source canon)
  unfolding still_pending
  still_pending-KeepsDone source canon =
      given-Holds (KeptBy db.offers) (find? (first_submission source canon) db.offers) _
        λ pending e.
          modify-Keeps pending.id _ db.offers (λ o. refl)
            (NoneLive-In db.offers pending ids
              (find?-In (first_submission source canon) db.offers pending e)
              (submission_not_live source canon pending
                (find?-true (first_submission source canon) db.offers e)))

  same_target-KeepsDone : (canon : Text) → KeepsDone db.offers (same_target db r canon)
  unfolding same_target add_link
  same_target-KeepsDone canon =
      given-Holds (KeptBy db.offers) (find? (λ o. o.target_url_canonical == some canon) db.offers) _
        λ existing _. modify-Keeps-Frozen existing.id (add_link r) db.offers (λ o. refl) (λ o. refl)

  existing_row-KeepsDone : from_crawler r ≡ true → KeepsDone db.offers (existing_row pick db r)
  unfolding existing_row known_page known_promo known_hub
  existing_row-KeepsDone crawled =
      let free = from_crawler r && not (is_blocked db r) in
      or_try-Holds (KeptBy db.offers) (unchanged pick db r) _ (unchanged-KeepsDone pick db r) λ new.
        or_try-Holds (KeptBy db.offers) _ _
          (when-Holds (KeptBy db.offers) free _ λ _.
            given-Holds (KeptBy db.offers) r.source_id _ λ s from.
              given-Holds (KeptBy db.offers) (canon_article r) _
                λ canon _. changed_live-KeepsDone s canon crawled from new)
          λ _.
            or_try-Holds (KeptBy db.offers) _ _
              (when-Holds (KeptBy db.offers) free _ λ _.
                given-Holds (KeptBy db.offers) r.source_id _ λ s _.
                  given-Holds (KeptBy db.offers) (canon_article r) _
                    λ canon _. still_pending-KeepsDone s canon)
              λ _.
                or_try-Holds (KeptBy db.offers) _ _
                  (when-Holds (KeptBy db.offers) (from_crawler r && not (is_some r.source_id)) _
                    λ _.
                      given-Holds (KeptBy db.offers) (canon_article r) _
                        λ canon _. touched-KeepsDone db r _)
                  λ _.
                    or_try-Holds (KeptBy db.offers) _ _
                      (when-Holds (KeptBy db.offers) free _ λ _.
                        when-Holds (KeptBy db.offers) (is_comparable r) _
                          λ _. touched-KeepsDone db r _)
                      λ _.
                        or_try-Holds (KeptBy db.offers) _ _
                          (when-Holds (KeptBy db.offers) free _ λ _.
                            given-Holds (KeptBy db.offers) (canon_article r) _ λ canon _.
                              when-Holds (KeptBy db.offers) (is_comparable r) _
                                λ _. touched-KeepsDone db r _)
                          λ _. when-Holds (KeptBy db.offers) free _ λ _.
                            given-Holds (KeptBy db.offers) (canonical_of r.payload.target_url) _
                              λ canon _. same_target-KeepsDone canon

  -- When the database's choice of a first row is lawful and no two rows share an id, `create_offer`
  -- for a crawler's submission keeps every row: at its place, with its id, and a published row
  -- changes at most in the time it was last seen and in its links. New rows stand behind them.
  pub create_rows-Keeps : from_crawler r ≡ true → Keeps db.offers (create_rows pick db r).rows
  unfolding create_rows inserted
  create_rows-Keeps crawled =
      or_insert-Holds (KeptBy db.offers) (existing_row pick db r) (inserted db r)
        (existing_row-KeepsDone crawled) (Keeps-append db.offers _)
