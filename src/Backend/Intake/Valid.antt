-- ===== src/Backend/Intake/Valid.antt =====
-- `create_offer` keeps the table of offers valid.
use mathlib.Core.Path.{subst}
use ubd_probe.Prelude.{
  ℕ, suc, ◌≡◌, refl, ap, inl, inr, Bool, true, false, ◌&&◌, not, Option, none, some, List, filter,
  find?, ◌==◌, nat_eq, list_eq, option_eq, if◌then◌else◌, arith, Bool-cases, Option-cases, null,
  is_some,
}
use ubd_probe.Prelude.Text.{Text}
use ubd_probe.Backend.Dedup.{magnitude_eq, is_subset}
use ubd_probe.Backend.Content.{apply_content, canonical_of, row_mags, payload_mags}
use ubd_probe.Backend.Branches.{
  Request, from_crawler, is_blocked, canon_article, Done, unchanged, settle, same_content,
  reject_row,
}
use ubd_probe.Backend.Branches.Shadow.{
  first_submission, changed_live, live_parent, shadow_of, make_shadow, shadow_rows, find_revive,
  drop_live, still_pending,
}
use ubd_probe.Backend.Branches.Known.{
  touched, known_page, known_promo, is_comparable, known_hub, same_target, add_link, new_row,
}
use ubd_probe.Backend.Chain.{
  Holds, or_try-Holds, when-Holds, given-Holds, if-Holds, or_insert-Holds,
}
use ubd_probe.Backend.Intake.{is_unique, existing_row, inserted, create_rows, create_offer}
use ubd_probe.Backend.Model.{
  OfferStatus, published, rejected, status_eq, Offer, Db, modify, touch, ok, err, integrity_error,
}
use ubd_probe.Backend.Valid.{IsValid, modify-IsValid, drop_shadows-IsValid, append-IsValid}

abbrev IsValidDone : Done → Type 0
IsValidDone d = IsValid d.next_id d.rows

touch-IsValid :
    (next id now : ℕ) (rows : List Offer)
    → IsValid next rows
    → IsValid next (modify id (touch now) rows)
touch-IsValid next id now rows h = modify-IsValid next id (touch now) rows (λ o. refl, λ o e. e) h

reject-IsValid :
    (next id : ℕ) (rows : List Offer) → IsValid next rows → IsValid next (modify id reject_row rows)
reject-IsValid next id rows h = modify-IsValid next id reject_row rows (λ o. refl, λ o e. refl) h

settle-IsValid :
    (next now : ℕ) (existing : Offer) (rows : List Offer)
    → IsValid next rows
    → IsValid next (settle now existing rows)
unfolding settle
settle-IsValid next now existing rows h = elim (Option-cases existing.supersedes_offer_id) [
  | inr (parent, e) ↦ rw e (touch-IsValid next parent now rows h)
  | inl e ↦ elim (Bool-cases (existing.status == published)) [
    | inl live ↦ rw (e, live) (drop_shadows-IsValid next existing.id rows h)
    | inr not_live ↦ rw (e, not_live) h
  ]
]

drop_live-IsValid :
    (next : ℕ) (live : Option Offer) (id : ℕ) (rows : List Offer)
    → IsValid next rows
    → IsValid next (drop_live live id rows)
unfolding drop_live
drop_live-IsValid next none id rows h = h
drop_live-IsValid next (some live) id rows h = elim (Bool-cases (live.id == id)) [
  | inl same ↦ rw same h
  | inr other ↦ rw other (reject-IsValid next live.id rows h)
]

new_rooted : (s : OfferStatus) → not (s == published && false) ≡ true
new_rooted s = ground arith

accepted :
    {A : Type 0} (t : Bool) (a b : A)
    → (if t then ok a else err integrity_error) ≡ ok b
    → (t ≡ true) × (a ≡ b)
accepted true a b e = (refl, cc)
accepted false a b e = absurd (cc)

module _ (pick : List Offer → Option Offer) (db : Db) (h : IsValid db.next_id db.offers)
    (r : Request) where
  unchanged-IsValid : Holds IsValidDone (unchanged pick db r)
  unfolding unchanged
  unchanged-IsValid = given-Holds IsValidDone r.content_hash _ λ hash _.
      when-Holds IsValidDone (from_crawler r) _ λ _.
        given-Holds IsValidDone (pick (filter (same_content r hash) db.offers)) _ λ existing _.
          settle-IsValid db.next_id r.now existing (modify existing.id (touch r.now) db.offers)
            (touch-IsValid db.next_id existing.id r.now db.offers h)

  shadow_rows-IsValid :
      (source : ℕ) (parent : Offer) (old live : Option Offer)
      → IsValidDone (shadow_rows db r source parent old live)
  unfolding shadow_rows apply_content
  shadow_rows-IsValid source parent (some old) live = touch-IsValid db.next_id parent.id r.now _ (
      modify-IsValid db.next_id old.id _ (drop_live live old.id db.offers) (λ o. refl, λ o _. refl)
        (drop_live-IsValid db.next_id live old.id db.offers h))
  shadow_rows-IsValid source parent none (some shadow) =
      touch-IsValid db.next_id parent.id r.now _
        (modify-IsValid db.next_id shadow.id _ db.offers (λ o. refl, λ o e. e) h)
  shadow_rows-IsValid source parent none none =
      touch-IsValid (suc db.next_id) parent.id r.now _
        (append-IsValid db.next_id db.offers _ refl refl h)

  changed_live-IsValid :
      (source : ℕ) (canon : Text) → Holds IsValidDone (changed_live pick db r source canon)
  unfolding changed_live make_shadow
  changed_live-IsValid source canon =
      given-Holds IsValidDone (find? (live_parent source canon) db.offers) _ λ parent _.
        if-Holds IsValidDone
          (not (null (row_mags parent)) && is_subset (row_mags parent) (payload_mags r.payload)) _ _
          (touch-IsValid db.next_id parent.id r.now db.offers h)
          (shadow_rows-IsValid source parent (find_revive pick r source db.offers)
            (find? (shadow_of parent.id) db.offers))

  still_pending-IsValid :
      (source : ℕ) (canon : Text) → Holds IsValidDone (still_pending db r source canon)
  unfolding still_pending apply_content
  still_pending-IsValid source canon =
      given-Holds IsValidDone (find? (first_submission source canon) db.offers) _
        λ pending _. modify-IsValid db.next_id pending.id _ db.offers (λ o. refl, λ o e. e) h

  same_target-IsValid : (canon : Text) → Holds IsValidDone (same_target db r canon)
  unfolding same_target add_link
  same_target-IsValid canon =
      given-Holds IsValidDone (find? (λ o. o.target_url_canonical == some canon) db.offers) _
        λ existing _.
          modify-IsValid db.next_id existing.id (add_link r) db.offers (λ o. refl, λ o e. e) h

  touched-IsValid : (o : Option Offer) → Holds IsValidDone (touched db r o)
  touched-IsValid none = tt
  touched-IsValid (some o) = touch-IsValid db.next_id o.id r.now db.offers h

  existing_row-IsValid : Holds IsValidDone (existing_row pick db r)
  unfolding existing_row known_page known_promo known_hub
  existing_row-IsValid =
      let free = from_crawler r && not (is_blocked db r) in
      or_try-Holds IsValidDone (unchanged pick db r) _ unchanged-IsValid λ _.
        or_try-Holds IsValidDone _ _
          (when-Holds IsValidDone free _ λ _. given-Holds IsValidDone r.source_id _ λ s _.
            given-Holds IsValidDone (canon_article r) _ λ canon _. changed_live-IsValid s canon)
          λ _.
            or_try-Holds IsValidDone _ _
              (when-Holds IsValidDone free _ λ _. given-Holds IsValidDone r.source_id _ λ s _.
                given-Holds IsValidDone (canon_article r) _
                  λ canon _. still_pending-IsValid s canon)
              λ _.
                or_try-Holds IsValidDone _ _
                  (when-Holds IsValidDone (from_crawler r && not (is_some r.source_id)) _
                    λ _. given-Holds IsValidDone (canon_article r) _ λ canon _. touched-IsValid _)
                  λ _.
                    or_try-Holds IsValidDone _ _
                      (when-Holds IsValidDone free _
                        λ _. when-Holds IsValidDone (is_comparable r) _ λ _. touched-IsValid _)
                      λ _.
                        or_try-Holds IsValidDone _ _
                          (when-Holds IsValidDone free _ λ _.
                            given-Holds IsValidDone (canon_article r) _ λ canon _.
                              when-Holds IsValidDone (is_comparable r) _ λ _. touched-IsValid _)
                          λ _. when-Holds IsValidDone free _ λ _.
                            given-Holds IsValidDone (canonical_of r.payload.target_url) _
                              λ canon _. same_target-IsValid canon

  create_rows-IsValid : IsValidDone (create_rows pick db r)
  unfolding create_rows inserted new_row
  create_rows-IsValid =
      or_insert-Holds IsValidDone (existing_row pick db r) (inserted db r) existing_row-IsValid (
        append-IsValid db.next_id db.offers _ refl
          (new_rooted (if is_blocked db r then rejected else r.status)) h)

  -- From a valid table, every submission that `create_offer` accepts, whoever sends it, leaves a
  -- valid table, in which no two rows have one source and one content hash.
  pub create_offer-IsValid :
      (after : Db) (id : ℕ)
      → create_offer pick db r ≡ ok (after, id)
      → IsValid after.next_id after.offers × (is_unique after.offers ≡ true)
  unfolding create_offer
  create_offer-IsValid after id e =
      let done = create_rows pick db r in
      let taken =
        accepted (is_unique done.rows)
          (record db { offers = done.rows; next_id = done.next_id }, done.returned) (after, id) e in
      let same : record db { offers = done.rows; next_id = done.next_id } ≡ after =
        ap (λ p. p.0) taken.1 in
      (
        subst (λ d. IsValid d.next_id d.offers) same create_rows-IsValid,
        subst (λ d. is_unique d.offers ≡ true) same taken.0,
      )
