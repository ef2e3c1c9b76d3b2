-- ===== src/Backend/Intake/Kept.antt =====
-- The updates of `create_offer` that touch a row at most, and why the rows that it rewrites are not
-- published.
use ubd_probe.Prelude.{
  ℕ, ◌≡◌, refl, sym, ◌∙◌, ◌≢◌, inl, inr, true, false, ◌&&◌, Option, none, some, List, filter, ◌==◌,
  nat_eq, list_eq, option_eq, arith, Bool-cases, Option-cases, option_beq_iff,
}
use ubd_probe.Prelude.Text.{Text}
use ubd_probe.Backend.Dedup.{magnitude_eq}
use ubd_probe.Backend.Branches.{
  Request, from_crawler, Done, unchanged, settle, same_content, reject_row,
}
use ubd_probe.Backend.Branches.Shadow.{first_submission, shadow_of, drop_live}
use ubd_probe.Backend.Branches.Known.{touched}
use ubd_probe.Backend.Chain.{Holds, when-Holds, given-Holds}
use ubd_probe.Backend.Model.{
  OfferStatus, published, expired, status_eq, creator_eq, Offer, Db, modify, touch,
}
use ubd_probe.Backend.Rows.{
  Keeps, Keeps-refl, Keeps-trans, NoneLive, modify-Keeps, modify-Keeps-Frozen, drop_shadows-Keeps,
  modify-NoneLive,
}

abbrev pub KeptBy : List Offer → Done → Type 0
KeptBy rows d = Keeps rows d.rows

abbrev pub KeepsDone : List Offer → Option Done → Type 0
KeepsDone rows = Holds (KeptBy rows)

module _ (rows : List Offer) where
  pub touch-Keeps : (id now : ℕ) → Keeps rows (modify id (touch now) rows)
  touch-Keeps id now = modify-Keeps-Frozen id (touch now) rows (λ o. refl) (λ o. refl)

pub touched-KeepsDone :
    (db : Db) (r : Request) (o : Option Offer) → KeepsDone db.offers (touched db r o)
touched-KeepsDone db r none = tt
touched-KeepsDone db r (some o) = touch-Keeps db.offers o.id r.now

pub settle-Keeps :
    (now : ℕ) (existing : Offer) (rows : List Offer) → Keeps rows (settle now existing rows)
unfolding settle
settle-Keeps now existing rows = elim (Option-cases existing.supersedes_offer_id) [
  | inr (parent, e) ↦ rw e (touch-Keeps rows parent now)
  | inl e ↦ elim (Bool-cases (existing.status == published)) [
    | inl live ↦ rw (e, live) (drop_shadows-Keeps existing.id rows)
    | inr not_live ↦ rw (e, not_live) (Keeps-refl rows)
  ]
]

pub unchanged-KeepsDone :
    (pick : List Offer → Option Offer) (db : Db) (r : Request)
    → KeepsDone db.offers (unchanged pick db r)
unfolding unchanged
unchanged-KeepsDone pick db r = given-Holds (KeptBy db.offers) r.content_hash _ λ hash _.
    when-Holds (KeptBy db.offers) (from_crawler r) _ λ _.
      given-Holds (KeptBy db.offers) (pick (filter (same_content r hash) db.offers)) _ λ existing _.
        Keeps-trans db.offers (modify existing.id (touch r.now) db.offers) _
          (touch-Keeps db.offers existing.id r.now)
          (settle-Keeps r.now existing (modify existing.id (touch r.now) db.offers))

pub not_live_of :
    (o : Offer) (s : OfferStatus) → o.status ≡ s → s ≢ published → o.status ≢ published
not_live_of o s e ne live = ne (sym e ∙ live)

pub status_of :
    (r : Request) (source : ℕ) (hash : Text) (old : Offer)
    → r.source_id ≡ some source
    → (old.source_id == some source && old.content_hash == some hash) ≡ true
    → same_content r hash old ≡ false
    → old.status ≡ expired
status_of r source hash old from matched other =
    let at : r.source_id ≡ old.source_id =
      ground (arith, option_beq_iff old.source_id (some source)) in
    ground arith

pub pending_not_live : (parent : ℕ) (o : Offer) → shadow_of parent o ≡ true → o.status ≢ published
pending_not_live parent o h live = ground arith

pub submission_not_live :
    (source : ℕ) (canon : Text) (o : Offer)
    → first_submission source canon o ≡ true
    → o.status ≢ published
submission_not_live source canon o h live = ground arith

pub drop_live-Keeps :
    (live : Option Offer) (id : ℕ) (rows : List Offer)
    → ((o : Offer) → live ≡ some o → NoneLive o.id rows)
    → Keeps rows (drop_live live id rows)
unfolding drop_live
drop_live-Keeps none id rows quiet = Keeps-refl rows
drop_live-Keeps (some live) id rows quiet = elim (Bool-cases (live.id == id)) [
  | inl same ↦ rw same (Keeps-refl rows)
  | inr other ↦ rw other (modify-Keeps live.id reject_row rows (λ o. refl) (quiet live refl))
]

pub drop_live-NoneLive :
    (live : Option Offer) (id : ℕ) (rows : List Offer)
    → NoneLive id rows
    → NoneLive id (drop_live live id rows)
unfolding drop_live
drop_live-NoneLive none id rows h = h
drop_live-NoneLive (some live) id rows h = elim (Bool-cases (live.id == id)) [
  | inl same ↦ rw same h
  | inr other ↦ rw other (modify-NoneLive id live.id rows h)
]
