-- ===== src/Backend/Moderation/Publish.antt =====
-- `set_status` with `published`: the row becomes the live one in place of the row it supersedes.
use ubd_probe.Prelude.{
  ℕ, ◌≡◌, refl, ap, ◌∙◌, ◌≢◌, inl, inr, Bool, true, false, Option, none, some, List, [], ◌∷◌, find?,
  ◌==◌, nat_eq, option_eq, arith, Bool-cases,
}
use ubd_probe.Prelude.Text.{Text}
use ubd_probe.Backend.Model.{published, status_eq, Offer, Db, ok, modify, get_row, touch}
use ubd_probe.Backend.Moderation.{mark, detach, expire_live, publish, after_status, set_status}
use ubd_probe.Backend.Rows.{NoneLive}

abbrev map_row : (Offer → Offer) → Option Offer → Option Offer
map_row f none = none
map_row f (some o) = some (f o)

pub get_row-modify :
    (id : ℕ) (f : Offer → Offer) (rows : List Offer)
    → ((o : Offer) → (f o).id ≡ o.id)
    → get_row id (modify id f rows) ≡ map_row f (get_row id rows)
unfolding get_row modify find?
get_row-modify id f [] same = refl
get_row-modify id f (o ∷ rows) same =
    let rest = get_row-modify id f rows same in
    elim (Bool-cases (o.id == id)) [
      | inl hit ↦
          let kept : ((f o).id == id) ≡ true = ap (λ i. i == id) (same o) ∙ hit in
          rw (hit, kept) refl
      | inr miss ↦ rw (miss, miss) rest
    ]

pub get_row-modify_other :
    (id j : ℕ) (f : Offer → Offer) (rows : List Offer)
    → j ≢ id
    → ((o : Offer) → (f o).id ≡ o.id)
    → get_row id (modify j f rows) ≡ get_row id rows
unfolding get_row modify find?
get_row-modify_other id j f [] other same = refl
get_row-modify_other id j f (o ∷ rows) other same =
    let rest = get_row-modify_other id j f rows other same in
    elim (Bool-cases (o.id == j)) [
      | inl hit ↦
          let miss : (o.id == id) ≡ false = ground arith in
          let kept : ((f o).id == id) ≡ false = ap (λ i. i == id) (same o) ∙ miss in
          rw (hit, kept, miss) rest
      | inr miss ↦ elim (Bool-cases (o.id == id)) [
        | inl found ↦ rw (miss, found) refl
        | inr skip ↦ rw (miss, skip) rest
      ]
    ]

expire_live-off : (o : Offer) → (expire_live o).status ≢ published
expire_live-off o live = ground arith

expire-NoneLive : (id : ℕ) (rows : List Offer) → NoneLive id (modify id expire_live rows)
unfolding modify
expire-NoneLive id [] = tt
expire-NoneLive id (o ∷ rows) =
    let rest = expire-NoneLive id rows in
    elim (Bool-cases (o.id == id)) [
      | inl hit ↦ rw hit (inr (expire_live-off o), rest)
      | inr miss ↦ rw miss (inl (λ e. absurd (ground arith)), rest)
    ]

detach-NoneLive :
    (id j : ℕ) (rows : List Offer) → NoneLive id rows → NoneLive id (modify j detach rows)
unfolding modify
detach-NoneLive id j [] h = tt
detach-NoneLive id j (o ∷ rows) h =
    let rest = detach-NoneLive id j rows h.1 in
    elim (Bool-cases (o.id == j)) [ inl hit ↦ rw hit (h.0, rest) | inr miss ↦ rw miss (h.0, rest) ]

expire-id : (o : Offer) → (expire_live o).id ≡ o.id
expire-id o = ground arith

-- Publishing a row that supersedes another one always succeeds. Afterwards the row is published,
-- reviewed, seen at that time and supersedes nothing, and no row with the superseded id is published.
pub set_status-supersedes :
    (like : Text → Option Text → Bool) (db : Db) (id by now : ℕ) (o : Offer) (parent : ℕ)
    → get_row id db.offers ≡ some o
    → o.supersedes_offer_id ≡ some parent
    → parent ≢ id
    → (after : Db) × (set_status like db id published by now ≡ ok after)
      × (get_row id after.offers
          ≡ some (record o {
            status = published;
            reviewed_by = some by;
            last_seen_at = some now;
            supersedes_offer_id = none;
          }))
      × NoneLive parent after.offers
unfolding set_status after_status publish
set_status-supersedes like db id by now o parent found over other =
    let marked = modify id (mark published by) db.offers in
    let seen = modify id (touch now) marked in
    let gone = modify parent expire_live seen in
    let at_mark =
      get_row-modify id (mark published by) db.offers (λ x. refl)
      ∙ ap (map_row (mark published by)) found in
    let at_seen =
      get_row-modify id (touch now) marked (λ x. refl) ∙ ap (map_row (touch now)) at_mark in
    let at_gone = get_row-modify_other id parent expire_live seen other expire-id ∙ at_seen in
    (
      record db { offers = modify id detach gone },
      rw (set_status, found, over) refl,
      get_row-modify id detach gone (λ x. refl) ∙ ap (map_row detach) at_gone,
      detach-NoneLive parent id gone (expire-NoneLive parent seen),
    )
