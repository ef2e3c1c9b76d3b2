-- ===== src/Backend/Moderation/Valid.antt =====
-- The operations of review keep the table of offers valid.
use ubd_probe.Prelude.{
  ℕ, ◌<◌, ◌≡◌, refl, sym, ap, ◌∙◌, ◌≢◌, ◌⊎◌, inl, inr, true, false, ◌&&◌, not, none, some, List, [],
  ◌∷◌, All, find?, ◌==◌, nat_eq, option_eq, arith, Bool-cases, Option-cases, nat_beq_iff,
}
use ubd_probe.Backend.Model.{
  OfferStatus, published, status_eq, creator_eq, Offer, modify, get_row, touch,
}
use ubd_probe.Backend.Moderation.{mark, detach, expire_live, publish}
use ubd_probe.Backend.Rows.{HasIds}
use ubd_probe.Backend.Valid.{IsSound, IsValid, is_rooted, modify-IsValid, modify-HasIds}

-- Each row with the id is the one that `db.get` gives.
the_row :
    (id : ℕ) (rows : List Offer) (o : Offer)
    → HasIds rows
    → get_row id rows ≡ some o
    → All (λ x. (x.id ≢ id) ⊎ (x ≡ o)) rows
unfolding get_row find?
the_row id [] o ids e = tt
the_row id (x ∷ rows) o ids e = elim (Bool-cases (x.id == id)) [
  | inl hit ↦ (inr (ground arith), others x.id rows ids.0 (ground arith))
  | inr miss ↦ (inl (ground arith), the_row id rows o ids.1 (ground arith))
]
  where
    others :
        (i : ℕ) (rest : List Offer)
        → All (λ p. i ≢ p.id) rest
        → i ≡ id
        → All (λ x. (x.id ≢ id) ⊎ (x ≡ o)) rest
    others i [] h same = tt
    others i (y ∷ rest) h same = (inl (λ q. h.0 (same ∙ sym q)), others i rest h.1 same)

-- What an update of the rows of one id does to a property of the rows.
modify-All :
    (P Q : Offer → Type 0) (id : ℕ) (f : Offer → Offer) (rows : List Offer)
    → ((o : Offer) → o.id ≡ id → P o → Q (f o))
    → ((o : Offer) → o.id ≢ id → P o → Q o)
    → All P rows
    → All Q (modify id f rows)
unfolding modify
modify-All P Q id f [] at off h = tt
modify-All P Q id f (o ∷ rows) at off h =
    let rest = modify-All P Q id f rows at off h.1 in
    elim (Bool-cases (o.id == id)) [
      | inl hit ↦ rw hit (at o ((nat_beq_iff o.id id).0 hit) h.0, rest)
      | inr miss ↦ rw miss (off o (λ e. ground arith) h.0, rest)
    ]

-- A row with the id may be live above another row, for as long as it takes to publish it.
abbrev IsAlmost : ℕ → ℕ → Offer → Type 0
IsAlmost next id o = (o.id < next) × ((o.id ≡ id) ⊎ (is_rooted o ≡ true))

expire-IsAlmost : (next id : ℕ) (o : Offer) → IsAlmost next id o → IsAlmost next id (expire_live o)
expire-IsAlmost next id o h = elim (Bool-cases (o.status == published)) [
  | inl live ↦ rw live (h.0, inr refl)
  | inr not_live ↦ rw not_live h
]

pub detached : (s : OfferStatus) → not (s == published && false) ≡ true
detached s = ground arith

expire-id : (o : Offer) → (expire_live o).id ≡ o.id
expire-id o = ground arith

module _ (next id by now : ℕ) where
  published-IsAlmost :
      (rows : List Offer)
      → All (IsSound next) rows
      → All (IsAlmost next id) (modify id (touch now) (modify id (mark published by) rows))
  published-IsAlmost rows h =
      modify-All (IsAlmost next id) (IsAlmost next id) id (touch now)
        (modify id (mark published by) rows) (λ o _ k. k) (λ o _ k. k)
        (modify-All (IsSound next) (IsAlmost next id) id (mark published by) rows
          (λ o e k. (k.0, inl e)) (λ o _ k. (k.0, inr k.1)) h)

  published-HasIds :
      (rows : List Offer)
      → HasIds rows
      → HasIds (modify id (touch now) (modify id (mark published by) rows))
  published-HasIds rows h =
      modify-HasIds id (touch now) (modify id (mark published by) rows) (λ o. refl)
        (modify-HasIds id (mark published by) rows (λ o. refl) h)

  pub publish-IsValid :
      (rows : List Offer) (o : Offer)
      → IsValid next rows
      → get_row id rows ≡ some o
      → IsValid next (publish id now o.supersedes_offer_id (modify id (mark published by) rows))
  unfolding publish
  publish-IsValid rows o h found = elim (Option-cases o.supersedes_offer_id) [
    | inr (parent, e) ↦
        let seen = modify id (touch now) (modify id (mark published by) rows) in
        rw e (
          modify-All (IsAlmost next id) (IsSound next) id detach (modify parent expire_live seen)
              (λ x _ k. (k.0, detached x.status)) (λ x other k. (k.0, rooted_off x k.1 other))
              (modify-All (IsAlmost next id) (IsAlmost next id) parent expire_live seen
                (λ x _ k. expire-IsAlmost next id x k) (λ x _ k. k) (published-IsAlmost rows h.0)),
          modify-HasIds id detach (modify parent expire_live seen) (λ x. refl)
              (modify-HasIds parent expire_live seen expire-id (published-HasIds rows h.1)),
        )
    | inl e ↦ rw e (
      modify-All (IsSound next) (IsSound next) id (touch now) (modify id (mark published by) rows)
          (λ x _ k. k) (λ x _ k. k)
          (modify-All (λ x. IsSound next x × ((x.id ≢ id) ⊎ (x ≡ o))) (IsSound next) id
            (mark published by) rows (λ x same k. (k.0.0, alone x k.1 same e)) (λ x _ k. k.0)
            (both rows h.0 (the_row id rows o h.1 found))),
      published-HasIds rows h.1,
    )
  ]
    where
      rooted_off : (x : Offer) → (x.id ≡ id) ⊎ (is_rooted x ≡ true) → x.id ≢ id → is_rooted x ≡ true
      rooted_off x (inl e) other = absurd (other e)
      rooted_off x (inr k) other = k

      alone :
          (x : Offer)
          → (x.id ≢ id) ⊎ (x ≡ o)
          → x.id ≡ id
          → o.supersedes_offer_id ≡ none
          → is_rooted (mark published by x) ≡ true
      alone x (inl k) same e = absurd (k same)
      alone x (inr k) same e =
          let none_left : x.supersedes_offer_id ≡ none =
            ap (λ (y : Offer). y.supersedes_offer_id) k ∙ e in
          rw none_left refl

      both :
          (xs : List Offer)
          → All (IsSound next) xs
          → All (λ x. (x.id ≢ id) ⊎ (x ≡ o)) xs
          → All (λ x. IsSound next x × ((x.id ≢ id) ⊎ (x ≡ o))) xs
      both [] a b = tt
      both (x ∷ xs) a b = ((a.0, b.0), both xs a.1 b.1)

-- Any other status than `published` leaves every row rooted.
pub unpublished :
    (next id by : ℕ) (status : OfferStatus) (rows : List Offer)
    → status ≢ published
    → IsValid next rows
    → IsValid next (modify id (mark status by) rows)
unpublished next id by status rows other h =
    modify-IsValid next id (mark status by) rows (λ o. refl, λ o _. ground arith) h
