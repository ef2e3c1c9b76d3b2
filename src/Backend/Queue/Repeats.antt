-- ===== src/Backend/Queue/Repeats.antt =====
-- What the deduplication of the queue finds.
use mathlib.Core.Path.{subst}
use ubd_probe.Prelude.{
  ℕ, ◌<◌, ◌≡◌, ◌≢◌, refl, ap, inl, inr, Bool, true, ◌&&◌, ◌||◌, List, [], ◌∷◌, ◌==◌, null, nat_eq,
  list_eq, eq_sound, find?, find?-true, filter, All, All-filter, Bool-cases, Option-cases, arith,
}
use ubd_probe.Prelude.Table.{Pairwise, All-find?, All-append, All-map, All-both, All-every}
use ubd_probe.Backend.Dedup.{is_duplicate_promo}
use ubd_probe.Backend.Model.{pending_review, expired, status_eq, crawler, creator_eq, Offer}
use ubd_probe.Backend.Rows.{In, HasIds}
use ubd_probe.Backend.Queue.{
  Kept, Walked, entry, is_walked, same_promo, stand, look, look_all, find_duplicates,
}

and_left : (a b : Bool) → (a && b) ≡ true → a ≡ true
and_left a b e = ground arith

and_right : (a b : Bool) → (a && b) ≡ true → b ≡ true
and_right a b e = ground arith

-- A pair of rows of the table: a pending row of the crawler, and an earlier row of the crawler that has
-- not expired, has the same host and is the same promo by the test of the intake.
pub record IsRepeat (offers : List Offer) (threshold : ℕ) (pair : ℕ × ℕ) : Type 0 where
  pub dup : Offer
  pub keep : Offer
  pub in_dup : In dup offers
  pub in_keep : In keep offers
  pub is_pending : dup.status ≡ pending_review
  pub by_crawler : dup.created_by ≡ crawler
  pub keep_crawler : keep.created_by ≡ crawler
  pub keep_alive : keep.status ≢ expired
  pub earlier : keep.id < dup.id
  pub same_host : (entry keep).host ≡ (entry dup).host
  pub same_promo :
      is_duplicate_promo
        (entry dup).text
        (entry dup).mags
        (entry keep).text
        (entry keep).mags
        threshold
      ≡ true
  pub ids : pair ≡ (dup.id, keep.id)

-- The rows in the order of their ids.
abbrev pub Ordered : List Offer → Type 0
Ordered = Pairwise (λ a b. a.id < b.id)

pub Ordered-HasIds : (rows : List Offer) → Ordered rows → HasIds rows
Ordered-HasIds [] h = tt
Ordered-HasIds (o ∷ rows) h =
    (All-map rows (λ p le same. omega (arith, le, same)) h.0, Ordered-HasIds rows h.1)

module _ (offers : List Offer) (threshold : ℕ) where
  -- A row that the query selects.
  abbrev IsWalked : Offer → Type 0
  IsWalked o = In o offers × (is_walked o ≡ true)

  -- A representative that stands for a walked row.
  record IsEntry (k : Kept) : Type 0 where
    row : Offer
    walked : IsWalked row
    is : k ≡ entry row

  record IsSound (w : Walked) : Type 0 where
    kept : All IsEntry w.kept
    pairs : All (IsRepeat offers threshold) w.pairs

  -- Every representative stands before the rows that follow.
  abbrev Precedes : List Kept → Offer → Type 0
  Precedes kept o = All (λ k. k.id < o.id) kept

  stand-IsSound : (o : Offer) (w : Walked) → IsWalked o → IsSound w → IsSound (stand (entry o) w)
  unfolding stand
  stand-IsSound o w walked h = record {
    kept =
        All-append IsEntry w.kept (entry o ∷ []) h.kept
          (record { row = o; walked = walked; is = refl }, tt);
    pairs = h.pairs;
  }

  repeat :
      (o : Offer) (k : Kept)
      → IsWalked o
      → (o.status == pending_review) ≡ true
      → IsEntry k
      → k.id < o.id
      → same_promo threshold (entry o) k ≡ true
      → IsRepeat offers threshold (o.id, k.id)
  unfolding entry same_promo is_walked
  repeat o k walked open_row e earlier hit = record {
    dup = o;
    keep = e.row;
    in_dup = walked.0;
    in_keep = e.walked.0;
    is_pending = ground arith;
    by_crawler = ground (arith, walked.1);
    keep_crawler = ground (arith, e.walked.1);
    keep_alive = λ dead. ground (arith, e.walked.1, dead);
    earlier = subst (λ (r : Kept). r.id < o.id) e.is earlier;
    same_host =
        eq_sound _ _
          (and_left _ _ (subst (λ (r : Kept). same_promo threshold (entry o) r ≡ true) e.is hit));
    same_promo =
        and_right _ _ (subst (λ (r : Kept). same_promo threshold (entry o) r ≡ true) e.is hit);
    ids = ap (λ (r : Kept). (o.id, r.id)) e.is;
  }

  look-IsSound :
      (o : Offer) (w : Walked)
      → IsWalked o
      → Precedes w.kept o
      → IsSound w
      → IsSound (look threshold o w)
  unfolding look
  look-IsSound o w walked before h =
      elim (Bool-cases (null (entry o).host || null (entry o).mags)) [
        | inl bare ↦ rw (look, bare) h
        | inr full ↦ elim (Option-cases (find? (same_promo threshold (entry o)) w.kept)) [
          | inl new ↦ rw (look, full, new) (stand-IsSound o w walked h)
          | inr (k, found) ↦ elim (Bool-cases (o.status == pending_review)) [
            | inr decided ↦ rw (look, full, found, decided) (stand-IsSound o w walked h)
            | inl open_row ↦
                let test = same_promo threshold (entry o) in
                let e = All-find? IsEntry test w.kept k h.kept found in
                let earlier = All-find? (λ r. r.id < o.id) test w.kept k before found in
                let hit : test k ≡ true = find?-true test w.kept found in
                rw (look, full, found, open_row)
                  (record {
                    kept = h.kept;
                    pairs =
                        All-append (IsRepeat offers threshold) w.pairs ((o.id, k.id) ∷ []) h.pairs
                          (repeat o k walked open_row e earlier hit, tt);
                  })
          ]
        ]
      ]

  -- A row adds at most itself to the representatives.
  look-Precedes :
      (o : Offer) (w : Walked) (later : Offer)
      → o.id < later.id
      → Precedes w.kept later
      → Precedes (look threshold o w).kept later
  unfolding look stand entry
  look-Precedes o w later le h =
      let more = All-append (λ k. k.id < later.id) w.kept (entry o ∷ []) h (le, tt) in
      elim (Bool-cases (null (entry o).host || null (entry o).mags)) [
        | inl bare ↦ rw (look, bare) h
        | inr full ↦ elim (Option-cases (find? (same_promo threshold (entry o)) w.kept)) [
          | inl new ↦ rw (look, full, new) more
          | inr (k, found) ↦ elim (Bool-cases (o.status == pending_review)) [
            | inr decided ↦ rw (look, full, found, decided) more
            | inl open_row ↦ rw (look, full, found, open_row) h
          ]
        ]
      ]

  look_all-IsSound :
      (rows : List Offer) (w : Walked)
      → All IsWalked rows
      → Ordered rows
      → All (Precedes w.kept) rows
      → IsSound w
      → IsSound (look_all threshold rows w)
  unfolding look_all
  look_all-IsSound [] w walked order before h = h
  look_all-IsSound (o ∷ rows) w walked order before h =
      look_all-IsSound rows (look threshold o w) walked.1 order.1
        (All-map rows (λ later both. look-Precedes o w later both.0 both.1)
          (All-both (λ (later : Offer). o.id < later.id) (Precedes w.kept) rows order.0 before.1))
        (look-IsSound o w walked.0 before.0 h)

  All-IsWalked :
      (rows : List Offer) → All (λ o. In o offers) rows → All IsWalked (filter is_walked rows)
  unfolding filter
  All-IsWalked [] h = tt
  All-IsWalked (o ∷ rows) h = elim (Bool-cases (is_walked o)) [
    | inl hit ↦ rw hit ((h.0, hit), All-IsWalked rows h.1)
    | inr miss ↦ rw miss (All-IsWalked rows h.1)
  ]

filter-Ordered : (rows : List Offer) → Ordered rows → Ordered (filter is_walked rows)
unfolding filter
filter-Ordered [] h = tt
filter-Ordered (o ∷ rows) h = elim (Bool-cases (is_walked o)) [
  | inl hit ↦
      rw hit (All-filter (λ (p : Offer). o.id < p.id) is_walked rows h.0, filter-Ordered rows h.1)
  | inr miss ↦ rw miss (filter-Ordered rows h.1)
]

All-self : (rows : List Offer) → All (λ o. In o rows) rows
All-self [] = tt
All-self (o ∷ rows) = (inl refl, All-map rows (λ p m. inr m) (All-self rows))

pub found_repeats :
    (offers : List Offer) (threshold : ℕ)
    → Ordered offers
    → All (IsRepeat offers threshold) (find_duplicates offers threshold)
unfolding find_duplicates
found_repeats offers threshold order =
    (look_all-IsSound offers threshold (filter is_walked offers) (record { kept = []; pairs = [] })
      (All-IsWalked offers threshold offers (All-self offers)) (filter-Ordered offers order)
      (All-every (Precedes offers threshold []) (filter is_walked offers) (λ o. tt))
      (record { kept = tt; pairs = tt })).pairs
