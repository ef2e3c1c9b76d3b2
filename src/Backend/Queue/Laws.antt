-- ===== src/Backend/Queue/Laws.antt =====
-- What the deduplication of the queue rejects.
use ubd_probe.Prelude.{ℕ, ◌≡◌, ◌⊎◌, refl, ap, ◌∙◌, inl, inr, List, [], ◌∷◌, nat_eq, list_eq, All}
use ubd_probe.Prelude.Table.{All-map}
use ubd_probe.Backend.Model.{pending_review, rejected, status_eq, crawler, creator_eq, Offer}
use ubd_probe.Backend.Rows.{HasIds}
use ubd_probe.Backend.Change.{Each, Each-refl, Each-modify, All-same_id}
use ubd_probe.Backend.Queue.{find_duplicates, apply_pairs}
use ubd_probe.Backend.Queue.Repeats.{IsRepeat, Ordered, Ordered-HasIds, found_repeats}

-- What the script may do to a row.
abbrev pub Rejects : Offer → Offer → Type 0
Rejects o p =
    (p ≡ o)
    ⊎ ((o.status ≡ pending_review)
        × (o.created_by ≡ crawler)
        × (p ≡ record o { status = rejected }))

Rejects-id : (o p : Offer) → Rejects o p → p.id ≡ o.id
Rejects-id o p (inl same) = ap (λ (x : Offer). x.id) same
Rejects-id o p (inr (hit, by, same)) = ap (λ (x : Offer). x.id) same

Rejects-again :
    (o : Offer)
    → o.status ≡ pending_review
    → o.created_by ≡ crawler
    → (p : Offer) → Rejects o p
    → Rejects o (record p { status = rejected })
Rejects-again o hit by p (inl same) =
    inr (hit, by, ap (λ (x : Offer). record x { status = rejected }) same)
Rejects-again o hit by p (inr (at, mine, same)) =
    inr (hit, by, ap (λ (x : Offer). record x { status = rejected }) same)

apply_pairs-Rejects :
    (offers : List Offer) (threshold : ℕ) (pairs : List (ℕ × ℕ)) (after : List Offer)
    → HasIds offers
    → All (IsRepeat offers threshold) pairs
    → Each Rejects offers after
    → Each Rejects offers (apply_pairs pairs after)
unfolding apply_pairs
apply_pairs-Rejects offers threshold [] after ids h e = e
apply_pairs-Rejects offers threshold ((d, k) ∷ pairs) after ids h e =
    let r = h.0 in
    let at : d ≡ r.dup.id = ap (λ (x : ℕ × ℕ). x.0) r.ids in
    let alone =
      All-same_id (λ o. (o.status ≡ pending_review) × (o.created_by ≡ crawler)) offers r.dup ids
        r.in_dup (r.is_pending, r.by_crawler) in
    apply_pairs-Rejects offers threshold pairs _ ids h.1 (
      Each-modify Rejects d (λ o. record o { status = rejected }) offers after Rejects-id
        (All-map offers
          (λ o own hit. let open_row = own (hit ∙ at) in Rejects-again o open_row.0 open_row.1)
          alone)
        e)

-- When the table is in the order of its ids, every pair that the script finds is the id of a pending
-- row of the crawler and the id of an earlier row of the crawler that has not expired, has the same
-- host and is the same promo by the test of the intake; and after the pairs are applied every row of
-- the table is exactly as it was or was a pending row of the crawler and is rejected now.
pub find_duplicates-IsRepeat :
    (offers : List Offer) (threshold : ℕ)
    → Ordered offers
    → All (IsRepeat offers threshold) (find_duplicates offers threshold)
      × Each Rejects offers (apply_pairs (find_duplicates offers threshold) offers)
find_duplicates-IsRepeat offers threshold order =
    let found = found_repeats offers threshold order in
    (
      found,
      apply_pairs-Rejects offers threshold (find_duplicates offers threshold) offers
          (Ordered-HasIds offers order) found (Each-refl Rejects offers (λ o. inl refl)),
    )
