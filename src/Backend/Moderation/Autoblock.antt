-- ===== src/Backend/Moderation/Autoblock.antt =====
-- What rejections teach about the hosts of an offer, and the guard that protects a host with live rows.
use mathlib.Core.Path.{subst}
use ubd_probe.Prelude.{
  ℕ, ◌<◌, ◌≤◌, ◌⊎◌, true, ◌&&◌, ◌==◌, arith, count_if, null, leb, ◌≡◌, refl, inl, inr, Bool, false,
  Option, List, [], ◌∷◌, All, nat_eq, Bool-cases,
}
use ubd_probe.Prelude.Text.{Text}
use ubd_probe.Backend.Content.{host_blocked, list_approved_hosts}
use ubd_probe.Prelude.Table.{All-map}
use ubd_probe.Backend.Rows.{In}
use ubd_probe.Backend.Model.{published, rejected, status_eq, Offer, Db}
use ubd_probe.Backend.Moderation.{
  autoblock_min_rejects, is_from, host_reputation, is_disgraced, autoblock_all,
  maybe_autoblock_hosts, offer_host_candidates,
}

spared :
    (like : Text → Option Text → Bool) (approved hosts : List Text) (db : Db)
    → All (λ h. is_disgraced like db h ≡ false) hosts
    → autoblock_all like approved hosts db ≡ db
unfolding autoblock_all
spared like approved [] db h = refl
spared like approved (x ∷ hosts) db h =
    let rest = spared like approved hosts db h.1 in
    elim (Bool-cases (host_blocked x approved)) [
      | inl known ↦ rw known rest
      | inr new ↦ rw (new, h.0) rest
    ]

counted :
    (p : Offer → Bool) (rows : List Offer) (o : Offer)
    → In o rows
    → p o ≡ true
    → 0 < count_if p rows
unfolding count_if
counted p [] o m e = absurd m
counted p (x ∷ rows) o (inl same) e =
    let hit : p x ≡ true = subst (λ y. p y ≡ true) same e in ground arith
counted p (x ∷ rows) o (inr m) e = let rest = counted p rows o m e in ground arith

alive : (p r : ℕ) → 0 < p → (p == 0 && leb autoblock_min_rejects r) ≡ false
alive p r some_live = ground arith

few_rejects : (p r : ℕ) → r ≤ 1 → (p == 0 && leb autoblock_min_rejects r) ≡ false
few_rejects p r few = ground arith

module _ (like : Text → Option Text → Bool) (db : Db) where
  -- A host with a published row, or with at most one rejected row.
  abbrev pub IsProtected : Text → Type 0
  IsProtected h =
      ((o : Offer) × In o db.offers × (is_from like h o ≡ true) × (o.status ≡ published))
      ⊎ (count_if (λ o. is_from like h o && o.status == rejected) db.offers ≤ 1)

  protected_host : (h : Text) → IsProtected h → is_disgraced like db h ≡ false
  unfolding host_reputation
  protected_host h safe = elim (Bool-cases (null h)) [
    | inl bare ↦ rw (host_reputation, bare) refl
    | inr full ↦
        let live = λ (x : Offer). is_from like h x && x.status == published in
        let lost = λ (x : Offer). is_from like h x && x.status == rejected in
        elim safe [
          | inl (o, m, from, at) ↦
              let is_live : live o ≡ true = rw (from, at) refl in
              rw (host_reputation, full)
                (alive (count_if live db.offers) (count_if lost db.offers)
                  (counted live db.offers o m is_live))
          | inr few ↦
              rw (host_reputation, full)
                (few_rejects (count_if live db.offers) (count_if lost db.offers) few)
        ]
  ]

  -- The guard of a host that other offers live on: if each host of the rejected offer has a published
  -- row, or at most one rejected row, the rejection blocks nothing and the database is left as it is.
  pub maybe_autoblock_hosts-spared :
      (o : Offer) → All IsProtected (offer_host_candidates o) → maybe_autoblock_hosts like db o ≡ db
  unfolding maybe_autoblock_hosts
  maybe_autoblock_hosts-spared o h =
      spared like (list_approved_hosts db) (offer_host_candidates o) db
        (All-map (offer_host_candidates o) protected_host h)
