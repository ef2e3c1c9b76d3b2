-- ===== src/Backend/Steps.antt =====
-- The calls that change the tables of moderation, in any order: each of the routers' calls runs one
-- of them in a transaction, and a call that ends with an error changes nothing.
use mathlib.Core.Path.{subst}
use ubd_probe.Prelude.{
  ℕ, ◌-◌, ◌*◌, ◌≡◌, refl, sym, inl, inr, Bool, ◌||◌, Option, some, List, [], ◌∷◌, null, contains,
  find?, ◌==◌, list_eq, nat_eq, Bool-cases, Option-cases,
}
use ubd_probe.Prelude.Text.{Text}
use ubd_probe.Backend.Urlnorm.{bare_host}
use ubd_probe.Backend.Branches.{Request}
use ubd_probe.Backend.Intake.{create_offer}
use ubd_probe.Backend.Intake.Valid.{create_offer-IsValid}
use ubd_probe.Backend.Blocklist.{add_manual, unblock_host, review_host, approve_host, register}
use ubd_probe.Backend.Model.{
  OfferStatus, pending_review, published, rejected, expired, status_eq, Offer, Db, Result, ok, err,
  modify, get_row,
}
use ubd_probe.Backend.Moderation.{
  mark, after_status, set_status, maybe_autoblock_hosts, autoblock_all, judge_reject, judged,
  is_unjudged, delete_offer, expire_stale, day, offer_host_candidates,
}
use ubd_probe.Backend.Content.{list_approved_hosts}
use ubd_probe.Backend.Moderation.Valid.{publish-IsValid, unpublished}
use ubd_probe.Backend.Moderation.Keeps.{
  SameOffers, approve_host-SameOffers, autoblock_all-SameOffers, expire_rows-IsValid, sweep-IsValid,
  remove_row-IsValid,
}
use ubd_probe.Backend.Valid.{IsValid, modify-IsValid}

pub data Call : Type 0 where
  submit : Request → Call
  review : ℕ → OfferStatus → ℕ → ℕ → Call
  judge : ℕ → Text → Call
  delete : ℕ → Call
  expire : ℕ → ℕ → Call
  block : Text → ℕ → Call
  unblock : ℕ → ℕ → Call
  register_directory : Text → Call

-- What is committed.
abbrev pub committed : Db → Result Db → Db
committed db (ok after) = after
committed db (err e) = db

abbrev stored : Result (Db × ℕ) → Result Db
stored (ok (after, id)) = ok after
stored (err e) = err e

module _ (pick : List Offer → Option Offer) (like : Text → Option Text → Bool) where
  unfoldable pub answer : Db → Call → Db
  unfolding create_offer set_status judge_reject delete_offer expire_stale add_manual unblock_host
      register
  answer db (submit r) = committed db (stored (create_offer pick db r))
  answer db (review id status by now) = committed db (set_status like db id status by now)
  answer db (judge id reason) = committed db (judge_reject db id reason)
  answer db (delete id) = committed db (delete_offer db id)
  answer db (expire days now) = (expire_stale db days now).0
  answer db (block host by) = committed db (add_manual db host by)
  answer db (unblock id by) = committed db (unblock_host db id by)
  answer db (register_directory host) = (register db host).0

  unfoldable pub answer_all : Db → List Call → Db
  unfolding answer
  answer_all db [] = db
  answer_all db (c ∷ calls) = answer_all (answer db c) calls

abbrev IsValidDb : Db → Type 0
IsValidDb db = IsValid db.next_id db.offers

unmoved : (a b : Db) → SameOffers a b → IsValidDb a → IsValidDb b
unmoved a b same h =
    subst (λ n. IsValid n b.offers) (sym same.1) (subst (IsValid a.next_id) (sym same.0) h)

created :
    (pick : List Offer → Option Offer) (db : Db) (r : Request) (e : Result (Db × ℕ))
    → create_offer pick db r ≡ e
    → IsValidDb db
    → IsValidDb (committed db (stored e))
created pick db r (ok (after, id)) e h = (create_offer-IsValid pick db h r after id e).0
created pick db r (err x) e h = h

module _ (like : Text → Option Text → Bool) (db : Db) (h : IsValidDb db) (id by now : ℕ) where
  status-IsValid :
      (status : OfferStatus) (o : Offer)
      → get_row id db.offers ≡ some o
      → IsValidDb (
          after_status like
            (record db { offers = modify id (mark status by) db.offers })
            id
            status
            by
            now
            o)
  unfolding after_status maybe_autoblock_hosts
  status-IsValid rejected o found =
      let marked = record db { offers = modify id (mark rejected by) db.offers } in
      unmoved marked
        (autoblock_all like (list_approved_hosts marked)
          (offer_host_candidates (mark rejected by o)) marked)
        (autoblock_all-SameOffers like (list_approved_hosts marked)
          (offer_host_candidates (mark rejected by o)) marked)
        (unpublished db.next_id id by rejected db.offers (λ e. absurd (cc)) h)
  status-IsValid published o found = publish-IsValid db.next_id id by now db.offers o h found
  status-IsValid pending_review o found =
      unpublished db.next_id id by pending_review db.offers (λ e. absurd (cc)) h
  status-IsValid expired o found =
      unpublished db.next_id id by expired db.offers (λ e. absurd (cc)) h

  review-IsValid :
      (status : OfferStatus) → IsValidDb (committed db (set_status like db id status by now))
  unfolding set_status
  review-IsValid status = elim (Option-cases (get_row id db.offers)) [
    | inl missing ↦ rw (set_status, missing) h
    | inr (o, found) ↦ rw (set_status, found) (status-IsValid status o found)
  ]

judge-IsValid :
    (db : Db) (id : ℕ) (reason : Text)
    → IsValidDb db
    → IsValidDb (committed db (judge_reject db id reason))
unfolding judge_reject
judge-IsValid db id reason h = elim (Option-cases (get_row id db.offers)) [
  | inl missing ↦ rw (judge_reject, missing) h
  | inr (o, found) ↦ elim (Bool-cases (is_unjudged o)) [
    | inl fresh ↦
        rw (judge_reject, found, fresh)
          (modify-IsValid db.next_id id (judged reason) db.offers (λ x. refl, λ x e. refl) h)
    | inr old ↦ rw (judge_reject, found, old) h
  ]
]

delete-IsValid : (db : Db) (id : ℕ) → IsValidDb db → IsValidDb (committed db (delete_offer db id))
unfolding delete_offer
delete-IsValid db id h = elim (Option-cases (get_row id db.offers)) [
  | inl missing ↦ rw (delete_offer, missing) h
  | inr (o, found) ↦ rw (delete_offer, found) (remove_row-IsValid db.next_id id db.offers h)
]

block-IsValid :
    (db : Db) (host : Text) (by : ℕ)
    → IsValidDb db
    → IsValidDb (committed db (add_manual db host by))
unfolding add_manual
block-IsValid db host by h = elim (Bool-cases (null (bare_host host))) [
  | inl empty ↦ rw (add_manual, empty) h
  | inr named ↦
      rw (add_manual, named)
        (unmoved db (approve_host db (bare_host host) (some by) (λ _. some by))
          (approve_host-SameOffers db (bare_host host) (some by) (λ _. some by)) h)
]

unblock-IsValid :
    (db : Db) (id by : ℕ) → IsValidDb db → IsValidDb (committed db (unblock_host db id by))
unfolding unblock_host review_host
unblock-IsValid db id by h = elim (Option-cases (find? (λ h. h.id == id) db.blocked)) [
  | inl missing ↦ rw (committed, unblock_host, review_host, missing) h
  | inr (host, found) ↦ rw (committed, unblock_host, review_host, found) h
]

register-IsValid : (db : Db) (host : Text) → IsValidDb db → IsValidDb (register db host).0
unfolding register
register-IsValid db host h =
    elim (Bool-cases (null (bare_host host) || contains db.directories (bare_host host))) [
      | inl known ↦ rw (register, known) h
      | inr new ↦ rw (register, new) (sweep-IsValid db.next_id (bare_host host) db.offers h)
    ]

module _ (pick : List Offer → Option Offer) (like : Text → Option Text → Bool) where
  answer-IsValid : (db : Db) (c : Call) → IsValidDb db → IsValidDb (answer pick like db c)
  unfolding answer expire_stale
  answer-IsValid db (submit r) h = created pick db r (create_offer pick db r) refl h
  answer-IsValid db (review id status by now) h = review-IsValid like db h id by now status
  answer-IsValid db (judge id reason) h = judge-IsValid db id reason h
  answer-IsValid db (delete id) h = delete-IsValid db id h
  answer-IsValid db (expire days now) h =
      expire_rows-IsValid db.next_id (now - days * day) db.offers h
  answer-IsValid db (block host by) h = block-IsValid db host by h
  answer-IsValid db (unblock id by) h = unblock-IsValid db id by h
  answer-IsValid db (register_directory host) h = register-IsValid db host h

  -- From a valid database, every sequence of submissions, reviews, verdicts of the judge, deletions,
  -- expiries and changes of the host lists leaves a valid database: ids are distinct and below the
  -- next id, and a published row supersedes nothing.
  pub answer_all-IsValid :
      (db : Db) (calls : List Call)
      → IsValid db.next_id db.offers
      → IsValid (answer_all pick like db calls).next_id (answer_all pick like db calls).offers
  unfolding answer_all
  answer_all-IsValid db [] h = h
  answer_all-IsValid db (c ∷ calls) h =
      answer_all-IsValid (answer pick like db c) calls (answer-IsValid db c h)
