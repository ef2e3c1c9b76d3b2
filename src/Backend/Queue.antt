-- ===== src/Backend/Queue.antt =====
-- The one-off of backend/app/dedup_queue.py, which rejects the duplicate promos of the moderation
-- queue. The table is in the order of its ids; what the script prints is not modelled.
pub mod Repeats
pub mod Laws
pub mod Tests
use ubd_probe.Prelude.{
  ℕ, Bool, true, false, ◌&&◌, ◌||◌, not, Option, none, some, List, [], ◌∷◌, ◌++◌, ◌==◌, nat_eq,
  list_eq, null, find?, filter, if◌then◌else◌,
}
use ubd_probe.Prelude.Text.{Text}
use ubd_probe.Backend.Dedup.{Magnitude, normalize_tokens, is_duplicate_promo}
use ubd_probe.Backend.Content.{promo_text, promo_host, row_mags}
use ubd_probe.Backend.Model.{
  OfferStatus, pending_review, rejected, expired, status_eq, CreatedBy, crawler, creator_eq, Offer,
  modify,
}

-- A representative: the dictionaries of `kept`.
pub record Kept : Type 0 where
  pub id : ℕ
  pub host : Text
  pub mags : List Magnitude
  pub text : List Text

pub record Walked : Type 0 where
  pub kept : List Kept
  pub pairs : List (ℕ × ℕ)

-- What the loop computes of a row.
unfoldable pub entry : Offer → Kept
unfolding promo_host row_mags normalize_tokens promo_text
entry o = record {
  id = o.id;
  host = promo_host o.site_url o.article_url;
  mags = row_mags o;
  text = normalize_tokens (promo_text o.description o.discounts);
}

-- The rows that the query selects.
unfoldable pub is_walked : Offer → Bool
is_walked o = o.created_by == crawler && not (o.status == expired)

-- The test of a representative `k` against the row.
unfoldable pub same_promo : ℕ → Kept → Kept → Bool
unfolding is_duplicate_promo
same_promo threshold o k =
    k.host == o.host && is_duplicate_promo o.text o.mags k.text k.mags threshold

unfoldable pub stand : Kept → Walked → Walked
stand e w = record w { kept = w.kept ++ (e ∷ []) }

-- The body of the loop.
unfoldable pub look : ℕ → Offer → Walked → Walked
unfolding entry find? same_promo stand
look threshold o w =
    let e = entry o in
    if null e.host || null e.mags then w else elim (find? (same_promo threshold e) w.kept) [
      | none ↦ stand e w
      | some k ↦
          if o.status == pending_review
          then record w { pairs = w.pairs ++ ((o.id, k.id) ∷ []) }
          else stand e w
    ]

unfoldable pub look_all : ℕ → List Offer → Walked → Walked
unfolding look
look_all threshold [] w = w
look_all threshold (o ∷ rows) w = look_all threshold rows (look threshold o w)

unfoldable pub find_duplicates : List Offer → ℕ → List (ℕ × ℕ)
unfolding look_all filter is_walked
find_duplicates offers threshold =
    (look_all threshold (filter is_walked offers) (record { kept = []; pairs = [] })).pairs

-- The loop of `main` with `--apply`.
unfoldable pub apply_pairs : List (ℕ × ℕ) → List Offer → List Offer
unfolding modify
apply_pairs [] offers = offers
apply_pairs ((dup, keep) ∷ pairs) offers =
    apply_pairs pairs (modify dup (λ o. record o { status = rejected }) offers)
