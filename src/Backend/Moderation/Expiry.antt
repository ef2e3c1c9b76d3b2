-- ===== src/Backend/Moderation/Expiry.antt =====
-- Rows that leave the live set without a reviewer: the judge's rejections.
use ubd_probe.Prelude.{ℕ, ◌≡◌, ◌⊎◌, nat_eq}
use ubd_probe.Prelude.Text.{Text}
use ubd_probe.Backend.Model.{
  pending_review, crawler, crawler_suggestion, status_eq, creator_eq, Offer,
}
use ubd_probe.Backend.Moderation.{judged}

abbrev pub IsOpen : Offer → Type 0
IsOpen o =
    (o.status ≡ pending_review) × ((o.created_by ≡ crawler) ⊎ (o.created_by ≡ crawler_suggestion))

-- What the judge's rejection of a row may do to a row: nothing, or the rejection of this very row,
-- which was a pending row of the crawler or of its suggestions.
abbrev pub Judges : ℕ → Text → Offer → Offer → Type 0
Judges id reason o p = (p ≡ o) ⊎ ((o.id ≡ id) × IsOpen o × (p ≡ judged reason o))
