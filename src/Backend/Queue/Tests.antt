-- ===== src/Backend/Queue/Tests.antt =====
-- The deduplication of the queue at concrete rows.
use ubd_probe.Prelude.{arith, ◌≡◌, nat_eq, refl, some, none, List, [], ◌∷◌, All}
use ubd_probe.Prelude.Text.{codes}
use ubd_probe.Backend.Model.{pending_review, percent, discount, crawler, Offer}
use ubd_probe.Backend.Change.{Each}
use ubd_probe.Backend.Queue.{find_duplicates, apply_pairs}
use ubd_probe.Backend.Queue.Repeats.{IsRepeat}
use ubd_probe.Backend.Queue.Laws.{Rejects, find_duplicates-IsRepeat}

abbrev row : Offer
row = record {
  id = 1;
  type = discount;
  title = codes "Shop";
  description = codes "alpha beta gamma delta";
  provider = codes "Shop";
  location_names = [];
  valid_from = none;
  valid_until = none;
  discount_type = some percent;
  discount_value = some 1000;
  site_url = some (codes "https://shop.ua/promo");
  article_url = some (codes "https://shop.ua/promo");
  image_url = none;
  logo_url = none;
  target_url = none;
  target_url_canonical = none;
  article_url_canonical = some (codes "shop.ua/promo/ubd");
  source_id = some 7;
  content_hash = some (codes "beef");
  last_seen_at = some 100;
  status = pending_review;
  created_by = crawler;
  reviewed_by = some 1;
  rejection_reason = none;
  supersedes_offer_id = none;
  target_categories = [];
  offer_categories = [];
  discounts = [];
  links = [];
}

-- Each text is like the next one, and the first is not like the last.
abbrev rows : List Offer
rows =
    row
    ∷ record row { id = 2; description = codes "beta gamma delta omega" }
    ∷ record row { id = 3; description = codes "gamma delta omega kappa" }
    ∷ []

first_run : find_duplicates rows 600 ≡ (2, 1) ∷ []
unfolding find_duplicates
first_run = refl

-- A second run finds another pair: the row that the first one rejected now stands for itself.
second_run : find_duplicates (apply_pairs ((2, 1) ∷ []) rows) 600 ≡ (3, 2) ∷ []
unfolding find_duplicates apply_pairs
second_run = refl

find_duplicates-IsRepeat_example :
    All (IsRepeat rows 600) (find_duplicates rows 600)
    × Each Rejects rows (apply_pairs (find_duplicates rows 600) rows)
find_duplicates-IsRepeat_example =
    find_duplicates-IsRepeat rows 600
      ((omega arith, (omega arith, tt)), ((omega arith, tt), (tt, tt)))
