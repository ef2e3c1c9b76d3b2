-- ===== src/Backend/Tests.antt =====
-- The theorems on moderation at a small table of offers.
use ubd_probe.Prelude.{
  ◌≡◌, refl, inl, inr, Bool, true, Option, none, some, List, [], ◌∷◌, nat_eq, list_eq, option_eq,
  arith, All, find?,
}
use ubd_probe.Prelude.Text.{Text, codes}
use ubd_probe.Backend.Dedup.{magnitude_eq}
use ubd_probe.Backend.Branches.{Request}
use ubd_probe.Backend.Intake.{existing_row, create_rows, create_offer}
use ubd_probe.Backend.Intake.Published.{create_rows-Keeps}
use ubd_probe.Backend.Intake.Refused.{create_offer-refused}
use ubd_probe.Backend.Model.{
  pending_review, published, expired, status_eq, crawler, percent, discount, Offer, OfferCreate, Db,
  ok, err, integrity_error, get_row, modify,
}
use ubd_probe.Backend.Moderation.{
  set_status, offer_host_candidates, is_from, maybe_autoblock_hosts, judged,
}
use ubd_probe.Backend.Moderation.Publish.{set_status-supersedes}
use ubd_probe.Backend.Moderation.Autoblock.{IsProtected, maybe_autoblock_hosts-spared}
use ubd_probe.Backend.Rows.{In, IsPick, HasIds, Keeps, NoneLive}
use ubd_probe.Backend.Steps.{
  Call, submit, review, judge, delete, expire, block, register_directory, answer_all,
  answer_all-IsValid,
}
use ubd_probe.Backend.Valid.{IsValid}

abbrev page : Text
page = codes "https://shop.ua/promo/ubd"

abbrev hash : Text
hash = codes "c0ffee"

-- The lowest row of those that a query finds.
abbrev lowest : List Offer → Option Offer
lowest [] = none
lowest (o ∷ rows) = some o

lowest-IsPick : IsPick lowest
lowest-IsPick = record { picked = found; missed = nothing }
  where
    found : (rows : List Offer) (o : Offer) → lowest rows ≡ some o → In o rows
    found [] o e = absurd (cc)
    found (x ∷ rows) o e = inl (cc)

    nothing : (rows : List Offer) → lowest rows ≡ none → rows ≡ []
    nothing [] e = refl
    nothing (x ∷ rows) e = absurd (cc)

-- `LIKE` that finds every row, as a prefilter may.
abbrev all_rows : Text → Option Text → Bool
all_rows host column = true

abbrev live : Offer
live = record {
  id = 1;
  type = discount;
  title = codes "Shop";
  description = codes "знижка для військових";
  provider = codes "Shop";
  location_names = [];
  valid_from = none;
  valid_until = none;
  discount_type = some percent;
  discount_value = some 1000;
  site_url = some page;
  article_url = some page;
  image_url = none;
  logo_url = none;
  target_url = none;
  target_url_canonical = none;
  article_url_canonical = some (codes "shop.ua/promo/ubd");
  source_id = some 7;
  content_hash = some (codes "beef");
  last_seen_at = some 100;
  status = published;
  created_by = crawler;
  reviewed_by = some 1;
  rejection_reason = none;
  supersedes_offer_id = none;
  target_categories = [];
  offer_categories = [];
  discounts = [];
  links = [];
}

-- A change of the live row that waits for review.
abbrev shadow : Offer
shadow = record live {
  id = 2;
  status = pending_review;
  content_hash = some (codes "f00d");
  discount_value = some 1500;
  supersedes_offer_id = some 1;
}

-- A row of another page whose time is over.
abbrev dead : Offer
dead = record live {
  id = 3;
  status = expired;
  article_url_canonical = some (codes "shop.ua/old");
  content_hash = some hash;
}

abbrev db : Db
db = record {
  offers = live ∷ shadow ∷ dead ∷ [];
  next_id = 4;
  blocked = [];
  next_host_id = 1;
  directories = [];
  target_categories = [];
  offer_categories = [];
}

abbrev payload : OfferCreate
payload = record {
  type = discount;
  title = codes "Shop";
  description = codes "знижка";
  provider = codes "Shop";
  locations = [];
  valid_from = none;
  valid_until = none;
  discount_type = some percent;
  discount_value = some 2000;
  site_url = some page;
  article_url = some page;
  target_url = none;
  image_url = none;
  logo_url = none;
  target_category_ids = [];
  offer_category_ids = [];
  discounts = [];
}

-- The page is crawled again with another discount.
abbrev changed : Request
changed = record {
  payload = payload;
  created_by = crawler;
  status = pending_review;
  source_id = some 7;
  content_hash = some (codes "f1ee");
  now = 500;
  threshold = 600;
}

-- The content of the dead row comes again, and gives no page.
abbrev revived_content : Request
revived_content = record changed {
  content_hash = some hash;
  payload = record payload { article_url = none; site_url = none };
}

ids : HasIds db.offers
ids = (((λ e. ground arith), ((λ e. ground arith), tt)), (((λ e. ground arith), tt), (tt, tt)))

valid : IsValid db.next_id db.offers
valid = (((omega arith, refl), ((omega arith, refl), ((omega arith, refl), tt))), ids)

create_rows-Keeps_example : Keeps db.offers (create_rows lowest db changed).rows
create_rows-Keeps_example = create_rows-Keeps lowest lowest-IsPick db ids changed refl

refused : existing_row lowest db revived_content ≡ none
unfolding existing_row
refused = refl

create_offer-refused_example : create_offer lowest db revived_content ≡ err integrity_error
create_offer-refused_example =
    create_offer-refused lowest db revived_content dead 7 hash refused (inr (inr (inl refl))) refl
      refl refl refl

-- The table once the changed page has been submitted.
abbrev resubmitted : Db
resubmitted = record db {
  offers = (create_rows lowest db changed).rows;
  next_id = (create_rows lowest db changed).next_id;
}

accepted : create_offer lowest db changed ≡ ok (resubmitted, 2)
unfolding create_offer create_rows
accepted = refl

abbrev day_of_work : List Call
day_of_work =
    submit changed
    ∷ review 2 published 1 600
    ∷ judge 3 (codes "old")
    ∷ delete 3
    ∷ expire 30 700
    ∷ block (codes "spam.ua") 1
    ∷ register_directory (codes "catalog.ua")
    ∷ []

answer_all-IsValid_example :
    IsValid
      (answer_all lowest all_rows db day_of_work).next_id
      (answer_all lowest all_rows db day_of_work).offers
answer_all-IsValid_example = answer_all-IsValid lowest all_rows db day_of_work valid

set_status-supersedes_example :
    (after : Db) × (set_status all_rows db 2 published 5 600 ≡ ok after)
    × (get_row 2 after.offers
        ≡ some (record shadow {
          status = published;
          reviewed_by = some 5;
          last_seen_at = some 600;
          supersedes_offer_id = none;
        }))
    × NoneLive 1 after.offers
unfolding get_row find?
set_status-supersedes_example =
    set_status-supersedes all_rows db 2 5 600 shadow 1 refl refl (λ e. ground arith)

from_live : (h : Text) → h ≡ codes "shop.ua" → is_from all_rows h live ≡ true
unfolding is_from
from_live h e = rw e refl

hosts_of_live : offer_host_candidates live ≡ codes "shop.ua" ∷ []
unfolding offer_host_candidates
hosts_of_live = refl

-- The host of the live row has a published row.
live_host : All (IsProtected all_rows db) (offer_host_candidates live)
live_host = rw hosts_of_live (inl (live, inl refl, from_live (codes "shop.ua") refl, refl), tt)

maybe_autoblock_hosts-spared_example : maybe_autoblock_hosts all_rows db live ≡ db
maybe_autoblock_hosts-spared_example = maybe_autoblock_hosts-spared all_rows db live live_host

abbrev after_verdict : Db
after_verdict = record db { offers = modify 2 (judged (codes "not for veterans")) db.offers }
