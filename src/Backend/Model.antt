-- ===== src/Backend/Model.antt =====
-- The tables of the backend that moderation works on: backend/app/models/enums.py, offer.py,
-- blocked_host.py, directory_host.py and the payload of backend/app/schemas/offer.py. A table is
-- the list of its rows in the order of their ids. Dates and times are numbers, discount values are
-- hundredths.
use ubd_probe.Prelude.{
  ℕ, ◌≡◌, ◌↔◌, true, Option, some, List, [], ◌∷◌, find?, Eq, ◌==◌, nat_beq, nat_eq, if◌then◌else◌,
  arith,
}
use ubd_probe.Prelude.Text.{Text}

pub data OfferStatus : Type 0 where
  pending_review published rejected expired : OfferStatus

pub data CreatedBy : Type 0 where
  admin crawler crawler_suggestion : CreatedBy

pub data DiscountType : Type 0 where
  percent fixed free special_price : DiscountType

pub data OfferType : Type 0 where
  discount event : OfferType

pub data BlockedStatus : Type 0 where
  -- `pending`, `approved` and `rejected`
  waiting approved declined : BlockedStatus

abbrev status_code : OfferStatus → ℕ
status_code pending_review = 0
status_code published = 1
status_code rejected = 2
status_code expired = 3

pub status_iff : (a b : OfferStatus) → (nat_beq (status_code a) (status_code b) ≡ true) ↔ (a ≡ b)
status_iff a b = ground arith

instance abbrev pub status_eq : Eq OfferStatus
status_eq = record { beq = λ a b. nat_beq (status_code a) (status_code b); beq_iff = status_iff }

abbrev creator_code : CreatedBy → ℕ
creator_code admin = 0
creator_code crawler = 1
creator_code crawler_suggestion = 2

pub creator_iff : (a b : CreatedBy) → (nat_beq (creator_code a) (creator_code b) ≡ true) ↔ (a ≡ b)
creator_iff a b = ground arith

instance abbrev pub creator_eq : Eq CreatedBy
creator_eq = record {
  beq = λ a b. nat_beq (creator_code a) (creator_code b);
  beq_iff = creator_iff;
}

abbrev discount_code : DiscountType → ℕ
discount_code percent = 0
discount_code fixed = 1
discount_code free = 2
discount_code special_price = 3

pub discount_iff :
    (a b : DiscountType) → (nat_beq (discount_code a) (discount_code b) ≡ true) ↔ (a ≡ b)
discount_iff a b = ground arith

instance abbrev pub discount_eq : Eq DiscountType
discount_eq = record {
  beq = λ a b. nat_beq (discount_code a) (discount_code b);
  beq_iff = discount_iff;
}

abbrev blocked_code : BlockedStatus → ℕ
blocked_code waiting = 0
blocked_code approved = 1
blocked_code declined = 2

pub blocked_iff :
    (a b : BlockedStatus) → (nat_beq (blocked_code a) (blocked_code b) ≡ true) ↔ (a ≡ b)
blocked_iff a b = ground arith

instance abbrev pub blocked_eq : Eq BlockedStatus
blocked_eq = record {
  beq = λ a b. nat_beq (blocked_code a) (blocked_code b);
  beq_iff = blocked_iff;
}

-- `OfferDiscount`, and `DiscountIn` of a payload with `sort_order` 0.
pub record Discount : Type 0 where
  pub label : Option Text
  pub discount_type : Option DiscountType
  pub discount_value : Option ℕ
  pub sort_order : ℕ

pub record OfferLink : Type 0 where
  pub provider : Text
  pub site_url : Option Text
  pub article_url : Option Text

-- `Offer`, without the two timestamps that the server sets.
pub record Offer : Type 0 where
  pub id : ℕ
  pub type : OfferType
  pub title : Text
  pub description : Text
  pub provider : Text
  pub location_names : List Text
  pub valid_from : Option ℕ
  pub valid_until : Option ℕ
  pub discount_type : Option DiscountType
  pub discount_value : Option ℕ
  pub site_url : Option Text
  pub article_url : Option Text
  pub image_url : Option Text
  pub logo_url : Option Text
  pub target_url : Option Text
  pub target_url_canonical : Option Text
  pub article_url_canonical : Option Text
  pub source_id : Option ℕ
  pub content_hash : Option Text
  pub last_seen_at : Option ℕ
  pub status : OfferStatus
  pub created_by : CreatedBy
  pub reviewed_by : Option ℕ
  pub rejection_reason : Option Text
  pub supersedes_offer_id : Option ℕ
  pub target_categories : List ℕ
  pub offer_categories : List ℕ
  pub discounts : List Discount
  pub links : List OfferLink

-- `OfferCreate`
pub record OfferCreate : Type 0 where
  pub type : OfferType
  pub title : Text
  pub description : Text
  pub provider : Text
  pub locations : List Text
  pub valid_from : Option ℕ
  pub valid_until : Option ℕ
  pub discount_type : Option DiscountType
  pub discount_value : Option ℕ
  pub site_url : Option Text
  pub article_url : Option Text
  pub target_url : Option Text
  pub image_url : Option Text
  pub logo_url : Option Text
  pub target_category_ids : List ℕ
  pub offer_category_ids : List ℕ
  pub discounts : List Discount

pub record BlockedHost : Type 0 where
  pub id : ℕ
  pub host : Text
  pub status : BlockedStatus
  pub reviewed_by : Option ℕ

pub record Db : Type 0 where
  pub offers : List Offer
  pub next_id : ℕ
  pub blocked : List BlockedHost
  pub next_host_id : ℕ
  pub directories : List Text
  pub target_categories : List ℕ
  pub offer_categories : List ℕ

-- The errors that a request ends with.
pub data Error : Type 0 where
  not_found conflict validation_error integrity_error : Error

pub data Result {ℓ} (A : Type ℓ) : Type ℓ where
  ok : A → Result A
  err : Error → Result A

-- An assignment to the fields of the row with an id.
unfoldable pub modify : ℕ → (Offer → Offer) → List Offer → List Offer
modify id f [] = []
modify id f (o ∷ offers) = (if o.id == id then f o else o) ∷ modify id f offers

-- `db.get(Offer, id)`
unfoldable pub get_row : ℕ → List Offer → Option Offer
unfolding find?
get_row id offers = find? (λ o. o.id == id) offers

abbrev pub touch : ℕ → Offer → Offer
touch now o = record o { last_seen_at = some now }
