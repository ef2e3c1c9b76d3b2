-- ===== src/Discover/Types.antt =====
-- crawler/crawler/models.py: a candidate source. Its type is one of the four that the code makes.
use mathlib.Core.Path.{◌≡◌}
use ubd_probe.Prelude.{ℕ, ◌↔◌, Bool, true, Option, none, some, List, [], ◌∷◌, Eq, nat_beq, arith}
use ubd_probe.Prelude.Text.{Text}
use ubd_probe.Search.Classify.{SourceType, website, facebook, telegram, instagram}

abbrev type_code : SourceType → ℕ
type_code website = 0
type_code facebook = 1
type_code telegram = 2
type_code instagram = 3

pub type_iff : (a b : SourceType) → (nat_beq (type_code a) (type_code b) ≡ true) ↔ (a ≡ b)
type_iff a b = ground arith

instance abbrev pub type_eq : Eq SourceType
type_eq = record { beq = λ a b. nat_beq (type_code a) (type_code b); beq_iff = type_iff }

pub record SourceCandidate : Type 0 where
  pub name : Text
  pub type : SourceType
  pub url_or_handle : Text
  pub discovered_from_source_id : Option ℕ
  pub discovery_note : Option Text
  pub bypass_host_skip : Bool

-- `RawItem`: one block of a fetched page, without the fields that only the extractor reads.
pub record RawItem : Type 0 where
  pub key : Text
  pub text : Text
  pub url : Option Text
  pub links : List Text
  pub site_name : Option Text
  pub title : Option Text
  pub locality : Option Text
  pub has_offer_schema : Bool
  pub is_article : Bool
  pub has_business_schema : Bool
  pub has_news_schema : Bool
  pub has_feed : Bool

-- The text of a field that may be missing, as Python's `or ""` reads it.
abbrev pub text_or : Option Text → Text
text_or none = []
text_or (some t) = t

-- `next((f(it) for it in items if f(it)), None)`
unfoldable pub first_text : List (Option Text) → Option Text
first_text [] = none
first_text (none ∷ rest) = first_text rest
first_text (some [] ∷ rest) = first_text rest
first_text (some (c ∷ t) ∷ rest) = some (c ∷ t)
