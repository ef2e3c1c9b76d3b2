-- ===== src/Backend/Sources/Tests.antt =====
-- The theorems on the sources at concrete values.
use ubd_probe.Prelude.{
  ℕ, ◌≡◌, refl, sym, find?, All, inl, true, Option, none, some, List, [], ◌∷◌, map, nat_eq,
  option_eq,
}
use ubd_probe.Prelude.Table.{IsChoice, row_at}
use ubd_probe.Prelude.Text.{Text, codes}
use ubd_probe.Backend.Model.{crawler_suggestion, ok, err, conflict}
use ubd_probe.Backend.Urlnorm.{source_host}
use ubd_probe.Backend.Sources.{
  website, Source, SuggestedSource, SuggestedSourceCreate, SuggestionStatus, pending, approved,
  Tables, create_suggestion, suggestion_id_of,
}
use ubd_probe.Backend.Sources.Review.{approve, reject, delete_source}
use ubd_probe.Backend.Sources.OnePerHost.{IsOnePerHost}
use ubd_probe.Backend.Sources.Steps.{accepted, here, after, Reach-IsSound}
use ubd_probe.Backend.Sources.Reviewed.{review_once, approve-create_suggestion}
use ubd_probe.Backend.Sources.Deleted.{IsGone, sourceless, delete_source-IsGone}

first : {A : Type 0} → List A → Option A
first [] = none
first (x ∷ rows) = some x

first-IsChoice : {A : Type 0} → IsChoice (first {A = A})
unfolding first
first-IsChoice = record {
  chosen = λ P rows x h e. in_first P rows x h e;
  missed = λ rows e. no_first rows e;
}
  where
    in_first :
        {B : Type 0} (P : B → Type 0) (rows : List B) (x : B)
        → All P rows
        → first rows ≡ some x
        → P x
    in_first P [] x h e = absurd (cc)
    in_first P (y ∷ rows) x h e = let same : y ≡ x = cc in rw (sym same) h.0

    no_first : {B : Type 0} (rows : List B) → first rows ≡ none → rows ≡ []
    no_first [] e = refl
    no_first (y ∷ rows) e = absurd (cc)

abbrev shop : Text
shop = codes "https://shop.ua/sale"

abbrev idea : SuggestionStatus → Option ℕ → Option ℕ → SuggestedSource
idea status by now = record {
  id = 1;
  name = codes "shop";
  type = website;
  url_or_handle = shop;
  discovered_from_source_id = none;
  discovery_note = none;
  status = status;
  reviewed_by = by;
  reviewed_at = now;
}

abbrev shop_source : Source
shop_source = record {
  id = 1;
  name = codes "shop";
  type = website;
  url_or_handle = shop;
  is_active = true;
  last_crawled_at = none;
  created_by = crawler_suggestion;
}

abbrev before : Tables
before = record {
  sources = [];
  next_source = 1;
  suggestions = idea pending none none ∷ [];
  next_suggestion = 2;
  crawl_states = [];
  offers = [];
}

abbrev reviewed_tables : Tables
reviewed_tables = record before {
  sources = shop_source ∷ [];
  next_source = 2;
  suggestions = idea approved (some 7) (some 100) ∷ [];
}

approval : approve first before 1 7 100 ≡ ok (shop_source, reviewed_tables)
unfolding approve first
approval = refl

sound_start : IsOnePerHost before.sources before.next_source
sound_start = record { apart = tt; below = tt; differ = tt }

Reach-IsSound_example : IsOnePerHost reviewed_tables.sources reviewed_tables.next_source
Reach-IsSound_example =
    Reach-IsSound first first first-IsChoice sound_start
      (after here (accepted 1 7 100 shop_source approval))

review_once_example :
    (approve first reviewed_tables 1 8 200 ≡ err conflict)
    × (reject reviewed_tables 1 8 200 ≡ err conflict)
review_once_example =
    review_once first before 1 7 100 8 200 reviewed_tables (inl (shop_source, approval))

abbrev again : SuggestedSourceCreate
again = record {
  name = codes "again";
  type = website;
  url_or_handle = codes "http://www.shop.ua/other?x=1";
  discovered_from_source_id = none;
  discovery_note = none;
}

host_of_shop : source_host shop ≡ some (codes "shop.ua")
unfolding source_host
host_of_shop = refl

host_of_again : source_host again.url_or_handle ≡ some (codes "shop.ua")
unfolding source_host
host_of_again = refl

stands : row_at suggestion_id_of 1 before.suggestions ≡ some (idea pending none none)
unfolding row_at find?
stands = refl

approve-create_suggestion_example :
    create_suggestion first reviewed_tables again ≡ (none, reviewed_tables)
approve-create_suggestion_example =
    approve-create_suggestion first first before reviewed_tables 1 7 100 (idea pending none none)
      (codes "shop.ua") shop_source again first-IsChoice stands refl host_of_shop approval refl
      host_of_again

abbrev emptied : Tables
emptied = record reviewed_tables { sources = [] }

deletion : delete_source reviewed_tables 1 ≡ ok emptied
unfolding delete_source
deletion = refl

delete_source-IsGone_example :
    IsGone 1 emptied × (map sourceless emptied.offers ≡ map sourceless reviewed_tables.offers)
delete_source-IsGone_example = delete_source-IsGone reviewed_tables 1 emptied deletion
