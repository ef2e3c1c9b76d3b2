-- ===== src/Discover/Tests.antt =====
-- The theorems on the active discovery at concrete values.
use ubd_probe.Prelude.{
  ℕ, ◌≤◌, ◌≡◌, ◌⊎◌, refl, Bool, true, false, ◌&&◌, Option, none, some, List, [], ◌∷◌, filter,
  length, take, All, nat_eq,
}
use ubd_probe.Prelude.Table.{Pairwise}
use ubd_probe.Prelude.Dict.{Dict}
use ubd_probe.Prelude.Text.{Text, codes}
use ubd_probe.Search.Classify.{website}
use ubd_probe.Crawl.Registry.{Registry}
use ubd_probe.Discover.Types.{SourceCandidate, RawItem, text_or}
use ubd_probe.Discover.Blocklist.{Blocks, normalized, is_blocked_host}
use ubd_probe.Discover.Attribution.{PageCtx, Attribution, attribute, is_media}
use ubd_probe.Discover.Attribution.Laws.{IsFirstParty, IsThirdParty, attribute-party}
use ubd_probe.Discover.Select.{Gates, Stores, select_fetch_set}
use ubd_probe.Discover.Select.Laws.{select_fetch_set_bounds, select_fetch_set-take}
use ubd_probe.Discover.Select.Fit.{IsFit, select_fetch_set-IsFit}
use ubd_probe.Discover.Select.Spread.{Differ, select_fetch_set-Differ}
use ubd_probe.Discover.Harvest.{
  OfferCandidate, found, Meanwhile, Parts, Settings, World, Summary, group_from,
}
use ubd_probe.Discover.Harvest.Run.{Net, Share, execute}
use ubd_probe.Discover.Harvest.Pool.{IsAccount, execute-IsAccount}
use ubd_probe.Discover.Harvest.Groups.{Distinct, group_at, has_article, group_from-partition}
use ubd_probe.Discover.Active.{run}
use ubd_probe.Discover.Active.Laws.{IsNew, run-IsNew}

abbrev site : Text → SourceCandidate
site url = record {
  name = url;
  type = website;
  url_or_handle = url;
  discovered_from_source_id = none;
  discovery_note = none;
  bypass_host_skip = false;
}

abbrev candidates : List SourceCandidate
candidates =
    site (codes "https://shop.ua/")
    ∷ site (codes "https://news.ua/")
    ∷ site (codes "https://shop.ua/a")
    ∷ site (codes "https://spa.ua/")
    ∷ site (codes "https://cafe.ua/")
    ∷ []

abbrev blocks : Blocks
blocks = record { learned = codes "spa.ua" ∷ []; geo_blocked = []; lang_blocked = [] }

abbrev registry : Registry
registry = record {
  domains = [];
  decay = 900000;
  offer_weight = 1000000;
  error_weight = 500000;
  promote_min_score = 1000000;
  reject_weight = 500000;
  empty_skip = 3;
}

abbrev stores : Stores
stores = record { registry = some registry; geo_hosts = some []; blocks = blocks }

abbrev gates : Gates
gates = record {
  budget = 2;
  revisit_cooldown = 3600;
  fetchers = λ type. true;
  known = [];
  known_hosts = [];
}

abbrev clock : ℕ → ℕ
clock step = 1000

select_fetch_set_bounds_example :
    (length (select_fetch_set gates clock stores candidates).selected ≤ gates.budget)
    × ((select_fetch_set gates clock stores candidates).stop ≤ length candidates)
    × (((select_fetch_set gates clock stores candidates).stop ≡ length candidates)
        ⊎ (length (select_fetch_set gates clock stores candidates).selected ≡ gates.budget))
select_fetch_set_bounds_example = select_fetch_set_bounds gates clock stores candidates

select_fetch_set-take_example :
    select_fetch_set gates clock stores
      (take (select_fetch_set gates clock stores candidates).stop candidates)
    ≡ select_fetch_set gates clock stores candidates
select_fetch_set-take_example = select_fetch_set-take gates clock stores candidates

synced : stores.blocks.geo_blocked ≡ normalized []
unfolding normalized filter
synced = refl

select_fetch_set-IsFit_example :
    All (IsFit gates stores.blocks) (select_fetch_set gates clock stores candidates).selected
select_fetch_set-IsFit_example = select_fetch_set-IsFit gates clock stores candidates synced

select_fetch_set-Differ_example :
    Pairwise Differ (select_fetch_set gates clock stores candidates).selected
select_fetch_set-Differ_example = select_fetch_set-Differ gates clock stores candidates refl refl

abbrev offer : Text → Option Text → OfferCandidate
offer title article = record {
  title = title;
  provider = codes "shop";
  body = [];
  article_url = article;
  offer_category_ids = [];
  offer_category_matches = [];
}

abbrev article_a : Option Text
article_a = some (codes "https://shop.ua/a")

abbrev offers : List OfferCandidate
offers =
    offer (codes "one") article_a ∷ offer (codes "two") none ∷ offer (codes "three") article_a ∷ []

group_from-partition_example :
    Distinct (group_from offers [])
    × (group_at article_a (group_from offers []) ≡ filter (has_article article_a) offers)
group_from-partition_example = group_from-partition offers article_a

abbrev item : RawItem
item = record {
  key = codes "k";
  text = codes "discount";
  url = some (codes "https://shop.ua/a");
  links = codes "https://cafe.ua/menu" ∷ [];
  site_name = some (codes "Shop");
  title = none;
  locality = none;
  has_offer_schema = true;
  is_article = false;
  has_business_schema = false;
  has_news_schema = false;
  has_feed = false;
}

abbrev never : Text → Bool
never text = false

abbrev first_link : List Text → Text → Option Text
first_link [] url = none
first_link (link ∷ links) url = some link

abbrev idle : Meanwhile
idle = record {
  added = [];
  stores = λ s. s;
  lang_hosts = λ s. s;
  aggregator = λ s. s;
  corpus = λ s. s;
  businesses = λ s. s;
  directories = λ s. s;
}

abbrev parts : Parts
parts = record {
  others = λ moment. idle;
  extract = λ it provider. found (offer it.text it.url);
  first_person = never;
  pick_target = first_link;
  keep = λ o. true;
  aggregate_page = λ group. offer (codes "page") none;
  resolve_categories = λ matches. some [];
  accepts_offer = λ o. true;
  accepts_suggestion = λ s. true;
  email_domains = λ items host. [];
}

abbrev settings : Settings
settings = record {
  hardening_enabled = true;
  aggregator_min_outbound = 3;
  aggregator_max_domains = 500;
  source_hint_enabled = true;
  editorial_gate_enabled = true;
  media_autoblock_crawls = 2;
}

abbrev net : Net
net = record {
  fetchers = λ type. true;
  fetch = λ type url. some (item ∷ []);
  is_non_ukrainian = never;
  walker = none;
  seed_is_target = λ url. true;
  media_blocker = none;
}

abbrev world : World
world = record {
  moment = 0;
  stores = stores;
  lang_hosts = some [];
  aggregator = none;
  corpus = none;
  known = [];
  offers = [];
  suggestions = [];
  businesses = [];
  directories = [];
}

abbrev nothing_yet : Summary
nothing_yet = record { offers = 0; suggestions = 0; errors = 0 }

abbrev order : List (ℕ × SourceCandidate)
order = (1000, site (codes "https://shop.ua/")) ∷ (1010, site (codes "https://spa.ua/")) ∷ []

-- Two workers that both look at what is known before either has added to it.
abbrev shares : List Share
shares =
    record { others = λ moment. idle; order = order }
    ∷ record { others = λ moment. idle; order = order }
    ∷ []

-- Two workers of which the second has met what the first has added.
abbrev late : ℕ → Meanwhile
late moment = record idle { added = codes "cafe.ua" ∷ [] }

abbrev in_turn : List Share
in_turn =
    record { others = λ moment. idle; order = order } ∷ record { others = late; order = order } ∷ []

race :
    ((execute net parts settings shares world nothing_yet).1.suggestions ≡ 2)
    × ((execute net parts settings in_turn world nothing_yet).1.suggestions ≡ 1)
unfolding execute
race = (refl, refl)

execute-IsAccount_example :
    IsAccount world nothing_yet
      (execute net parts settings shares world nothing_yet).0
      (execute net parts settings shares world nothing_yet).1
    × (length (execute net parts settings shares world nothing_yet).0 ≡ length shares)
execute-IsAccount_example = execute-IsAccount net parts settings shares world nothing_yet

abbrev ctx : PageCtx
ctx = record {
  cand_type = website;
  cand_name = codes "shop";
  cand_url_or_handle = codes "https://shop.ua/";
  brand = some (codes "Shop");
  host = some (codes "shop.ua");
  offer_block_count = 2;
  outbound_host_count = 1;
}

abbrev cafe : Attribution
cafe = record {
  provider = codes "cafe.ua";
  is_first_party = false;
  suggest_type = website;
  suggest_url_or_handle = some (codes "https://cafe.ua");
  suggest_name = codes "cafe.ua";
}

attributed : attribute never first_link blocks item ctx 3 true ≡ some cafe
unfolding attribute
attributed = refl

attribute-party_example :
    (is_blocked_host blocks (text_or ctx.host) ≡ false)
    × ((((true && is_media never first_link blocks 3 item ctx) ≡ false)
          × IsFirstParty never first_link blocks item ctx cafe)
        ⊎ IsThirdParty never first_link blocks item ctx cafe)
attribute-party_example =
    attribute-party never first_link blocks item ctx 3 true cafe refl attributed

abbrev search : Text → ℕ → Option (List SourceCandidate)
search keyword page = some candidates

abbrev one : ℕ
one = 1

abbrev no_pages : Dict Text ℕ
no_pages = []

run-IsNew_example :
    IsNew [] (run search never 1 [] no_pages (codes "taxi" ∷ codes "spa" ∷ [])).out
    × ((one ≡ 0) ⊎ ((run search never 1 [] no_pages (codes "taxi" ∷ codes "spa" ∷ [])).used ≤ 1))
run-IsNew_example = run-IsNew search never 1 [] no_pages (codes "taxi" ∷ codes "spa" ∷ [])
