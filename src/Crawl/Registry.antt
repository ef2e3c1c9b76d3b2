-- ===== src/Crawl/Registry.antt =====
-- `DomainRegistry` of crawler/crawler/discovery/domain_registry.py, without its file. Scores and
-- weights are millionths and rounded down; a difference that would be negative is 0, as in `max(0.0, …)`.
pub mod Laws
use ubd_probe.Prelude.{
  ℕ, suc, ◌+◌, ◌-◌, ◌*◌, ◌/◌, Bool, true, false, ◌&&◌, ◌||◌, not, Option, none, some, List, [], ◌∷◌,
  map, take, filter, contains, null, length, ltb, leb, ◌==◌, nat_eq, list_eq, list_beq,
  if◌then◌else◌,
}
use ubd_probe.Prelude.Dict.{Dict, lookup, insert}
use ubd_probe.Prelude.Text.{Text}
use ubd_probe.Hosts.{bare_host}
use ubd_probe.Backend.Urlnorm.{text_leb}

-- An entry of `domains`.
pub record Domain : Type 0 where
  pub score : ℕ
  pub offers : ℕ
  pub errors : ℕ
  pub rejects : ℕ
  pub passes : ℕ
  pub empty_passes : ℕ
  pub skip_left : ℕ
  pub first_seen : ℕ
  pub last_seen : ℕ
  pub last_offer : ℕ
  pub media_streak : ℕ
  pub provider_ever : Bool
  pub media_blocked : Bool

pub record Registry : Type 0 where
  pub domains : Dict Text Domain
  pub decay : ℕ
  pub offer_weight : ℕ
  pub error_weight : ℕ
  pub promote_min_score : ℕ
  pub reject_weight : ℕ
  pub empty_skip : ℕ

abbrev pub new_domain : ℕ → Domain
new_domain now = record {
  score = 0;
  offers = 0;
  errors = 0;
  rejects = 0;
  passes = 0;
  empty_passes = 0;
  skip_left = 0;
  first_seen = now;
  last_seen = now;
  last_offer = 0;
  media_streak = 0;
  provider_ever = false;
  media_blocked = false;
}

abbrev pub known_domain : ℕ → Option Domain → Domain
known_domain now none = new_domain now
known_domain now (some e) = e

abbrev unit : ℕ
unit = 1000000

-- What one crawl of a host does to its entry.
unfoldable pub crawled : Registry → ℕ → ℕ → Bool → ℕ → Domain → Domain
crawled r offers errors structural_provider now e = record e {
  score = e.score * r.decay / unit + offers * r.offer_weight - errors * r.error_weight;
  offers = e.offers + offers;
  errors = e.errors + errors;
  passes = e.passes + 1;
  empty_passes = if offers == 0 then e.empty_passes + 1 else e.empty_passes;
  skip_left = if offers == 0 then r.empty_skip else 0;
  last_offer = if offers == 0 then e.last_offer else now;
  provider_ever = structural_provider || e.provider_ever;
  media_streak =
      if structural_provider
      then 0
      else if ltb 0 offers
      then e.media_streak + 1
      else e.media_streak;
  last_seen = now;
}

unfoldable pub domain_of : Text → Registry → Option Domain
unfolding bare_host lookup
domain_of host r = lookup (bare_host host) r.domains

abbrev pub put : Text → Domain → Registry → Registry
put host e r = record r { domains = insert host e r.domains }

unfoldable pub record_crawl : Text → ℕ → ℕ → Bool → ℕ → Registry → Registry
unfolding bare_host domain_of insert crawled
record_crawl host offers errors structural_provider now r =
    if null (bare_host host)
    then r
    else put (bare_host host)
        (crawled r offers errors structural_provider now (known_domain now (domain_of host r))) r

unfoldable pub media_block_due : Text → ℕ → Registry → Bool
unfolding domain_of
media_block_due host k r = elim (domain_of host r) [
  | none ↦ false
  | some e ↦ not (e.provider_ever || e.media_blocked) && leb k e.media_streak
]

unfoldable pub editorial_block_due : Text → Registry → Bool
unfolding domain_of
editorial_block_due host r = elim (domain_of host r) [
  | none ↦ true
  | some e ↦ not e.provider_ever && not e.media_blocked
]

unfoldable pub mark_media_blocked : Text → Registry → Registry
unfolding domain_of insert bare_host
mark_media_blocked host r = elim (domain_of host r) [
  | none ↦ r
  | some e ↦ put (bare_host host) (record e { media_blocked = true }) r
]

unfoldable pub take_skip : Text → Registry → Bool × Registry
unfolding domain_of insert bare_host
take_skip host r = elim (domain_of host r) [
  | none ↦ (false, r)
  | some e ↦
      if ltb 0 e.skip_left
      then (true, put (bare_host host) (record e { skip_left = e.skip_left - 1 }) r)
      else (false, r)
]

unfoldable pub record_rejections : Text → ℕ → Registry → Registry
unfolding domain_of insert bare_host
record_rejections host n r = elim (domain_of host r) [
  | none ↦ r
  | some e ↦
      if null (bare_host host) || n == 0
      then r
      else put (bare_host host)
          (record e { score = e.score - n * r.reject_weight; rejects = e.rejects + n }) r
]

unfoldable pub score_of : Text → Registry → ℕ
unfolding domain_of
score_of host r = elim (domain_of host r) [ none ↦ 0 | some e ↦ e.score ]

unfoldable pub seen_within : Text → ℕ → ℕ → Registry → Bool
unfolding domain_of
seen_within host seconds now r = elim (domain_of host r) [
  | none ↦ false
  | some e ↦ ltb now (e.last_seen + seconds)
]

abbrev pub is_feedable : List Text → ℕ → ℕ → Registry → Text × Domain → Bool
is_feedable known_hosts cooldown now r (h, e) =
    leb r.promote_min_score e.score
    && not (contains known_hosts h)
    && not (not (cooldown == 0) && ltb now (e.last_seen + cooldown))

-- The key of the sort: a higher score, then the smaller name.
unfoldable pub ranks_before : Text × ℕ → Text × ℕ → Bool
unfolding text_leb
ranks_before (h, s) (g, t) = ltb t s || (s == t && text_leb h g)

unfoldable pub insert_ranked : Text × ℕ → List (Text × ℕ) → List (Text × ℕ)
unfolding ranks_before
insert_ranked x [] = x ∷ []
insert_ranked x (y ∷ rows) =
    let rest = insert_ranked x rows in if ranks_before x y then x ∷ y ∷ rows else y ∷ rest

unfoldable pub rank : List (Text × ℕ) → List (Text × ℕ)
unfolding insert_ranked
rank [] = []
rank (x ∷ rows) = insert_ranked x (rank rows)

unfoldable pub top : ℕ → List Text → ℕ → ℕ → Registry → List Text
unfolding filter contains list_beq rank
top n known_hosts cooldown now r =
    map (λ row. row.0)
      (take n (
        rank (
          map (λ d. (d.0, d.1.score)) (filter (is_feedable known_hosts cooldown now r) r.domains))))

abbrev pub is_dead : ℕ → ℕ → ℕ → Text × Domain → Bool
is_dead min_score ttl now (h, e) = ltb e.score min_score && leb (e.last_seen + ttl) now

-- `prune`, with the number of domains that it returns
unfoldable pub prune_domains : ℕ → ℕ → ℕ → Registry → Registry × ℕ
unfolding filter
prune_domains min_score ttl now r = (
  record r { domains = filter (λ d. not (is_dead min_score ttl now d)) r.domains },
  length (filter (is_dead min_score ttl now) r.domains),
)
