-- ===== src/Search/Tests.antt =====
-- The theorems on the search state and its providers at concrete states.
use ubd_probe.Prelude.{
  ℕ, ◌+◌, ◌≡◌, refl, ◌≢◌, true, false, none, some, [], ◌∷◌, ltb, ◌==◌, nat_eq, list_eq, list_beq,
  if◌then◌else◌, arith,
}
use ubd_probe.Prelude.Dict.{lookup}
use ubd_probe.Prelude.Text.{Text, codes}
use ubd_probe.Search.State.{Candidate, PhraseStats, SearchState, fresh_state, key, set_cursor}
use ubd_probe.Search.Backends.{
  backend_of, BlockPolicy, record_block, soonest_recovery, in_global_backoff, set_global_backoff,
}
use ubd_probe.Search.Rotation.{Rotation, Hit, results, failure, Attempt, take_next_healthy}
use ubd_probe.Search.Rotation.Recovery.{AllKept, IsLong, record_block-AllKept, backoff-wakes}
use ubd_probe.Search.Searxng.{Searxng, Answer}
use ubd_probe.Search.Phrases.{current_page, record_page_result}
use ubd_probe.Search.Phrases.Laws.{AllInPages, record_page_result-InPages}
use ubd_probe.Search.Cache.{cache_get, cache_put, Inner}
use ubd_probe.Search.Cache.Laws.{cache_get-cache_put}

abbrev policy : BlockPolicy
policy = record {
  base = 300;
  cap = 2000;
  jitter = 500000;
  quarantine_threshold = 2;
  quarantine_seconds = 5000;
  reprobe_seconds = 900;
}

abbrev brave : Text
brave = codes "brave"

abbrev mojeek : Text
mojeek = codes "mojeek"

-- brave has failed once at time 10.
abbrev cooling : SearchState
cooling = record_block policy 0 brave 10 fresh_state

abbrev rotation : Rotation
rotation = record { pool = brave ∷ mojeek ∷ []; delay = 45; policy = policy; backoff_floor = 300 }

abbrev hit : Hit
hit = record { title = some (codes "Shop"); href = codes "https://shop.ua/" }

abbrev served : Attempt
served = record { reply = results (hit ∷ []); elapsed = 2; rand_delay = 0; rand_block = 0 }

abbrev throttled : Attempt
throttled = record { reply = failure; elapsed = 2; rand_delay = 0; rand_block = 0 }

abbrev phrase : Text
phrase = codes "Знижка"

abbrev shop : Candidate
shop = record {
  name = codes "Shop";
  type = codes "website";
  url_or_handle = codes "https://shop.ua";
}

-- A page of the phrase is cached at time 20.
abbrev cached : SearchState
cached = cache_put phrase (shop ∷ []) 1 20 fresh_state

abbrev stats : PhraseStats
stats = record { tries = 5; ewma = 10000; dry_streak = 4 }

-- The provider behind the cache finds one candidate.
abbrev inner : SearchState → ℕ → Inner
inner s now = record { found = shop ∷ []; served = true; state = s; now = now + 3 }

-- A provider that finds nothing.
abbrev silent : SearchState → ℕ → Inner
silent s now = record { found = []; served = false; state = s; now = now }

none_left : take_next_healthy (brave ∷ []) 50 cooling ≡ none
unfolding take_next_healthy record_block list_beq
none_left = refl

takes_mojeek : take_next_healthy rotation.pool 50 cooling ≡ some (mojeek, set_cursor 0 cooling)
unfolding take_next_healthy set_cursor record_block list_beq
takes_mojeek = refl

long : IsLong policy
long = record { quarantines = omega arith; covers = omega arith; jitter_le = omega arith }

fresh-AllKept : AllKept policy fresh_state
unfolding backend_of lookup
fresh-AllKept name b e = cc

cooling-AllKept : AllKept policy cooling
cooling-AllKept =
    record_block-AllKept policy 0 brave 10 fresh_state long (omega arith) fresh-AllKept

backoff-wakes_example :
    let wait = soonest_recovery (brave ∷ []) 100 50 cooling in
    let s' = set_global_backoff wait 50 cooling in
    (in_global_backoff (50 + wait) s' ≡ false)
    × (take_next_healthy (brave ∷ []) (50 + wait) s' ≢ none)
backoff-wakes_example =
    backoff-wakes (brave ∷ []) 100 50 policy cooling (λ e. absurd (cc)) cooling-AllKept none_left

fresh-AllInPages : AllInPages 3 fresh_state
unfolding lookup
fresh-AllInPages k e h = cc

-- The first page of the phrase has brought two candidates.
abbrev paged : SearchState
paged = record_page_result phrase (current_page phrase fresh_state) 2 3 fresh_state

paged-AllInPages : AllInPages 3 paged
paged-AllInPages = record_page_result-InPages phrase 2 3 fresh_state (omega arith) fresh-AllInPages

record_page_result-InPages_example :
    AllInPages 3 (record_page_result phrase (current_page phrase paged) 0 3 paged)
record_page_result-InPages_example =
    record_page_result-InPages phrase 0 3 paged (omega arith) paged-AllInPages

cache_get-cache_put_example :
    cache_get phrase 60 1 70 (cache_put phrase (shop ∷ []) 1 30 cached) ≡ (
      if key phrase 1 == key phrase 1
      then (if ltb 70 (30 + 60) then some (shop ∷ []) else none)
      else cache_get phrase 60 1 70 cached)
cache_get-cache_put_example = cache_get-cache_put phrase phrase 1 1 60 30 70 (shop ∷ []) cached

-- SearXNG has failed twice and fails again.
abbrev searxng : Searxng
searxng = record {
  results_per_keyword = 7;
  min_delay = 4;
  fail_threshold = 3;
  cooldown_base = 300;
  cooldown_cap = 3600;
  fails = 2;
  cooldown_until = 0;
  slice_ok = true;
  last_served = true;
}

abbrev no_answer : Answer
no_answer = record { hits = none; elapsed = 20 }
