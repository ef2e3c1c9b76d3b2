-- ===== src/Discover/Aggregator.antt =====
-- crawler/crawler/discovery/aggregator_feed.py: the hosts behind the directories, and the feed that
-- brings them back as candidates a window at a time.
use ubd_probe.Prelude.{
  ℕ, suc, zero, ◌≤◌, ◌<◌, ◌≡◌, ◌⊎◌, inl, inr, refl, Bool-cases, arith, ◌+◌, ◌-◌, ◌%◌, min, max, leb,
  ltb, ltb→lt, Bool, true, false, ◌||◌, none, some, List, [], ◌∷◌, ◌++◌, contains, drop, length,
  null, ◌==◌, nat_eq, list_eq, list_beq, get_elem?, if◌then◌else◌,
}
use ubd_probe.Prelude.Text.{Text, codes}
use ubd_probe.Backend.Urlnorm.{text_leb}
use ubd_probe.Search.Classify.{website}
use ubd_probe.Discover.Types.{SourceCandidate, text_or}
use ubd_probe.Discover.Ref.{normalize_ref}

unfoldable pub insert_text : Text → List Text → List Text
unfolding text_leb
insert_text t [] = t ∷ []
insert_text t (u ∷ us) =
    let rest = insert_text t us in if text_leb t u then t ∷ u ∷ us else u ∷ rest

-- `sorted(hosts)`
unfoldable pub sort_texts : List Text → List Text
unfolding insert_text
sort_texts [] = []
sort_texts (t ∷ ts) = insert_text t (sort_texts ts)

-- The hosts that the list does not hold yet, behind it.
unfoldable pub append_new : List Text → List Text → List Text
unfolding contains list_beq
append_new [] cur = cur
append_new (h ∷ hosts) cur =
    append_new hosts (if null h || contains cur h then cur else cur ++ (h ∷ []))

-- `AggregatorDomainStore.add`: the newest `cap` hosts stay.
unfoldable pub add_domains : List Text → ℕ → List Text → List Text
unfolding append_new sort_texts
add_domains hosts cap stored =
    let cur = append_new (sort_texts hosts) stored in drop (length cur - cap) cur

-- The `n` hosts from the cursor on, round the end.
unfoldable pub window : List Text → ℕ → ℕ → List Text
window hosts cursor zero = []
window hosts cursor (suc n) =
    text_or (get_elem? hosts (cursor % length hosts)) ∷ window hosts (suc cursor) n

abbrev feed_candidate : Text → SourceCandidate
feed_candidate host = record {
  name = host;
  type = website;
  url_or_handle = codes "https://" ++ host;
  discovered_from_source_id = none;
  discovery_note = some (codes "aggregator-feed:" ++ host);
  bypass_host_skip = false;
}

unfoldable pub unknown_of : List Text → List Text → List SourceCandidate
unfolding contains list_beq normalize_ref
unknown_of known [] = []
unknown_of known (host ∷ hosts) =
    let rest = unknown_of known hosts in
    if contains known (normalize_ref website (codes "https://" ++ host))
    then rest
    else feed_candidate host ∷ rest

-- `AggregatorDomainFeed.candidates`, with the cursor that it leaves; a cursor in the file that is
-- negative is read as one that is too large.
unfoldable pub feed : ℕ → List Text → List Text → ℕ → List SourceCandidate × ℕ
unfolding window unknown_of
feed per_pass known hosts cursor =
    let n = max 1 (min per_pass (length hosts)) in
    let at = if leb (length hosts) cursor then 0 else cursor in
    if null hosts
    then ([], cursor)
    else (unknown_of known (window hosts at n), (at + n) % length hosts)

length-drop : (n : ℕ) (xs : List Text) → length (drop n xs) ≡ length xs - n
length-drop zero xs = omega arith
length-drop (suc n) [] = omega arith
length-drop (suc n) (x ∷ xs) = omega (arith, length-drop n xs)

past : (a b : Bool) → a ≡ false → (a || b) ≡ true → b ≡ true
past a b off h = ground arith

contains-append :
    (cur : List Text) (g h : Text) → contains cur h ≡ true → contains (cur ++ (g ∷ [])) h ≡ true
unfolding contains
contains-append [] g h e = cc
contains-append (x ∷ cur) g h e = elim (Bool-cases (x == h)) [
  | inl hit ↦ rw hit refl
  | inr miss ↦ rw miss (contains-append cur g h (past (x == h) _ miss e))
]

append_new-contains :
    (hosts cur : List Text) (h : Text)
    → contains cur h ≡ true
    → contains (append_new hosts cur) h ≡ true
unfolding append_new
append_new-contains [] cur h e = e
append_new-contains (g ∷ hosts) cur h e = elim (Bool-cases (null g || contains cur g)) [
  | inl old ↦ rw old (append_new-contains hosts cur h e)
  | inr new ↦ rw new (append_new-contains hosts (cur ++ (g ∷ [])) h (contains-append cur g h e))
]

-- The store of the aggregator keeps at most `cap` hosts, whatever it is given; and while all of them
-- fit, it forgets none that it holds.
pub add_domains_bounds :
    (hosts : List Text) (cap : ℕ) (stored : List Text) (h : Text)
    → (length (add_domains hosts cap stored) ≤ cap)
      × ((cap < length (append_new (sort_texts hosts) stored))
          ⊎ (contains stored h ≡ false)
          ⊎ (contains (add_domains hosts cap stored) h ≡ true))
unfolding add_domains
add_domains_bounds hosts cap stored h =
    let cur = append_new (sort_texts hosts) stored in
    (
      omega (arith, length-drop (length cur - cap) cur),
      elim (Bool-cases (ltb cap (length cur))) [
        | inl more ↦ inl (ltb→lt cap (length cur) more)
        | inr fits ↦
            let none_dropped : length cur - cap ≡ 0 = ground arith in
            elim (Bool-cases (contains stored h)) [
              | inr unknown ↦ inr (inl unknown)
              | inl held ↦
                  inr (inr (rw none_dropped (append_new-contains (sort_texts hosts) stored h held)))
            ]
      ],
    )
