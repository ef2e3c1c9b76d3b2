-- ===== src/Search/Cache/Laws.antt =====
-- The contract of the keyword cache.
use mathlib.Core.List.{Perm}
use mathlib.Core.List.Perm
use ubd_probe.Prelude.{
  ℕ, ◌+◌, ◌≤◌, ◌≡◌, refl, inl, inr, Bool, true, false, Option, none, some, List, [], ◌∷◌, ltb, leb,
  ◌==◌, nat_eq, list_eq, if◌then◌else◌, arith, Option-cases, Bool-cases, All, list_beq_iff, leb→le,
  any,
}
use ubd_probe.Prelude.Dict.{Dict, lookup, lookup-insert}
use ubd_probe.Prelude.Text.{Text}
use ubd_probe.Search.State.{Candidate, CacheEntry, SearchState, key}
use ubd_probe.Search.Cache.{
  cache_entry, cache_get, cache_put, mark_one, mark_all, mark_harvested, Row, rows, insert_row,
  sort_rows, unharvested,
}

-- What was put is found exactly while its age is below the TTL; the other keys are left alone.
pub cache_get-cache_put :
    (keyword other : Text) (page page' ttl now t : ℕ) (found : List Candidate) (s : SearchState)
    → cache_get other ttl page' t (cache_put keyword found page now s) ≡ (
        if key keyword page == key other page'
        then (if ltb t (now + ttl) then some found else none)
        else cache_get other ttl page' t s)
unfolding cache_get cache_put cache_entry
cache_get-cache_put keyword other page page' ttl now t found s = ground (
  arith,
  lookup-insert (key keyword page) (key other page')
      (record { ts = now; harvested = false; candidates = found }) s.state.cache,
)

abbrev pub harvested_entry : Option CacheEntry → Option CacheEntry
harvested_entry none = none
harvested_entry (some e) = some (record e { harvested = true })

lookup-mark_one :
    (k j : Text) (acc : Dict Text CacheEntry × Bool)
    → lookup j (mark_one k acc).0
      ≡ (if k == j then harvested_entry (lookup j acc.0) else lookup j acc.0)
unfolding mark_one
lookup-mark_one k j (cache, touched) = elim (Option-cases (lookup k cache)) [
  | inl e ↦ ground (arith, list_beq_iff k j)
  | inr (c, e) ↦
      ground (arith, list_beq_iff k j, lookup-insert k j (record c { harvested = true }) cache)
]

-- `_key(keyword)` of one of the keywords
abbrev pub is_keyword : List Text → Text → Bool
is_keyword keywords k = any (λ w. key w 1 == k) keywords

harvested_twice : (o : Option CacheEntry) → harvested_entry (harvested_entry o) ≡ harvested_entry o
harvested_twice none = refl
harvested_twice (some e) = refl

lookup-mark_all :
    (keywords : List Text) (j : Text) (acc : Dict Text CacheEntry × Bool)
    → lookup j (mark_all keywords acc).0
      ≡ (if is_keyword keywords j then harvested_entry (lookup j acc.0) else lookup j acc.0)
unfolding mark_all any
lookup-mark_all [] j acc = refl
lookup-mark_all (w ∷ keywords) j acc = ground (
  arith,
  lookup-mark_all keywords j (mark_one (key w 1) acc),
  lookup-mark_one (key w 1) j acc,
  harvested_twice (lookup j acc.0),
)

touched_stays :
    (keywords : List Text) (acc : Dict Text CacheEntry × Bool)
    → acc.1 ≡ true
    → (mark_all keywords acc).1 ≡ true
unfolding mark_all mark_one
touched_stays [] acc h = h
touched_stays (w ∷ keywords) acc h = touched_stays keywords (mark_one (key w 1) acc) (ground arith)

untouched :
    (keywords : List Text) (acc : Dict Text CacheEntry × Bool)
    → (mark_all keywords acc).1 ≡ false
    → (mark_all keywords acc).0 ≡ acc.0
unfolding mark_all
untouched [] acc h = refl
untouched (w ∷ keywords) acc h = ground (
  arith,
  touched_stays keywords (mark_one (key w 1) acc),
  untouched keywords (mark_one (key w 1) acc) h,
  unmarked (key w 1) acc,
)
  where
    unmarked :
        (k : Text) (acc : Dict Text CacheEntry × Bool)
        → (mark_one k acc).1 ≡ false
        → (mark_one k acc).0 ≡ acc.0
    unmarked k acc h = unfold mark_one in ground arith

-- `mark_harvested` marks the entries of its keywords, as far as there are any, and no other entry.
pub lookup-mark_harvested :
    (keywords : List Text) (j : Text) (s : SearchState)
    → lookup j (mark_harvested keywords s).state.cache ≡ (
        if is_keyword keywords j
        then harvested_entry (lookup j s.state.cache)
        else lookup j s.state.cache)
unfolding mark_harvested
lookup-mark_harvested keywords j s = ground (
  arith,
  lookup-mark_all keywords j (s.state.cache, false),
  untouched keywords (s.state.cache, false),
)

-- Rows that are sorted by time, the oldest first.
abbrev pub IsOldestFirst : List Row → Type 0
IsOldestFirst [] = Unit {0}
IsOldestFirst (r ∷ rs) = All (λ x. r.ts ≤ x.ts) rs × IsOldestFirst rs

All-insert_row :
    (n : ℕ) (r : Row) (rs : List Row)
    → n ≤ r.ts
    → All (λ x. n ≤ x.ts) rs
    → All (λ x. n ≤ x.ts) (insert_row r rs)
unfolding insert_row
All-insert_row n r [] h all = (h, tt)
All-insert_row n r (x ∷ rs) h all = ground (arith, All-insert_row n r rs h all.1)

All-le_trans : (m n : ℕ) (rs : List Row) → m ≤ n → All (λ x. n ≤ x.ts) rs → All (λ x. m ≤ x.ts) rs
All-le_trans m n [] h all = tt
All-le_trans m n (x ∷ rs) h all = (omega (arith, all.0), All-le_trans m n rs h all.1)

insert_row-IsOldestFirst :
    (r : Row) (rs : List Row) → IsOldestFirst rs → IsOldestFirst (insert_row r rs)
unfolding insert_row
insert_row-IsOldestFirst r [] h = (tt, tt)
insert_row-IsOldestFirst r (x ∷ rs) h = elim (Bool-cases (leb r.ts x.ts)) [
  | inl older ↦
      rw older ((leb→le r.ts x.ts older, All-le_trans r.ts x.ts rs (leb→le r.ts x.ts older) h.0), h)
  | inr newer ↦
      rw newer (All-insert_row x.ts r rs (ground arith) h.0, insert_row-IsOldestFirst r rs h.1)
]

sort_rows-IsOldestFirst : (rs : List Row) → IsOldestFirst (sort_rows rs)
unfolding sort_rows
sort_rows-IsOldestFirst [] = tt
sort_rows-IsOldestFirst (r ∷ rs) =
    insert_row-IsOldestFirst r (sort_rows rs) (sort_rows-IsOldestFirst rs)

insert_row-perm : (r : Row) (rs : List Row) → Perm (insert_row r rs) (r ∷ rs)
unfolding insert_row
insert_row-perm r [] = Perm.refl (r ∷ [])
insert_row-perm r (x ∷ rs) = elim (Bool-cases (leb r.ts x.ts)) [
  | inl older ↦ rw older (Perm.refl (r ∷ x ∷ rs))
  | inr newer ↦ rw newer (Perm.trans (Perm.cons x (insert_row-perm r rs)) (Perm.swap r x rs))
]

sort_rows-perm : (rs : List Row) → Perm (sort_rows rs) rs
unfolding sort_rows
sort_rows-perm [] = Perm.refl []
sort_rows-perm (r ∷ rs) =
    Perm.trans (insert_row-perm r (sort_rows rs)) (Perm.cons r (sort_rows-perm rs))

-- The queue of cached keywords is in the order of their age, and holds the waiting entries of the
-- cache, each as often as the cache does.
pub unharvested-sorted :
    (ttl now : ℕ) (s : SearchState)
    → IsOldestFirst (unharvested ttl now s)
      × Perm (unharvested ttl now s) (rows ttl now s.state.cache)
unfolding unharvested
unharvested-sorted ttl now s = (
  sort_rows-IsOldestFirst (rows ttl now s.state.cache),
  sort_rows-perm (rows ttl now s.state.cache),
)
