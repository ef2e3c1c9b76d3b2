-- ===== src/Crawl/Grid.antt =====
-- `merge_queries` and `QueryGrid` of crawler/crawler/discovery/query_grid.py.
pub mod Laws
use ubd_probe.Prelude.{
  ℕ, zero, suc, ◌+◌, ◌-◌, ◌%◌, ◌≤◌, ◌<◌, min, max, ◌≡◌, ◌≢◌, refl, sym, ap, ◌∙◌, Bool, true, false,
  ◌||◌, Option, none, some, List, [], ◌∷◌, ◌++◌, length, get_elem?, ltb, leb, null, contains,
  nat_eq, list_eq, list_beq, if◌then◌else◌, arith, Bool-cases, inl, inr, ◌⊎◌, All, map,
  Option-cases, ◌==◌,
}
use ubd_probe.Prelude.Text.{Text, lower, strip}

unfoldable pub query_key : Text → Text
unfolding lower strip
query_key q = lower (strip q)

merge_from : List Text → List Text → List Text
unfolding query_key contains list_beq
merge_from seen [] = []
merge_from seen (q ∷ queries) =
    let skipped = merge_from seen queries in
    let kept = q ∷ merge_from (query_key q ∷ seen) queries in
    if null (query_key q) || contains seen (query_key q) then skipped else kept

unfoldable pub merge_queries : List Text → List Text → List Text
unfolding merge_from
merge_queries primary extra = merge_from [] (primary ++ extra)

abbrev pub item_or : Option Text → List Text
item_or none = []
item_or (some q) = q ∷ []

-- `[self._grid[(cursor + i) % size] for i in range(n)]`
unfoldable pub batch_from : List Text → ℕ → ℕ → List Text
batch_from grid cursor zero = []
batch_from grid cursor (suc n) =
    item_or (get_elem? grid (cursor % length grid)) ++ batch_from grid (cursor + 1) n

abbrev pub batch_size : List Text → ℕ → ℕ
batch_size grid n = max 1 (min n (length grid))

-- `next_batch`; a negative cursor of the code is one beyond the grid here.
unfoldable pub next_batch : List Text → ℕ → ℕ → List Text × ℕ
unfolding batch_from
next_batch [] n cursor = ([], 0)
next_batch (q ∷ queries) n cursor =
    let grid = q ∷ queries in
    let start = if leb (length grid) cursor then 0 else cursor in
    (batch_from grid start (batch_size grid n), (start + batch_size grid n) % length grid)

unfoldable pub at : List Text → ℕ → Text
at [] index = []
at (q ∷ queries) index = elim (get_elem? (q ∷ queries) (index % length (q ∷ queries))) [
  | none ↦ []
  | some found ↦ found
]
