-- ===== src/Crawl/Grid/Laws.antt =====
-- The rotation over the grid leaves nothing out, and merged queries are distinct.
use native.Mathlib.Nat.{mod-lt, mod-mod, mod-add-mod}
use ubd_probe.Prelude.{
  ℕ, zero, suc, ◌+◌, ◌%◌, ◌<◌, ◌≡◌, refl, sym, ap, ◌∙◌, false, ◌||◌, List, [], ◌∷◌, ◌++◌, length,
  get_elem?, leb, null, contains, nat_eq, list_eq, arith, Bool-cases, inl, inr,
}
use ubd_probe.Prelude.Text.{Text}
use ubd_probe.Crawl.Grid.{
  query_key, merge_from, merge_queries, item_or, batch_from, batch_size, next_batch,
}

-- No key is among those seen before.
abbrev pub AreNew : List Text → List Text → Type 0
AreNew seen [] = Unit {0}
AreNew seen (q ∷ queries) =
    (contains seen (query_key q) ≡ false) × AreNew (query_key q ∷ seen) queries

merge_from-AreNew : (seen queries : List Text) → AreNew seen (merge_from seen queries)
unfolding merge_from
merge_from-AreNew seen [] = tt
merge_from-AreNew seen (q ∷ queries) =
    let skipped = merge_from-AreNew seen queries in
    let kept = merge_from-AreNew (query_key q ∷ seen) queries in
    elim (Bool-cases (null (query_key q) || contains seen (query_key q))) [
      | inl drop ↦ rw drop skipped
      | inr keep ↦ rw keep (ground arith, kept)
    ]

-- No two merged queries have one key: each is new among the ones before it.
pub merge_queries-AreNew : (primary extra : List Text) → AreNew [] (merge_queries primary extra)
unfolding merge_queries
merge_queries-AreNew primary extra = merge_from-AreNew [] (primary ++ extra)

append_assoc : (xs ys zs : List Text) → (xs ++ ys) ++ zs ≡ xs ++ (ys ++ zs)
append_assoc [] ys zs = refl
append_assoc (x ∷ xs) ys zs = ap (λ rest. x ∷ rest) (append_assoc xs ys zs)

batch_from-append :
    (grid : List Text) (c n m : ℕ)
    → batch_from grid c n ++ batch_from grid (c + n) m ≡ batch_from grid c (n + m)
unfolding batch_from
batch_from-append grid c zero m =
    let same : c + 0 ≡ c = omega arith in
    let all_left : 0 + m ≡ m = omega arith in
    ap (λ d. batch_from grid d m) same ∙ sym (ap (batch_from grid c) all_left)
batch_from-append grid c (suc n) m =
    let here = item_or (get_elem? grid (c % length grid)) in
    let later : c + suc n ≡ c + 1 + n = omega arith in
    let sum : suc n + m ≡ suc (n + m) = omega arith in
    append_assoc here (batch_from grid (c + 1) n) (batch_from grid (c + suc n) m)
    ∙ ap (λ d. here ++ (batch_from grid (c + 1) n ++ batch_from grid d m)) later
    ∙ ap (λ rest. here ++ rest) (batch_from-append grid (c + 1) n m)
    ∙ sym (ap (batch_from grid c) sum)

batch_from-mod :
    (grid : List Text) (c n : ℕ) → batch_from grid (c % length grid) n ≡ batch_from grid c n
unfolding batch_from
batch_from-mod grid c zero = refl
batch_from-mod grid c (suc n) =
    let s = length grid in
    ap (λ i. item_or (get_elem? grid i) ++ batch_from grid (c % s + 1) n) (mod-mod c s)
    ∙ ap (λ rest. item_or (get_elem? grid (c % s)) ++ rest)
        (sym (batch_from-mod grid (c % s + 1) n)
          ∙ ap (λ d. batch_from grid d n) (mod-add-mod c s 1)
          ∙ batch_from-mod grid (c + 1) n)

-- Two batches in a row, from a cursor inside the grid, are the queries from the cursor on in the
-- cyclic order of the grid, none left out and none repeated, and the cursor stays inside the grid.
pub next_batch-next_batch :
    (grid : List Text) (n m cursor : ℕ)
    → cursor < length grid
    → let first = next_batch grid n cursor in
      let second = next_batch grid m first.1 in
      (first.0 ++ second.0 ≡ batch_from grid cursor (batch_size grid n + batch_size grid m))
      × (first.1 < length grid)
      × (second.1 < length grid)
unfolding next_batch
next_batch-next_batch [] n m cursor h = absurd (omega (arith, h))
next_batch-next_batch (q ∷ queries) n m cursor h =
    let grid = q ∷ queries in
    let some_queries : 0 < length grid = omega arith in
    let next = (cursor + batch_size grid n) % length grid in
    let inside : leb (length grid) cursor ≡ false = ground arith in
    let next_inside = mod-lt (cursor + batch_size grid n) some_queries in
    let next_kept : leb (length grid) next ≡ false = ground (arith, next_inside) in
    rw (inside, next_kept)
      (
        ap (λ rest. batch_from grid cursor (batch_size grid n) ++ rest)
              (batch_from-mod grid (cursor + batch_size grid n) (batch_size grid m))
            ∙ batch_from-append grid cursor (batch_size grid n) (batch_size grid m),
        next_inside,
        mod-lt (next + batch_size grid m) some_queries,
      )
