-- ===== src/Search/Walk.antt =====
-- `SearchPass._collect_due` of crawler/crawler/discovery/search_pass.py: the walk over the grid that
-- collects the phrases whose page has to be searched again. `clock` gives the time at which the phrase
-- of a step is looked at. The loop is a recursion on fuel.
pub mod Laws
pub mod Tests
use ubd_probe.Prelude.{
  ℕ, zero, suc, ◌+◌, ◌-◌, ◌*◌, ◌%◌, ◌≤◌, ◌<◌, ◌≡◌, ◌⊎◌, inl, inr, refl, sym, ap, ◌∙◌, ltb, Bool,
  true, false, ◌&&◌, ◌||◌, not, Option, none, some, List, [], ◌∷◌, ◌++◌, any, length, length-append,
  append_nil, append_assoc, null, ◌==◌, nat_eq, list_eq, list_beq, if◌then◌else◌, Bool-cases, arith,
}
use ubd_probe.Prelude.Text.{Text, lower, strip, starts_with}
use ubd_probe.Search.State.{SearchState}
use ubd_probe.Search.Phrases.{current_page, effective_ttl}
use ubd_probe.Search.Cache.{is_fresh}
use ubd_probe.Crawl.Grid.{at}

pub record Pass : Type 0 where
  pub grid : List Text
  pub block_size : ℕ
  pub ttl : ℕ
  pub cold_tries : ℕ
  pub mult_cap : ℕ
  pub protected_terms : List Text

-- The phrase is a protected term, or begins with one as a whole word.
unfoldable pub is_protected_by : Text → Text → Bool
unfolding strip lower starts_with list_beq
is_protected_by kw term =
    let k = lower (strip kw) in
    let p = lower (strip term) in not (null p) && (k == p || starts_with (p ++ (b' ' ∷ [])) k)

-- `_effective_ttl_for`
unfoldable pub effective_ttl_for : Pass → Text → SearchState → ℕ
unfolding any is_protected_by effective_ttl
effective_ttl_for p kw s =
    if any (is_protected_by kw) p.protected_terms
    then p.ttl
    else effective_ttl kw p.ttl p.cold_tries p.mult_cap s

unfoldable pub is_due : Pass → ℕ → Text → SearchState → Bool
unfolding is_fresh effective_ttl_for current_page
is_due p now kw s = not (is_fresh kw (effective_ttl_for p kw s) (current_page kw s) now s)

pub record Due : Type 0 where
  pub batch : List Text
  pub scanned : ℕ
  pub cursor : ℕ

module _ (p : Pass) (clock : ℕ → ℕ) (s : SearchState) where
  -- The condition of the loop, and its body.
  unfoldable pub goes_on : Due → Bool
  goes_on d = ltb d.scanned (length p.grid) && ltb (length d.batch) p.block_size

  -- The phrase at a place of the grid, when it is due at this step.
  unfoldable pub due_phrase : ℕ → ℕ → List Text
  unfolding is_due at
  due_phrase scanned cursor =
      if is_due p (clock scanned) (at p.grid cursor) s then at p.grid cursor ∷ [] else []

  unfoldable pub scan_one : Due → Due
  unfolding due_phrase
  scan_one d = record {
    batch = d.batch ++ due_phrase d.scanned d.cursor;
    scanned = suc d.scanned;
    cursor = (d.cursor + 1) % length p.grid;
  }

  unfoldable pub scan : ℕ → Due → Due
  unfolding goes_on scan_one
  scan zero d = d
  scan (suc fuel) d = let next = scan fuel (scan_one d) in if goes_on d then next else d

  unfoldable pub collect_due : ℕ → Due
  unfolding scan
  collect_due cursor = scan (length p.grid) (record { batch = []; scanned = 0; cursor = cursor })

  -- The due phrases of `n` steps, without the loop's limits, and the cursor after them.
  unfoldable pub due_from : ℕ → ℕ → ℕ → List Text
  unfolding due_phrase
  due_from scanned cursor zero = []
  due_from scanned cursor (suc n) =
      due_phrase scanned cursor ++ due_from (suc scanned) ((cursor + 1) % length p.grid) n

  unfoldable pub turned : ℕ → ℕ → ℕ
  turned cursor zero = cursor
  turned cursor (suc n) = turned ((cursor + 1) % length p.grid) n
