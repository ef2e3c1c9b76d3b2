-- ===== src/Search/Walk/Tests.antt =====
-- The walk over the grid at concrete values.
use ubd_probe.Prelude.{ℕ, ◌+◌, ◌≤◌, ◌≡◌, ◌⊎◌, [], ◌∷◌, length}
use ubd_probe.Prelude.Text.{codes}
use ubd_probe.Search.State.{fresh_state}
use ubd_probe.Search.Walk.{Pass, scan, collect_due, due_from, turned}
use ubd_probe.Search.Walk.Laws.{collect_due_stops, collect_due_contract}

abbrev pass : Pass
pass = record {
  grid = codes "taxi" ∷ codes "spa" ∷ codes "cafe" ∷ [];
  block_size = 2;
  ttl = 100;
  cold_tries = 3;
  mult_cap = 8;
  protected_terms = [];
}

abbrev clock : ℕ → ℕ
clock step = 50 + step

collect_due_stops_example :
    ((length pass.grid ≤ (collect_due pass clock fresh_state 2).scanned)
      ⊎ (pass.block_size ≤ length (collect_due pass clock fresh_state 2).batch))
    × (scan pass clock fresh_state
          (length pass.grid + 5)
          (record { batch = []; scanned = 0; cursor = 2 })
        ≡ collect_due pass clock fresh_state 2)
collect_due_stops_example = collect_due_stops pass clock fresh_state 2 5

collect_due_contract_example :
    let d = collect_due pass clock fresh_state 2 in
    (d.batch ≡ due_from pass clock fresh_state 0 2 d.scanned)
    × (d.cursor ≡ turned pass clock fresh_state 2 d.scanned)
    × (length d.batch ≤ pass.block_size)
    × (d.scanned ≤ length pass.grid)
collect_due_contract_example = collect_due_contract pass clock fresh_state 2
