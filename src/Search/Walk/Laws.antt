-- ===== src/Search/Walk/Laws.antt =====
-- The walk over the grid: it stops, within its limits, and collects the due phrases.
use ubd_probe.Prelude.{
  ℕ, zero, suc, ◌+◌, ◌≤◌, ◌<◌, ◌≡◌, ◌⊎◌, inl, inr, refl, sym, ap, ◌∙◌, true, false, [], ◌++◌,
  length, length-append, append_nil, append_assoc, nat_eq, list_eq, Bool-cases, arith,
}
use ubd_probe.Search.State.{SearchState}
use ubd_probe.Search.Walk.{
  Pass, Due, goes_on, due_phrase, scan_one, scan, collect_due, due_from, turned,
}

module _ (p : Pass) (clock : ℕ → ℕ) (s : SearchState) where
  goes_on-true :
      (d : Due)
      → goes_on p clock s d ≡ true
      → (d.scanned < length p.grid) × (length d.batch < p.block_size)
  unfolding goes_on
  goes_on-true d h = ground arith

  goes_on-end : (d : Due) → length p.grid ≤ d.scanned → goes_on p clock s d ≡ false
  unfolding goes_on
  goes_on-end d h = ground arith

  goes_on-false :
      (d : Due)
      → goes_on p clock s d ≡ false
      → (length p.grid ≤ d.scanned) ⊎ (p.block_size ≤ length d.batch)
  unfolding goes_on
  goes_on-false d h = ground arith

  due_phrase-one : (scanned cursor : ℕ) → length (due_phrase p clock s scanned cursor) ≤ 1
  unfolding due_phrase
  due_phrase-one scanned cursor = ground arith

  scan-on :
      (fuel : ℕ) (d : Due)
      → goes_on p clock s d ≡ true
      → scan p clock s (suc fuel) d ≡ scan p clock s fuel (scan_one p clock s d)
  unfolding scan
  scan-on fuel d on = rw on refl

  scan-off : (fuel : ℕ) (d : Due) → goes_on p clock s d ≡ false → scan p clock s fuel d ≡ d
  unfolding scan
  scan-off zero d off = refl
  scan-off (suc fuel) d off = rw off refl

  scan-zero : (d : Due) → scan p clock s zero d ≡ d
  unfolding scan
  scan-zero d = refl

  -- With enough fuel the loop has stopped, and any more fuel changes nothing.
  scan-stops :
      (fuel more : ℕ) (d : Due)
      → length p.grid ≤ d.scanned + fuel
      → (goes_on p clock s (scan p clock s fuel d) ≡ false)
        × (scan p clock s (fuel + more) d ≡ scan p clock s fuel d)
  unfolding scan_one
  scan-stops zero more d enough =
      let off = goes_on-end d (omega (arith, enough)) in
      rw (scan-off zero d off, scan-off (zero + more) d off) (off, refl)
  scan-stops (suc fuel) more d enough = elim (Bool-cases (goes_on p clock s d)) [
    | inr off ↦ rw (scan-off (suc fuel) d off, scan-off (suc fuel + more) d off) (off, refl)
    | inl on ↦
        let e : suc fuel + more ≡ suc (fuel + more) = omega arith in
        let rest = scan-stops fuel more (scan_one p clock s d) (omega (arith, enough)) in
        (
          rw (scan-on fuel d on) rest.0,
          ap (λ f. scan p clock s f d) e
              ∙ (scan-on (fuel + more) d on ∙ (rest.1 ∙ sym (scan-on fuel d on))),
        )
  ]

  -- Each step adds the due phrase of its place.
  scan-steps :
      (fuel : ℕ) (d : Due)
      → (n : ℕ) × ((scan p clock s fuel d).scanned ≡ d.scanned + n)
        × ((scan p clock s fuel d).batch ≡ d.batch ++ due_from p clock s d.scanned d.cursor n)
        × ((scan p clock s fuel d).cursor ≡ turned p clock s d.cursor n)
  unfolding scan_one due_from turned
  scan-steps zero d =
      let none_done = scan-zero d in rw none_done (0, omega arith, sym (append_nil d.batch), refl)
  scan-steps (suc fuel) d = elim (Bool-cases (goes_on p clock s d)) [
    | inl on ↦
        let (n, count, batch, cursor) = scan-steps fuel (scan_one p clock s d) in
        rw (scan-on fuel d on)
          (suc n, omega (arith, count), batch ∙ append_assoc d.batch _ _, cursor)
    | inr off ↦ rw (scan-off (suc fuel) d off) (0, omega arith, sym (append_nil d.batch), refl)
  ]

  -- The batch stays within the block, the steps within the grid.
  scan_bounds :
      (fuel : ℕ) (d : Due)
      → length d.batch ≤ p.block_size
      → d.scanned ≤ length p.grid
      → (length (scan p clock s fuel d).batch ≤ p.block_size)
        × ((scan p clock s fuel d).scanned ≤ length p.grid)
  unfolding scan_one
  scan_bounds zero d short within = rw (scan-zero d) (short, within)
  scan_bounds (suc fuel) d short within = elim (Bool-cases (goes_on p clock s d)) [
    | inl on ↦
        let less = goes_on-true d on in
        let more : length (d.batch ++ due_phrase p clock s d.scanned d.cursor) ≤ p.block_size =
          omega (
            arith,
            less.1,
            due_phrase-one d.scanned d.cursor,
            length-append d.batch (due_phrase p clock s d.scanned d.cursor),
          ) in
        rw (scan-on fuel d on)
          (scan_bounds fuel (scan_one p clock s d) more (omega (arith, less.0)))
    | inr off ↦ rw (scan-off (suc fuel) d off) (short, within)
  ]

  -- The walk stops: with fuel for one turn of the grid its loop has ended, since every phrase of the
  -- grid has been looked at or the batch is full, and with any more fuel it ends in the same state.
  pub collect_due_stops :
      (cursor more : ℕ)
      → ((length p.grid ≤ (collect_due p clock s cursor).scanned)
          ⊎ (p.block_size ≤ length (collect_due p clock s cursor).batch))
        × (scan p clock s
              (length p.grid + more)
              (record { batch = []; scanned = 0; cursor = cursor })
            ≡ collect_due p clock s cursor)
  unfolding collect_due
  collect_due_stops cursor more =
      let start : Due = record { batch = []; scanned = 0; cursor = cursor } in
      let stop = scan-stops (length p.grid) more start (omega arith) in
      (goes_on-false (scan p clock s (length p.grid) start) stop.0, stop.1)

  -- The walk collects, in the order of the grid, exactly the due phrases among those it has looked at
  -- from the cursor on: at most a block of phrases, from at most one turn of the grid, and its new
  -- cursor stands behind all of them.
  pub collect_due_contract :
      (cursor : ℕ)
      → let d = collect_due p clock s cursor in
        (d.batch ≡ due_from p clock s 0 cursor d.scanned)
        × (d.cursor ≡ turned p clock s cursor d.scanned)
        × (length d.batch ≤ p.block_size)
        × (d.scanned ≤ length p.grid)
  unfolding collect_due
  collect_due_contract cursor =
      let start : Due = record { batch = []; scanned = 0; cursor = cursor } in
      let (n, count, batch, turn) = scan-steps (length p.grid) start in
      let bounds = scan_bounds (length p.grid) start (omega arith) (omega arith) in
      let same : (scan p clock s (length p.grid) start).scanned ≡ n = omega (arith, count) in
      (
        batch ∙ ap (λ k. due_from p clock s 0 cursor k) (sym same),
        turn ∙ ap (λ k. turned p clock s cursor k) (sym same),
        bounds.0,
        bounds.1,
      )
