-- ===== src/Discover/Select/Laws.antt =====
-- The choice of the candidates: its budget, its stop index, and what every chosen candidate passed.
use ubd_probe.Prelude.{
  ℕ, zero, suc, ◌+◌, ◌≤◌, ◌<◌, ◌≡◌, ◌⊎◌, inl, inr, refl, leb, true, false, ◌&&◌, ◌||◌, not, List,
  [], ◌∷◌, length, length-append, leb→le, take, Bool-cases, arith,
}
use ubd_probe.Hosts.{is_ru_by_geo}
use ubd_probe.Discover.Types.{SourceCandidate}
use ubd_probe.Discover.Select.{
  Gates, Stores, Scan, is_website, is_fetchable, is_barred, pin_geo, skip_of, is_wanted, select,
  consider, scan_all, start_scan, select_fetch_set,
}

-- What a candidate has passed when it is selected.
pub record Passed (g : Gates) (now : ℕ) (c : SourceCandidate) (scan : Scan) : Type 0 where
  pub fetchable : is_fetchable c ≡ true
  pub in_place : (is_website c && is_ru_by_geo c.url_or_handle) ≡ false
  pub admitted : is_barred scan.stores.blocks c ≡ false
  pub no_skip : (skip_of c scan.stores).0 ≡ false
  pub wanted : is_wanted g now scan.selected_hosts c (skip_of c scan.stores).1 ≡ true

-- What a candidate that is passed over does to the stores: nothing, a pin, or a skip used up.
abbrev pub Touched : SourceCandidate → Stores → Stores → Type 0
Touched c before after =
    (after ≡ before) ⊎ (after ≡ pin_geo c.url_or_handle before) ⊎ (after ≡ (skip_of c before).1)

-- A candidate is passed over, or has passed every gate and is selected.
pub consider_cases :
    (g : Gates) (now : ℕ) (c : SourceCandidate) (scan : Scan)
    → ((stores : Stores) × Touched c scan.stores stores
        × (consider g now c scan ≡ record scan { stop = suc scan.stop; stores = stores }))
      ⊎ (Passed g now c scan
          × (consider g now c scan
              ≡ select c
                  (record scan { stop = suc scan.stop; stores = (skip_of c scan.stores).1 })))
unfolding consider
consider_cases g now c scan = elim (Bool-cases (is_fetchable c)) [
  | inr other ↦ inl (scan.stores, inl refl, rw (consider, other) refl)
  | inl fetchable ↦ elim (Bool-cases (is_website c && is_ru_by_geo c.url_or_handle)) [
    | inl geo ↦
        inl
          (pin_geo c.url_or_handle scan.stores, inr (inl refl), rw (consider, fetchable, geo) refl)
    | inr in_place ↦ elim (Bool-cases (is_barred scan.stores.blocks c)) [
      | inl barred ↦ inl (scan.stores, inl refl, rw (consider, fetchable, in_place, barred) refl)
      | inr admitted ↦
          elim (Bool-cases (
            (skip_of c scan.stores).0
            || not (is_wanted g now scan.selected_hosts c (skip_of c scan.stores).1))) [
              | inl gone ↦ inl (
                (skip_of c scan.stores).1,
                inr (inr refl),
                rw (consider, fetchable, in_place, admitted, gone) refl,
              )
              | inr kept ↦ inr (
                record {
                  fetchable = fetchable;
                  in_place = in_place;
                  admitted = admitted;
                  no_skip = ground arith;
                  wanted = ground arith;
                },
                rw (consider, fetchable, in_place, admitted, kept) refl,
              )
            ]
    ]
  ]
]

-- What every step below the budget keeps, the whole scan keeps.
pub scan_all-Keeps :
    (P : Scan → Type 0) (g : Gates) (clock : ℕ → ℕ) (candidates : List SourceCandidate)
    (scan : Scan)
    → ((c : SourceCandidate) (s : Scan)
        → P s
        → s.used < g.budget
        → P (consider g (clock s.stop) c s))
    → P scan
    → P (scan_all g clock candidates scan)
unfolding scan_all
scan_all-Keeps P g clock [] scan step h = h
scan_all-Keeps P g clock (c ∷ rest) scan step h = elim (Bool-cases (leb g.budget scan.used)) [
  | inl spent ↦ rw spent h
  | inr left ↦ rw left (
      scan_all-Keeps P g clock rest (consider g (clock scan.stop) c scan) step
        (step c scan h (ground arith)))
]

-- The number of candidates used is the number selected, and within the budget.
InBudget : Gates → Scan → Type 0
InBudget g s = (s.used ≡ length s.selected) × (s.used ≤ g.budget)

step-InBudget :
    (g : Gates) (now : ℕ) (c : SourceCandidate) (s : Scan)
    → InBudget g s
    → s.used < g.budget
    → InBudget g (consider g now c s)
unfolding InBudget select
step-InBudget g now c s h less = elim (consider_cases g now c s) [
  | inl (stores, how, e) ↦ rw e h
  | inr (passed, e) ↦ rw e (omega (arith, length-append s.selected (c ∷ []), h.0), omega arith)
]

step_stop :
    (g : Gates) (now : ℕ) (c : SourceCandidate) (s : Scan) → (consider g now c s).stop ≡ suc s.stop
unfolding select
step_stop g now c s = elim (consider_cases g now c s) [
  | inl (stores, how, e) ↦ rw e refl
  | inr (passed, e) ↦ rw e refl
]

stop_mono :
    (g : Gates) (clock : ℕ → ℕ) (candidates : List SourceCandidate) (scan : Scan)
    → scan.stop ≤ (scan_all g clock candidates scan).stop
stop_mono g clock candidates scan =
    scan_all-Keeps (λ s. scan.stop ≤ s.stop) g clock candidates scan
      (λ c s h less. omega (arith, h, step_stop g (clock s.stop) c s)) (omega arith)

stop_bounds :
    (g : Gates) (clock : ℕ → ℕ) (candidates : List SourceCandidate) (scan : Scan)
    → ((scan_all g clock candidates scan).stop ≤ scan.stop + length candidates)
      × (((scan_all g clock candidates scan).stop ≡ scan.stop + length candidates)
          ⊎ (g.budget ≤ (scan_all g clock candidates scan).used))
unfolding scan_all select
stop_bounds g clock [] scan = (omega arith, inl (omega arith))
stop_bounds g clock (c ∷ rest) scan = elim (Bool-cases (leb g.budget scan.used)) [
  | inl spent ↦ rw spent (omega arith, inr (leb→le g.budget scan.used spent))
  | inr left ↦
      let one = step_stop g (clock scan.stop) c scan in
      let rest_of = stop_bounds g clock rest (consider g (clock scan.stop) c scan) in
      rw left (
        omega (arith, rest_of.0, one),
        elim rest_of.1 [ inl all ↦ inl (omega (arith, all, one)) | inr full ↦ inr full ],
      )
]

-- A pass selects at most its budget of candidates, and its stop index lies within the candidates;
-- unless the budget is used up, the stop index is the number of the candidates, so all of them were
-- considered.
pub select_fetch_set_bounds :
    (g : Gates) (clock : ℕ → ℕ) (stores : Stores) (candidates : List SourceCandidate)
    → (length (select_fetch_set g clock stores candidates).selected ≤ g.budget)
      × ((select_fetch_set g clock stores candidates).stop ≤ length candidates)
      × (((select_fetch_set g clock stores candidates).stop ≡ length candidates)
          ⊎ (length (select_fetch_set g clock stores candidates).selected ≡ g.budget))
unfolding select_fetch_set InBudget
select_fetch_set_bounds g clock stores candidates =
    let scan = scan_all g clock candidates (start_scan stores) in
    let spent : InBudget g scan =
      scan_all-Keeps (InBudget g) g clock candidates (start_scan stores)
        (λ c s h less. step-InBudget g (clock s.stop) c s h less) (refl, omega arith) in
    let stop = stop_bounds g clock candidates (start_scan stores) in
    (
      omega (arith, spent.0, spent.1),
      omega (arith, stop.0),
      elim stop.1 [
        | inl all ↦ inl (omega (arith, all))
        | inr full ↦ inr (omega (arith, full, spent.0, spent.1))
      ],
    )

-- The candidates behind the stop index are untouched: the scan of the candidates before it alone
-- ends in the same state.
scan_all-take :
    (g : Gates) (clock : ℕ → ℕ) (candidates : List SourceCandidate) (scan : Scan) (n : ℕ)
    → (scan_all g clock candidates scan).stop ≡ scan.stop + n
    → scan_all g clock (take n candidates) scan ≡ scan_all g clock candidates scan
unfolding scan_all
scan_all-take g clock [] scan zero e = refl
scan_all-take g clock [] scan (suc n) e = refl
scan_all-take g clock (c ∷ rest) scan zero e = elim (Bool-cases (leb g.budget scan.used)) [
  | inl spent ↦ rw spent refl
  | inr left ↦
      let back = stop_mono g clock rest (consider g (clock scan.stop) c scan) in
      let one = step_stop g (clock scan.stop) c scan in
      let same : (scan_all g clock rest (consider g (clock scan.stop) c scan)).stop
          ≡ scan.stop + 0 =
        ground arith in
      absurd (omega (arith, back, one, same))
]
scan_all-take g clock (c ∷ rest) scan (suc n) e = elim (Bool-cases (leb g.budget scan.used)) [
  | inl spent ↦ rw spent refl
  | inr left ↦
      let one = step_stop g (clock scan.stop) c scan in
      let same : (scan_all g clock rest (consider g (clock scan.stop) c scan)).stop
          ≡ scan.stop + suc n =
        ground arith in
      rw left (
        scan_all-take g clock rest (consider g (clock scan.stop) c scan) n
          (omega (arith, one, same)))
]

-- The scan reads no candidate behind its stop index: with the candidates before it alone, the pass
-- ends with the same selection, the same stop index and the same stores.
pub select_fetch_set-take :
    (g : Gates) (clock : ℕ → ℕ) (stores : Stores) (candidates : List SourceCandidate)
    → select_fetch_set g clock stores
        (take (select_fetch_set g clock stores candidates).stop candidates)
      ≡ select_fetch_set g clock stores candidates
unfolding select_fetch_set
select_fetch_set-take g clock stores candidates =
    scan_all-take g clock candidates (start_scan stores)
      (scan_all g clock candidates (start_scan stores)).stop (omega arith)
