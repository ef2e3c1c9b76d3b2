-- ===== src/Search/Phrases/Laws.antt =====
-- Bounds and cadence of the per-phrase methods.
use mathlib.Core.Path.{subst}
use native.Mathlib.Nat.{mul-le-mul_left, pow-le-pow_right, add-mul}
use ubd_probe.Prelude.{
  ℕ, ◌+◌, ◌-◌, ◌*◌, ◌/◌, ◌^◌, ◌≤◌, ◌<◌, min, max, ◌≡◌, Option, none, some, ◌==◌, nat_eq, list_eq,
  arith, Option-cases, Bool-cases, inl, inr, sym, ap, ◌∙◌,
}
use ubd_probe.Prelude.Dict.{lookup, lookup-insert, lookup-insert_self}
use ubd_probe.Prelude.Text.{Text}
use ubd_probe.Search.State.{PageEntry, PhraseStats, SearchState, key}
use ubd_probe.Search.Backends.{unit}
use ubd_probe.Search.Backends.Laws.{pow-pos}
use ubd_probe.Search.Phrases.{
  page_entry, current_page, dry_of, next_page, record_page_result, updated_stats, dry_epsilon,
  dry_factor, stats_ttl, effective_ttl,
}

-- A page cursor that the crawler follows lies between 1 and the cap, and counts one dry page at most.
abbrev pub InPages : ℕ → PageEntry → Type 0
InPages cap e = (1 ≤ e.page) × (e.page ≤ cap) × (e.dry ≤ 1)

abbrev pub AllInPages : ℕ → SearchState → Type 0
AllInPages cap s =
    (k : Text) (e : PageEntry) → lookup k s.state.phrase_pages ≡ some e → InPages cap e

next_page-InPages :
    (prev page new cap : ℕ)
    → 1 ≤ cap
    → 1 ≤ page
    → page ≤ cap
    → InPages cap (next_page prev page new cap)
unfolding next_page
next_page-InPages prev page new cap hc h1 h2 = ground arith

page_entry-record_page_result :
    (phrase : Text) (page new cap : ℕ) (s : SearchState)
    → page_entry phrase (record_page_result phrase page new cap s)
      ≡ some (next_page (dry_of (page_entry phrase s)) page new cap)
unfolding record_page_result page_entry
page_entry-record_page_result phrase page new cap s =
    lookup-insert_self (key phrase 1)
      (next_page (dry_of (lookup (key phrase 1) s.state.phrase_pages)) page new cap)
      s.state.phrase_pages

current_page-InPages :
    (phrase : Text) (cap : ℕ) (s : SearchState)
    → 1 ≤ cap
    → AllInPages cap s
    → (1 ≤ current_page phrase s) × (current_page phrase s ≤ cap)
unfolding current_page page_entry
current_page-InPages phrase cap s hc h =
    elim (Option-cases (lookup (key phrase 1) s.state.phrase_pages)) [
      | inl e ↦ ground arith
      | inr (b, e) ↦ let ok = h (key phrase 1) b e in ground arith
    ]

-- For a cap of at least 1, and in a state where every cursor lies between 1 and the cap with at most
-- one dry page counted, recording the result of the page that the cursor names keeps it so.
pub record_page_result-InPages :
    (phrase : Text) (new cap : ℕ) (s : SearchState)
    → 1 ≤ cap
    → AllInPages cap s
    → AllInPages cap (record_page_result phrase (current_page phrase s) new cap s)
unfolding record_page_result
record_page_result-InPages phrase new cap s hc h k e found =
    let pages = current_page-InPages phrase cap s hc h in
    let entry = next_page (dry_of (page_entry phrase s)) (current_page phrase s) new cap in
    let law = lookup-insert (key phrase 1) k entry s.state.phrase_pages in
    elim (Bool-cases (key phrase 1 == k)) [
      | inl same ↦
          let e' : entry ≡ e = ground arith in
          subst (InPages cap) e' (
            next_page-InPages (dry_of (page_entry phrase s)) (current_page phrase s) new cap hc
              pages.0 pages.1)
      | inr other ↦ h k e (ground arith)
    ]

-- A phrase with no dry page counted, below the cap: a dry result probes the next page, and a second
-- one sends the phrase back to page 1 with nothing counted.
pub two_dry_pages :
    (phrase : Text) (cap : ℕ) (s : SearchState)
    → dry_of (page_entry phrase s) ≡ 0
    → current_page phrase s < cap
    → let s' = record_page_result phrase (current_page phrase s) 0 cap s in
      let s'' = record_page_result phrase (current_page phrase s') 0 cap s' in
      (current_page phrase s' ≡ current_page phrase s + 1)
      × (current_page phrase s'' ≡ 1)
      × (dry_of (page_entry phrase s'') ≡ 0)
unfolding current_page next_page
two_dry_pages phrase cap s fresh below =
    let s' = record_page_result phrase (current_page phrase s) 0 cap s in
    ground (
      arith,
      page_entry-record_page_result phrase (current_page phrase s) 0 cap s,
      page_entry-record_page_result phrase (current_page phrase s') 0 cap s',
    )

dry_factor_bounds :
    (cold cap dry : ℕ)
    → unit ≤ cap
    → (unit ≤ dry_factor cold cap dry) × (dry_factor cold cap dry ≤ cap)
unfolding dry_factor
dry_factor_bounds cold cap dry h =
    let grown : unit * 1 ≤ unit * 2 ^ (dry + 1 - cold) =
      mul-le-mul_left unit (pow-pos (dry + 1 - cold)) in
    (omega arith, omega arith)

scale_bounds :
    (b f cap : ℕ) → unit ≤ f → f ≤ cap → (b ≤ b * f / unit) × (b * f / unit ≤ b * cap / unit)
scale_bounds b f cap h k =
    let low : b * unit ≤ b * f = mul-le-mul_left b h in
    let high : b * f ≤ b * cap = mul-le-mul_left b k in (omega arith, omega arith)

stats_ttl_bounds :
    (o : Option PhraseStats) (base cold cap : ℕ)
    → unit ≤ cap
    → (base ≤ stats_ttl o base cold cap) × (stats_ttl o base cold cap ≤ base * cap / unit)
unfolding stats_ttl
stats_ttl_bounds none base cold cap h =
    let plain = scale_bounds base unit cap (omega arith) h in (omega arith, omega arith)
stats_ttl_bounds (some e) base cold cap h =
    let factor = dry_factor_bounds cold cap e.dry_streak h in
    let scaled = scale_bounds base (dry_factor cold cap e.dry_streak) cap factor.0 factor.1 in
    let plain = scale_bounds base unit cap (omega arith) h in ground arith

-- The adaptive TTL is never below the base and never above the base times the cap, for a cap of at
-- least 1.
pub effective_ttl_bounds :
    (phrase : Text) (base cold cap : ℕ) (s : SearchState)
    → unit ≤ cap
    → (base ≤ effective_ttl phrase base cold cap s)
      × (effective_ttl phrase base cold cap s ≤ base * cap / unit)
unfolding effective_ttl
effective_ttl_bounds phrase base cold cap s h =
    stats_ttl_bounds (lookup (key phrase 1) s.state.phrase_stats) base cold cap h

-- One dry pass more never shortens the interval of a phrase whose mean has fallen below the limit and
-- that has been tried at least `cold` times.
pub stats_ttl_mono :
    (e : PhraseStats) (base cold cap : ℕ)
    → e.ewma < dry_epsilon
    → cold ≤ e.tries
    → stats_ttl (some e) base cold cap
      ≤ stats_ttl
          (some (record e { tries = e.tries + 1; dry_streak = e.dry_streak + 1 }))
          base
          cold
          cap
unfolding stats_ttl dry_factor
stats_ttl_mono e base cold cap h k =
    let grown : 2 ^ (e.dry_streak + 1 - cold) ≤ 2 ^ (e.dry_streak + 1 + 1 - cold) =
      pow-le-pow_right (omega arith) (omega arith) in
    let factor : min cap (unit * 2 ^ (e.dry_streak + 1 - cold))
        ≤ min cap (unit * 2 ^ (e.dry_streak + 1 + 1 - cold)) =
      omega arith in
    let scaled = mul-le-mul_left base factor in ground arith

weighted_bounds :
    (a b x y : ℕ)
    → a + b ≡ unit
    → (min x y ≤ (b * x + a * y) / unit) × ((b * x + a * y) / unit ≤ max x y)
weighted_bounds a b x y h =
    let low : (b * min x y ≤ b * x) × (a * min x y ≤ a * y) =
      (mul-le-mul_left b (omega arith), mul-le-mul_left a (omega arith)) in
    let high : (b * x ≤ b * max x y) × (a * y ≤ a * max x y) =
      (mul-le-mul_left b (omega arith), mul-le-mul_left a (omega arith)) in
    let sum_min : b * min x y + a * min x y ≡ unit * min x y = whole (min x y) in
    let sum_max : b * max x y + a * max x y ≡ unit * max x y = whole (max x y) in
    (omega arith, omega arith)
  where
    whole : (m : ℕ) → b * m + a * m ≡ unit * m
    whole m = sym (add-mul b a m) ∙ ap (λ t. t * m) (omega arith)

-- The running mean stays between the last mean and the new count, for a weight of at most 1.
pub ewma_bounds :
    (alpha new : ℕ) (e : PhraseStats)
    → alpha ≤ unit
    → (min e.ewma (new * unit) ≤ (updated_stats alpha new e).ewma)
      × ((updated_stats alpha new e).ewma ≤ max e.ewma (new * unit))
unfolding updated_stats
ewma_bounds alpha new e h = weighted_bounds alpha (unit - alpha) e.ewma (new * unit) (omega arith)
