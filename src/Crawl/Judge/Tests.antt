-- ===== src/Crawl/Judge/Tests.antt =====
-- The gate over the judge at concrete values.
use ubd_probe.Prelude.{ℕ, ◌≡◌, ◌⊎◌, refl, true, false, some, List, [], ◌∷◌, if◌then◌else◌}
use ubd_probe.Prelude.Text.{Text, codes}
use ubd_probe.Crawl.Judge.{Verdict, Answer, verdict, unavailable, judge_error, Gate, keep}
use ubd_probe.Crawl.Judge.Laws.{after, keep-stable}

abbrev off_topic : Verdict
off_topic = record { genuine = true; page_scoped = false; reason = codes "another page" }

abbrev strict : ℕ → Answer
strict candidate = verdict off_topic

abbrev down : ℕ → Answer
down candidate = unavailable

abbrev gate : Gate
gate = record { enabled = true; broken = false; cache = some [] }

keep-stable_example :
    let first = keep strict 1 (codes "h1") gate in
    ((first.0 ≡ true)
      × (strict 1 ≡ unavailable)
      × ((calls : List (Answer × Text)) (h : Text)
          → (keep down 2 h (after calls first.1)).0 ≡ true))
    ⊎ (first ≡ (true, gate)) × (strict 1 ≡ judge_error)
    ⊎ ((calls : List (Answer × Text))
        → let then_gate = after calls first.1 in
          (keep down 2 (codes "h1") then_gate).0 ≡ (if then_gate.broken then true else first.0))
keep-stable_example = keep-stable strict down 1 2 (codes "h1") gate [] refl refl refl refl

abbrev first_gate : Gate
first_gate = (keep strict 1 (codes "h1") gate).1

-- Between the two candidates another hash meets a judge that fails, or one that is unavailable.
decisions :
    ((keep down 2 (codes "h1") (after ((judge_error, codes "h2") ∷ []) first_gate)).0 ≡ false)
    × ((keep down 2 (codes "h1") (after ((unavailable, codes "h2") ∷ []) first_gate)).0 ≡ true)
unfolding keep after
decisions = (refl, refl)
