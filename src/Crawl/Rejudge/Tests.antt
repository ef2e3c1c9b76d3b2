-- ===== src/Crawl/Rejudge/Tests.antt =====
-- The sweep of the judge at concrete offers.
use ubd_probe.Prelude.{
  ℕ, ◌≡◌, refl, Bool, true, false, none, some, List, [], ◌∷◌, null, leb, not, zero, suc,
  if◌then◌else◌,
}
use ubd_probe.Prelude.Text.{Text, codes}
use ubd_probe.Crawl.Judge.{Verdict, Answer, verdict, judge_error}
use ubd_probe.Crawl.Rejudge.{Pending, Candidate, run}
use ubd_probe.Crawl.Rejudge.Laws.{IsSound, run-IsSound}

abbrev mk_offer : ℕ → Text → Pending
mk_offer id title = record {
  id = id;
  content_hash = some title;
  title = title;
  description = none;
  discount_type = none;
  discount_value = none;
  article_url = none;
}

abbrev off_topic : Verdict
off_topic = record { genuine = true; page_scoped = false; reason = codes "another page" }

-- It rejects the titles, fails on an empty one, and the backend takes the even ids.
abbrev strict : Candidate → Answer
strict c = if null c.title then judge_error else verdict off_topic

abbrev takes : ℕ → Text → Bool
takes zero reason = true
takes (suc id) reason = not (takes id reason)

abbrev listed : ℕ → List Pending
listed budget =
    mk_offer 2 (codes "a") ∷ mk_offer 4 (codes "a") ∷ mk_offer 5 (codes "b") ∷ mk_offer 6 [] ∷ []

-- The second offer has the hash of the first, which is in the cache by then.
sweeps : (run strict takes listed 30 []).rejected ≡ 1
unfolding run
sweeps = refl

run-IsSound_example :
    IsSound strict takes (λ o. leb o.id 6 ≡ true) 4 (run strict takes listed 30 [])
run-IsSound_example =
    run-IsSound strict takes (λ o. leb o.id 6 ≡ true) listed 30 []
      (refl, (refl, (refl, (refl, tt))))
