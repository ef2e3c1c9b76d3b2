-- ===== src/Crawl/Rejudge.antt =====
-- `RejudgeSweep` of crawler/crawler/discovery/rejudge.py over the judge and the verdict cache. The list
-- of the pending offers and the answers of the judge and of the backend are parameters; a listing that
-- fails ends the sweep before it begins.
pub mod Laws
pub mod Tests
use ubd_probe.Prelude.{
  ℕ, suc, Bool, true, false, ◌&&◌, not, Option, none, some, List, [], ◌∷◌, ◌++◌, null, is_some,
  nat_eq, list_eq, list_beq, if◌then◌else◌,
}
use ubd_probe.Prelude.Dict.{Dict, lookup, insert}
use ubd_probe.Prelude.Text.{Text, codes}
use ubd_probe.Crawl.Judge.{Verdict, Answer, verdict, unavailable, judge_error, passes}

-- What the backend lists of an offer.
pub record Pending : Type 0 where
  pub id : ℕ
  pub content_hash : Option Text
  pub title : Text
  pub description : Option Text
  pub discount_type : Option Text
  pub discount_value : Option Text
  pub article_url : Option Text

-- What the judge is shown.
pub record Candidate : Type 0 where
  pub title : Text
  pub body : Text
  pub discount_type : Option Text
  pub discount_value : Option Text
  pub article_url : Option Text

-- The counts, the cache, and the rejections that the backend has taken.
pub record Sweep : Type 0 where
  pub scanned : ℕ
  pub kept : ℕ
  pub rejected : ℕ
  pub skipped : ℕ
  pub cache : Dict Text Verdict
  pub rejections : List (ℕ × Text)

unfoldable pub candidate_of : Pending → Candidate
candidate_of o = record {
  title = o.title;
  body = elim o.description [ none ↦ [] | some d ↦ d ];
  discount_type = o.discount_type;
  discount_value = o.discount_value;
  article_url = o.article_url;
}

-- `content_hash and self._cache.get(content_hash) is not None`
unfoldable pub is_judged : Option Text → Dict Text Verdict → Bool
unfolding lookup list_beq
is_judged none cache = false
is_judged (some hash) cache = not (null hash) && is_some (lookup hash cache)

-- `if content_hash: self._cache.put(content_hash, verdict)`
unfoldable pub put_verdict : Option Text → Verdict → Dict Text Verdict → Dict Text Verdict
unfolding insert list_beq
put_verdict none v cache = cache
put_verdict (some hash) v cache = if null hash then cache else insert hash v cache

unfoldable pub reason_of : Verdict → Text
reason_of v = codes "суддя: " ++ v.reason

-- `judge` is `self._judge.verdict`, `takes` tells whether the call `judge_reject_offer` succeeds.
module _ (judge : Candidate → Answer) (takes : ℕ → Text → Bool) where
  -- The branches on a verdict.
  unfoldable pub settle : Pending → Verdict → Sweep → Sweep
  unfolding put_verdict reason_of
  settle o v s =
      if passes v
      then record s { kept = suc s.kept; cache = put_verdict o.content_hash v s.cache }
      else if takes o.id (reason_of v)
      then record s {
        rejected = suc s.rejected;
        cache = put_verdict o.content_hash v s.cache;
        rejections = s.rejections ++ ((o.id, reason_of v) ∷ []);
      }
      else record s { skipped = suc s.skipped }

  -- The body of the loop; whether it goes on.
  unfoldable pub sweep_one : Pending → Sweep → Bool × Sweep
  unfolding is_judged candidate_of settle
  sweep_one o s =
      let asked : Sweep = record s { scanned = suc s.scanned } in
      if is_judged o.content_hash s.cache
      then (true, record s { skipped = suc s.skipped })
      else elim (judge (candidate_of o)) [
        | unavailable ↦ (false, asked)
        | judge_error ↦ (true, record asked { skipped = suc s.skipped })
        | verdict v ↦ (true, settle o v asked)
      ]

  unfoldable pub sweep : List Pending → Sweep → Sweep
  unfolding sweep_one
  sweep [] s = s
  sweep (o ∷ offers) s =
      let one = sweep_one o s in let rest = sweep offers one.1 in if one.0 then rest else one.1

  -- `run`: `pending` is the backend's `list_pending_unjudged`.
  unfoldable pub run : (ℕ → List Pending) → ℕ → Dict Text Verdict → Sweep
  unfolding sweep
  run pending budget cache =
      sweep (pending budget) (record {
        scanned = 0;
        kept = 0;
        rejected = 0;
        skipped = 0;
        cache = cache;
        rejections = [];
      })
