-- ===== src/Crawl/Rejudge/Laws.antt =====
-- The sweep never rejects blindly, and its counts add up.
use ubd_probe.Prelude.{
  ℕ, suc, ◌+◌, ◌≤◌, ◌≡◌, refl, inl, inr, Bool, true, false, List, [], ◌∷◌, length, length-append,
  All, Bool-cases, arith,
}
use ubd_probe.Prelude.Table.{All-append}
use ubd_probe.Prelude.Dict.{Dict}
use ubd_probe.Prelude.Text.{Text}
use ubd_probe.Crawl.Judge.{Verdict, Answer, verdict, passes}
use ubd_probe.Crawl.Judge.Laws.{Answer-cases}
use ubd_probe.Crawl.Rejudge.{
  Pending, Candidate, Sweep, candidate_of, is_judged, reason_of, settle, sweep_one, sweep, run,
}

module _ (judge : Candidate → Answer) (takes : ℕ → Text → Bool) (P : Pending → Type 0) where
  -- A rejection of a listed offer that the judge has answered for, and against.
  pub record IsFair (rejection : ℕ × Text) : Type 1 where
    pub offer : Pending
    pub listed : P offer
    pub told : Verdict
    pub answer : judge (candidate_of offer) ≡ verdict told
    pub fails : passes told ≡ false
    pub taken : takes offer.id (reason_of told) ≡ true
    pub is : rejection ≡ (offer.id, reason_of told)

  -- `n` offers have been looked at.
  pub record IsSound (n : ℕ) (s : Sweep) : Type 1 where
    pub fair : All IsFair s.rejections
    pub counted : length s.rejections ≡ s.rejected
    pub settled : s.kept + s.rejected ≤ s.scanned
    pub bounded : s.scanned ≤ n
    pub done : s.kept + s.rejected + s.skipped ≤ n

  -- A step that sends no rejection.
  more :
      (n : ℕ) (s t : Sweep)
      → IsSound n s
      → t.rejections ≡ s.rejections
      → t.rejected ≡ s.rejected
      → t.kept + t.rejected ≤ t.scanned
      → t.scanned ≤ n + 1
      → t.kept + t.rejected + t.skipped ≤ n + 1
      → IsSound (n + 1) t
  more n s t h same count settled bounded done = record {
    fair = rw same h.fair;
    counted = rw (same, count) h.counted;
    settled = settled;
    bounded = bounded;
    done = done;
  }

  sent :
      (o : Pending) (v : Verdict)
      → P o
      → judge (candidate_of o) ≡ verdict v
      → passes v ≡ false
      → takes o.id (reason_of v) ≡ true
      → IsFair (o.id, reason_of v)
  sent o v p told bad done = record {
    offer = o;
    listed = p;
    told = v;
    answer = told;
    fails = bad;
    taken = done;
    is = refl;
  }

  settle-IsSound :
      (n : ℕ) (o : Pending) (v : Verdict) (s : Sweep)
      → P o
      → judge (candidate_of o) ≡ verdict v
      → IsSound n s
      → IsSound (n + 1) (settle judge takes o v (record s { scanned = suc s.scanned }))
  unfolding settle
  settle-IsSound n o v s p told h = elim (Bool-cases (passes v)) [
    | inl good ↦
        rw (settle, good)
          (more n s _ h refl refl (omega (arith, h.settled)) (omega (arith, h.bounded))
            (omega (arith, h.done)))
    | inr bad ↦ elim (Bool-cases (takes o.id (reason_of v))) [
      | inr failed ↦
          rw (settle, bad, failed)
            (more n s _ h refl refl (omega (arith, h.settled)) (omega (arith, h.bounded))
              (omega (arith, h.done)))
      | inl done ↦
          let now : List (ℕ × Text) = (o.id, reason_of v) ∷ [] in
          rw (settle, bad, done)
            (record {
              fair = All-append IsFair s.rejections now h.fair (sent o v p told bad done, tt);
              counted = omega (arith, length-append s.rejections now, h.counted);
              settled = omega (arith, h.settled);
              bounded = omega (arith, h.bounded);
              done = omega (arith, h.done);
            })
    ]
  ]

  -- After the branches that go on, and the one that stops.
  sweep_one-IsSound :
      (n : ℕ) (o : Pending) (s : Sweep)
      → P o
      → IsSound n s
      → IsSound (n + 1) (sweep_one judge takes o s).1
  unfolding sweep_one
  sweep_one-IsSound n o s p h = elim (Bool-cases (is_judged o.content_hash s.cache)) [
    | inl hit ↦
        rw (sweep_one, hit)
          (more n s _ h refl refl h.settled (omega (arith, h.bounded)) (omega (arith, h.done)))
    | inr miss ↦ elim (Answer-cases (judge (candidate_of o))) [
      | inl down ↦
          rw (sweep_one, miss, down)
            (more n s _ h refl refl (omega (arith, h.settled)) (omega (arith, h.bounded))
              (omega (arith, h.done)))
      | inr (inl failed) ↦
          rw (sweep_one, miss, failed)
            (more n s _ h refl refl (omega (arith, h.settled)) (omega (arith, h.bounded))
              (omega (arith, h.done)))
      | inr (inr (v, told)) ↦ rw (sweep_one, miss, told) (settle-IsSound n o v s p told h)
    ]
  ]

  raise : (n m : ℕ) (s : Sweep) → n ≤ m → IsSound n s → IsSound m s
  raise n m s le h = record {
    fair = h.fair;
    counted = h.counted;
    settled = h.settled;
    bounded = omega (arith, le, h.bounded);
    done = omega (arith, le, h.done);
  }

  sweep-IsSound :
      (n m : ℕ) (offers : List Pending) (s : Sweep)
      → n + length offers ≤ m
      → All P offers
      → IsSound n s
      → IsSound m (sweep judge takes offers s)
  unfolding sweep
  sweep-IsSound n m [] s le ps h = raise n m s (omega (arith, le)) h
  sweep-IsSound n m (o ∷ offers) s le ps h =
      let one = sweep_one-IsSound n o s ps.0 h in
      elim (Bool-cases (sweep_one judge takes o s).0) [
        | inl on ↦
            rw (sweep, on)
              (sweep-IsSound (n + 1) m offers (sweep_one judge takes o s).1 (omega (arith, le)) ps.1
                one)
        | inr off ↦ rw (sweep, off) (raise (n + 1) m _ (omega (arith, le)) one)
      ]

  -- The sweep over the listed offers never rejects blindly: every rejection that it has sent is of a
  -- listed offer (whatever `P` holds of all of them holds of it), the judge has answered for that offer
  -- with a verdict that does not pass, its reason is sent, and the backend has taken it. The count of the
  -- rejections is right, no more offers are kept or rejected than are scanned, and all counts stay
  -- within the number of the listed offers.
  pub run-IsSound :
      (pending : ℕ → List Pending) (budget : ℕ) (cache : Dict Text Verdict)
      → All P (pending budget)
      → IsSound (length (pending budget)) (run judge takes pending budget cache)
  unfolding run
  run-IsSound pending budget cache ps =
      sweep-IsSound 0 _ (pending budget) _ (omega arith) ps (record {
        fair = tt;
        counted = refl;
        settled = omega arith;
        bounded = omega arith;
        done = omega arith;
      })
