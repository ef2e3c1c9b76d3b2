-- ===== src/Crawl/Judge/Laws.antt =====
-- The gate over the judge: it fails open, and it is stable.
use mathlib.Core.Path.{subst}
use ubd_probe.Prelude.{
  ◌≡◌, ◌⊎◌, inl, inr, refl, sym, ap, ◌∙◌, Bool, List, [], ◌∷◌, if◌then◌else◌, Bool-cases,
  list_beq_iff, true, false, ◌||◌, not, none, some, null, nat_eq, list_eq, Option-cases, arith,
}
use ubd_probe.Prelude.Dict.{Dict, lookup, insert, lookup-insert, lookup-insert_self}
use ubd_probe.Prelude.Text.{Text}
use ubd_probe.Crawl.Judge.{
  Verdict, Answer, verdict, unavailable, judge_error, Gate, passes, cached, stored, ask, keep,
}

-- While the breaker is open or the gate is off, everything is kept, nothing is asked, and the gate
-- stays as it is.
keep-open :
    {C : Type 0} (judge : C → Answer) (candidate : C) (hash : Text) (g : Gate)
    → (not g.enabled || g.broken) ≡ true
    → keep judge candidate hash g ≡ (true, g)
unfolding keep
keep-open judge candidate hash g e = rw (keep, e) refl

keep-hit :
    {C : Type 0} (judge : C → Answer) (candidate : C) (hash : Text) (g : Gate) (v : Verdict)
    → (not g.enabled || g.broken) ≡ false
    → cached hash g ≡ some v
    → keep judge candidate hash g ≡ (passes v, g)
unfolding keep
keep-hit judge candidate hash g v shut e = rw (keep, shut, e) refl

keep-miss :
    {C : Type 0} (judge : C → Answer) (candidate : C) (hash : Text) (g : Gate)
    → (not g.enabled || g.broken) ≡ false
    → cached hash g ≡ none
    → keep judge candidate hash g ≡ ask judge candidate hash g
unfolding keep
keep-miss judge candidate hash g shut e = rw (keep, shut, e) refl

or_true : (a : Bool) → (not a || true) ≡ true
or_true a = ground arith

pub Answer-cases :
    (a : Answer) → (a ≡ unavailable) ⊎ (a ≡ judge_error) ⊎ ((v : Verdict) × (a ≡ verdict v))
Answer-cases unavailable = inl refl
Answer-cases judge_error = inr (inl refl)
Answer-cases (verdict v) = inr (inr (v, refl))

-- The gate after further calls, each with the answer that the judge would give and a hash.
unfoldable pub after : List (Answer × Text) → Gate → Gate
after [] g = g
after ((answer, hash) ∷ calls) g = after calls (keep (λ (a : Answer). a) answer hash g).1

-- The gate is on and knows the verdict on a hash.
record Knows (hash : Text) (v : Verdict) (g : Gate) : Type 0 where
  on : g.enabled ≡ true
  verdicts : Dict Text Verdict
  has : g.cache ≡ some verdicts
  knows : lookup hash verdicts ≡ some v

cached-lookup :
    (hash : Text) (g : Gate) (verdicts : Dict Text Verdict)
    → null hash ≡ false
    → g.cache ≡ some verdicts
    → cached hash g ≡ lookup hash verdicts
unfolding cached
cached-lookup hash g verdicts written e = rw (cached, e, written) refl

stored-Knows_self :
    (hash : Text) (v : Verdict) (g : Gate) (verdicts : Dict Text Verdict)
    → null hash ≡ false
    → g.enabled ≡ true
    → g.cache ≡ some verdicts
    → Knows hash v (stored hash v g)
unfolding stored
stored-Knows_self hash v g verdicts written on e =
    rw (stored, e, written)
      (record {
        on = on;
        verdicts = insert hash v verdicts;
        has = refl;
        knows = lookup-insert_self hash v verdicts;
      })

stored-Knows :
    (hash h : Text) (v w : Verdict) (g : Gate)
    → null hash ≡ false
    → cached h g ≡ none
    → Knows hash v g
    → Knows hash v (stored h w g)
unfolding stored cached
stored-Knows hash h v w g written miss k = elim (Bool-cases (null h)) [
  | inl bare ↦ rw (stored, k.has, bare) k
  | inr full ↦
      let new : lookup h k.verdicts ≡ none = sym (cached-lookup h g k.verdicts full k.has) ∙ miss in
      rw (stored, k.has, full)
        (record {
          on = k.on;
          verdicts = insert h w k.verdicts;
          has = refl;
          knows =
              ground (arith, lookup-insert h hash w k.verdicts, list_beq_iff h hash, k.knows, new);
        })
]

broken-Knows :
    (hash : Text) (v : Verdict) (g : Gate)
    → Knows hash v g
    → Knows hash v (record g { broken = true })
broken-Knows hash v g k = record { on = k.on; verdicts = k.verdicts; has = k.has; knows = k.knows }

keep-Knows :
    (hash : Text) (v : Verdict) (answer : Answer) (h : Text) (g : Gate)
    → null hash ≡ false
    → Knows hash v g
    → Knows hash v (keep (λ (a : Answer). a) answer h g).1
unfolding ask
keep-Knows hash v answer h g written k = elim (Bool-cases (not g.enabled || g.broken)) [
  | inl open_gate ↦ rw (keep-open (λ (a : Answer). a) answer h g open_gate) k
  | inr shut ↦ elim (Option-cases (cached h g)) [
    | inr (w, hit) ↦ rw (keep-hit (λ (a : Answer). a) answer h g w shut hit) k
    | inl miss ↦
        let asked = keep-miss (λ (a : Answer). a) answer h g shut miss in
        elim (Answer-cases answer) [
          | inl down ↦ rw (asked, ask, down) (broken-Knows hash v g k)
          | inr (inl failed) ↦ rw (asked, ask, failed) k
          | inr (inr (w, told)) ↦ rw (asked, ask, told) (stored-Knows hash h v w g written miss k)
        ]
  ]
]

after-Knows :
    (hash : Text) (v : Verdict) (calls : List (Answer × Text)) (g : Gate)
    → null hash ≡ false
    → Knows hash v g
    → Knows hash v (after calls g)
unfolding after
after-Knows hash v [] g written k = k
after-Knows hash v ((answer, h) ∷ calls) g written k =
    after-Knows hash v calls (keep (λ (a : Answer). a) answer h g).1 written
      (keep-Knows hash v answer h g written k)

-- Once the verdict on a hash is known, the decision on the hash follows it, or the breaker is open.
decided :
    {D : Type 0} (other : D → Answer) (later : D) (hash : Text) (v : Verdict) (g : Gate)
    → null hash ≡ false
    → Knows hash v g
    → (keep other later hash g).0 ≡ (if g.broken then true else passes v)
unfolding cached
decided other later hash v g written k = elim (Bool-cases g.broken) [
  | inl broken ↦ rw (keep-open other later hash g (rw broken (or_true g.enabled)), broken) refl
  | inr whole ↦
      let shut : (not g.enabled || g.broken) ≡ false = rw (k.on, whole) refl in
      rw (keep-hit other later hash g v shut (rw (cached, k.has, written) k.knows), whole) refl
]

stays_broken :
    (calls : List (Answer × Text)) (g : Gate) → g.broken ≡ true → (after calls g).broken ≡ true
unfolding after
stays_broken [] g e = e
stays_broken ((answer, h) ∷ calls) g e =
    let same = keep-open (λ (a : Answer). a) answer h g (rw e (or_true g.enabled)) in
    subst (λ (x : Bool × Gate). (after calls x.1).broken ≡ true) (sym same) (stays_broken calls g e)

broken_open :
    {D : Type 0} (other : D → Answer) (later : D) (calls : List (Answer × Text)) (h : Text)
    (g : Gate)
    → g.broken ≡ true
    → (keep other later h (after calls g)).0 ≡ true
broken_open other later calls h g e =
    ap (λ (x : Bool × Gate). x.0)
      (keep-open other later h (after calls g)
        (rw (stays_broken calls g e) (or_true (after calls g).enabled)))

-- A gate that is on and has a cache is stable on a hash that is not empty, whatever calls for this or
-- other hashes come in between, as long as the breaker is not reset: after the judge was unavailable
-- every later candidate is kept; a candidate on which the judge failed is kept and leaves the gate as it
-- was; and in every other case a later candidate of the hash gets the decision of the first one, from
-- whatever judge, unless the breaker has opened since, and then it is kept.
pub keep-stable :
    {C D : Type 0} (judge : C → Answer) (other : D → Answer) (candidate : C) (later : D)
    (hash : Text) (g : Gate) (verdicts : Dict Text Verdict)
    → g.enabled ≡ true
    → g.broken ≡ false
    → g.cache ≡ some verdicts
    → null hash ≡ false
    → let first = keep judge candidate hash g in
      ((first.0 ≡ true)
        × (judge candidate ≡ unavailable)
        × ((calls : List (Answer × Text)) (h : Text)
            → (keep other later h (after calls first.1)).0 ≡ true))
      ⊎ (first ≡ (true, g)) × (judge candidate ≡ judge_error)
      ⊎ ((calls : List (Answer × Text))
          → let then_gate = after calls first.1 in
            (keep other later hash then_gate).0 ≡ (if then_gate.broken then true else first.0))
unfolding ask
keep-stable judge other candidate later hash g verdicts on whole e written =
    let shut : (not g.enabled || g.broken) ≡ false = rw (on, whole) refl in
    elim (Option-cases (cached hash g)) [
      | inr (v, found) ↦
          let one = keep-hit judge candidate hash g v shut found in
          let known : Knows hash v g = record {
            on = on;
            verdicts = verdicts;
            has = e;
            knows = sym (cached-lookup hash g verdicts written e) ∙ found;
          } in
          inr (
            inr (λ calls. rw one (
              decided other later hash v (after calls g) written
                (after-Knows hash v calls g written known))))
      | inl new ↦
          let one = keep-miss judge candidate hash g shut new in
          elim (Answer-cases (judge candidate)) [
            | inl down ↦
                let broke : keep judge candidate hash g ≡ (true, record g { broken = true }) =
                  one ∙ rw (ask, down) refl in
                inl (
                  ap (λ (x : Bool × Gate). x.0) broke,
                  down,
                  λ calls h.
                      rw broke (broken_open other later calls h (record g { broken = true }) refl),
                )
            | inr (inl failed) ↦ inr (inl (one ∙ rw (ask, failed) refl, failed))
            | inr (inr (v, told)) ↦
                let asked : keep judge candidate hash g ≡ (passes v, stored hash v g) =
                  one ∙ rw (ask, told) refl in
                let known : Knows hash v (stored hash v g) =
                  stored-Knows_self hash v g verdicts written on e in
                inr (
                  inr (λ calls. rw asked (
                    decided other later hash v (after calls (stored hash v g)) written
                      (after-Knows hash v calls (stored hash v g) written known))))
          ]
    ]
