-- ===== src/Discover/Active/Laws.antt =====
-- What a run of the active discovery finds.
use ubd_probe.Prelude.{
  ℕ, suc, ◌≤◌, ◌≡◌, ◌⊎◌, inl, inr, refl, leb, Bool, false, ◌&&◌, ◌||◌, not, Option, List, [], ◌∷◌,
  ◌++◌, any, contains, ◌==◌, nat_eq, list_eq, All, Bool-cases, Option-cases, arith,
}
use ubd_probe.Prelude.Table.{Pairwise, Pairwise-append, All-append}
use ubd_probe.Prelude.Dict.{Dict}
use ubd_probe.Prelude.Text.{Text}
use ubd_probe.Discover.Types.{type_eq, SourceCandidate}
use ubd_probe.Discover.Ref.{normalize_ref}
use ubd_probe.Discover.Active.{Finds, is_seen, add_new, page_of, query, run_from, run}

abbrev pub same_key : SourceCandidate → SourceCandidate → Bool
same_key d c =
    d.type == c.type && normalize_ref d.type d.url_or_handle == normalize_ref c.type c.url_or_handle

-- New candidates only: none is known, and no two have the same type and reference.
pub record IsNew (known : List Text) (out : List SourceCandidate) : Type 0 where
  pub unknown : All (λ c. contains known (normalize_ref c.type c.url_or_handle) ≡ false) out
  pub apart : Pairwise (λ d c. same_key d c ≡ false) out

any-none : {A : Type 0} (p : A → Bool) (xs : List A) → any p xs ≡ false → All (λ x. p x ≡ false) xs
unfolding any
any-none p [] h = tt
any-none p (x ∷ xs) h = (ground arith, any-none p xs (ground arith))

add_new-IsNew :
    (known : List Text) (results out : List SourceCandidate)
    → IsNew known out
    → IsNew known (add_new known results out)
unfolding add_new is_seen
add_new-IsNew known [] out h = h
add_new-IsNew known (c ∷ results) out h =
    elim (Bool-cases (contains known (normalize_ref c.type c.url_or_handle) || is_seen out c)) [
      | inl old ↦ rw old (add_new-IsNew known results out h)
      | inr new ↦ rw new (add_new-IsNew known results (out ++ (c ∷ [])) (one_new known c out h new))
    ]
  where
    one_new :
        (known : List Text) (c : SourceCandidate) (out : List SourceCandidate)
        → IsNew known out
        → (contains known (normalize_ref c.type c.url_or_handle) || is_seen out c) ≡ false
        → IsNew known (out ++ (c ∷ []))
    one_new known c out h new = record {
      unknown = All-append _ out (c ∷ []) h.unknown (ground arith, tt);
      apart = Pairwise-append _ out c h.apart (any-none (λ d. same_key d c) out (ground arith));
    }

budget_left : (b u : ℕ) → (not (b == 0) && leb b u) ≡ false → (b ≡ 0) ⊎ (suc u ≤ b)
budget_left b u h = ground arith

module _ (search : Text → ℕ → Option (List SourceCandidate)) (served : Text → Bool) (budget : ℕ)
    (known : List Text) (pages : Dict Text ℕ) where
  query-IsNew :
      (kw : Text) (f : Finds)
      → IsNew known f.out
      → IsNew known (query search served budget known pages kw f).out
        × ((query search served budget known pages kw f).used ≡ suc f.used)
  unfolding query
  query-IsNew kw f h = elim (Option-cases (search kw (page_of pages kw))) [
    | inl down ↦ rw (query, down) (h, refl)
    | inr (results, e) ↦ rw (query, e) (add_new-IsNew known results f.out h, refl)
  ]

  run_from-IsNew :
      (keywords : List Text) (f : Finds)
      → IsNew known f.out
      → (budget ≡ 0) ⊎ (f.used ≤ budget)
      → IsNew known (run_from search served budget known pages keywords f).out
        × ((budget ≡ 0) ⊎ ((run_from search served budget known pages keywords f).used ≤ budget))
  unfolding run_from
  run_from-IsNew [] f h within = (h, within)
  run_from-IsNew (kw ∷ keywords) f h within =
      elim (Bool-cases (not (budget == 0) && leb budget f.used)) [
        | inl spent ↦ rw spent (h, within)
        | inr left ↦
            let one = query-IsNew kw f h in
            rw left (
              run_from-IsNew keywords (query search served budget known pages kw f) one.0
                (elim (budget_left budget f.used left) [
                  | inl none_set ↦ inl none_set
                  | inr less ↦ inr (omega (arith, less, one.1))
                ]))
      ]

  -- A run finds new candidates only, whatever the provider answers: none has a known reference, and no
  -- two have the same type and reference; and with a budget that is not 0 it asks the provider at most
  -- so often.
  pub run-IsNew :
      (keywords : List Text)
      → IsNew known (run search served budget known pages keywords).out
        × ((budget ≡ 0) ⊎ ((run search served budget known pages keywords).used ≤ budget))
  unfolding run
  run-IsNew keywords =
      run_from-IsNew keywords (record { out = []; used = 0; served = [] })
        (record { unknown = tt; apart = tt }) (inr (omega arith))
