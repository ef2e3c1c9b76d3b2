-- ===== src/Prelude/Table.antt =====
-- Tables with a numeric id: the row of an id, a changed row written back, a row deleted, and what
-- these keep of a property of all rows or of all pairs of rows.
use Prim.Native.Nat.{ℕ, ◌<◌}
use mathlib.Core.Path.{◌≡◌, refl, sym, ◌∙◌}
use mathlib.Core.Logic.{◌≢◌, ◌⊎◌, inl, inr}
use mathlib.Core.Bool.{Bool, true, false, not, ◌&&◌}
use mathlib.Core.Option.{Option, none, some}
use mathlib.Core.List.{List, [], ◌∷◌, ◌++◌}
use native.Mathlib.Omega.{arith}
use ubd_probe.Prelude.Tests.{if◌then◌else◌, Bool-cases}
use ubd_probe.Prelude.Classes.{◌==◌, nat_eq, eq_sound, eq_refl}
use ubd_probe.Prelude.Lists.{All, filter, find?, any}

-- A first row where a query states no order: any row that matches, if there is one.
pub record IsChoice {ℓ} {A : Type ℓ} (choice : List A → Option A) : Type (ℓ ⊔ 1) where
  pub chosen : (P : A → Type 0) (rows : List A) (x : A) → All P rows → choice rows ≡ some x → P x
  pub missed : (rows : List A) → choice rows ≡ none → rows ≡ []

module _ {ℓ} {A : Type ℓ} where
  -- Every row is related to every later one.
  abbrev pub Pairwise {κ} : (A → A → Type κ) → List A → Type κ
  Pairwise R [] = Unit
  Pairwise R (x ∷ rows) = All (R x) rows × Pairwise R rows

  pub All-find? {κ} :
      (P : A → Type κ) (p : A → Bool) (rows : List A) (x : A)
      → All P rows
      → find? p rows ≡ some x
      → P x
  unfolding find?
  All-find? P p [] x h e = absurd (cc)
  All-find? P p (y ∷ rows) x h e = elim (Bool-cases (p y)) [
    | inl hit ↦ let same : y ≡ x = ground arith in rw (sym same) h.0
    | inr miss ↦ All-find? P p rows x h.1 (ground arith)
  ]

  pub find?-none :
      (p : A → Bool) (rows : List A) → find? p rows ≡ none → All (λ x. p x ≡ false) rows
  unfolding find?
  find?-none p [] e = tt
  find?-none p (x ∷ rows) e = (ground arith, find?-none p rows (ground arith))

  pub All-map {κ κ'} :
      {P : A → Type κ} {Q : A → Type κ'} (rows : List A)
      → ((x : A) → P x → Q x)
      → All P rows
      → All Q rows
  All-map [] f h = tt
  All-map (x ∷ rows) f h = (f x h.0, All-map rows f h.1)

  pub All-every {κ} : (P : A → Type κ) (rows : List A) → ((x : A) → P x) → All P rows
  All-every P [] f = tt
  All-every P (x ∷ rows) f = (f x, All-every P rows f)

  pub All-both {κ κ'} :
      (P : A → Type κ) (Q : A → Type κ') (rows : List A)
      → All P rows
      → All Q rows
      → All (λ x. P x × Q x) rows
  All-both P Q [] h k = tt
  All-both P Q (x ∷ rows) h k = ((h.0, k.0), All-both P Q rows h.1 k.1)

  pub All-append {κ} :
      (P : A → Type κ) (rows new : List A) → All P rows → All P new → All P (rows ++ new)
  All-append P [] new h k = k
  All-append P (x ∷ rows) new h k = (h.0, All-append P rows new h.1 k)

  pub filter-All : (p : A → Bool) (rows : List A) → All (λ x. p x ≡ true) (filter p rows)
  unfolding filter
  filter-All p [] = tt
  filter-All p (x ∷ rows) = elim (Bool-cases (p x)) [
    | inl hit ↦ rw hit (hit, filter-All p rows)
    | inr miss ↦ rw miss (filter-All p rows)
  ]

  pub filter-empty :
      (p : A → Bool) (rows : List A) → filter p rows ≡ [] → All (λ x. p x ≡ false) rows
  unfolding filter
  filter-empty p [] e = tt
  filter-empty p (x ∷ rows) e = elim (Bool-cases (p x)) [
    | inl hit ↦ absurd (ground arith)
    | inr miss ↦ (miss, filter-empty p rows (ground arith))
  ]

  pub All-kept {κ} :
      (P : A → Type κ) (p : A → Bool) (rows : List A) → All P rows → All P (filter p rows)
  unfolding filter
  All-kept P p [] h = tt
  All-kept P p (x ∷ rows) h = elim (Bool-cases (p x)) [
    | inl hit ↦ rw hit (h.0, All-kept P p rows h.1)
    | inr miss ↦ rw miss (All-kept P p rows h.1)
  ]

  pub any-last :
      (p : A → Bool) (rows : List A) (new : A) → p new ≡ true → any p (rows ++ (new ∷ [])) ≡ true
  unfolding any
  any-last p [] new h = rw h refl
  any-last p (x ∷ rows) new h = elim (Bool-cases (p x)) [
    | inl hit ↦ rw hit refl
    | inr miss ↦ rw miss (any-last p rows new h)
  ]

  -- A filter that keeps anything has met a row of its test.
  pub any-filter : (p : A → Bool) (rows : List A) → All (λ x. any p rows ≡ true) (filter p rows)
  unfolding filter any
  any-filter p [] = tt
  any-filter p (x ∷ rows) = elim (Bool-cases (p x)) [
    | inl hit ↦ rw hit (refl, All-every _ (filter p rows) (λ y. refl))
    | inr miss ↦ rw miss (any-filter p rows)
  ]

  pub any-implies :
      (p q : A → Bool) (rows : List A)
      → ((x : A) → p x ≡ true → q x ≡ true)
      → any p rows ≡ true
      → any q rows ≡ true
  unfolding any
  any-implies p q [] f h = cc
  any-implies p q (x ∷ rows) f h = elim (Bool-cases (p x)) [
    | inl hit ↦ rw (f x hit) refl
    | inr miss ↦
        let rest = any-implies p q rows f (ground arith) in
        elim (Bool-cases (q x)) [ inl on ↦ rw on refl | inr off ↦ rw off rest ]
  ]

  -- A test that asks two things meets a row in the rows that pass the first.
  pub any-within :
      (p q : A → Bool) (rows : List A)
      → any (λ x. p x && q x) rows ≡ true
      → any q (filter p rows) ≡ true
  unfolding any filter
  any-within p q [] h = cc
  any-within p q (x ∷ rows) h = elim (Bool-cases (p x)) [
    | inl hit ↦ elim (Bool-cases (q x)) [
      | inl on ↦ rw (hit, on) refl
      | inr off ↦ rw (hit, off) (any-within p q rows (ground arith))
    ]
    | inr miss ↦ rw miss (any-within p q rows (ground arith))
  ]

  pub Pairwise-filter {κ} :
      (R : A → A → Type κ) (p : A → Bool) (rows : List A)
      → Pairwise R rows
      → Pairwise R (filter p rows)
  unfolding filter
  Pairwise-filter R p [] h = tt
  Pairwise-filter R p (x ∷ rows) h = elim (Bool-cases (p x)) [
    | inl hit ↦ rw hit (All-kept (R x) p rows h.0, Pairwise-filter R p rows h.1)
    | inr miss ↦ rw miss (Pairwise-filter R p rows h.1)
  ]

  pub Pairwise-append {κ} :
      (R : A → A → Type κ) (rows : List A) (new : A)
      → Pairwise R rows
      → All (λ x. R x new) rows
      → Pairwise R (rows ++ (new ∷ []))
  Pairwise-append R [] new h k = (tt, tt)
  Pairwise-append R (x ∷ rows) new h k =
      (All-append (R x) rows (new ∷ []) h.0 (k.0, tt), Pairwise-append R rows new h.1 k.1)

module _ {ℓ} {A : Type ℓ} (id_of : A → ℕ) where
  -- `db.get(…, id)`
  unfoldable pub row_at : ℕ → List A → Option A
  unfolding find?
  row_at id rows = find? (λ x. id_of x == id) rows

  -- The changed object stands in place of the row with its id.
  unfoldable pub put : A → List A → List A
  put new [] = []
  put new (x ∷ rows) = (if id_of x == id_of new then new else x) ∷ put new rows

  -- `db.delete` of the row with an id
  unfoldable pub drop_at : ℕ → List A → List A
  unfolding filter
  drop_at id rows = filter (λ x. not (id_of x == id)) rows

  abbrev pub Apart : A → A → Type 0
  Apart x y = id_of x ≢ id_of y

  pub row_at-id : (id : ℕ) (rows : List A) (x : A) → row_at id rows ≡ some x → id_of x ≡ id
  unfolding row_at find?
  row_at-id id [] x e = cc
  row_at-id id (y ∷ rows) x e = elim (Bool-cases (id_of y == id)) [
    | inl hit ↦ let same : y ≡ x = ground arith in rw (sym same) (eq_sound (id_of y) id hit)
    | inr miss ↦ row_at-id id rows x (ground arith)
  ]

  pub row_at-put :
      (new : A) (rows : List A) (x : A)
      → row_at (id_of new) rows ≡ some x
      → row_at (id_of new) (put new rows) ≡ some new
  unfolding row_at find? put
  row_at-put new [] x e = cc
  row_at-put new (y ∷ rows) x e = elim (Bool-cases (id_of y == id_of new)) [
    | inl hit ↦ rw (hit, eq_refl (id_of new)) refl
    | inr miss ↦ rw (miss, miss) (row_at-put new rows x (ground arith))
  ]

  pub row_at-drop_at : (id : ℕ) (rows : List A) → row_at id (drop_at id rows) ≡ none
  unfolding row_at drop_at filter find?
  row_at-drop_at id [] = refl
  row_at-drop_at id (x ∷ rows) = elim (Bool-cases (id_of x == id)) [
    | inl hit ↦ rw hit (row_at-drop_at id rows)
    | inr miss ↦ rw (miss, miss) (row_at-drop_at id rows)
  ]

  pub All-put {κ} :
      (P : A → Type κ) (new : A) (rows : List A) → All P rows → P new → All P (put new rows)
  unfolding put
  All-put P new [] h k = tt
  All-put P new (x ∷ rows) h k = elim (Bool-cases (id_of x == id_of new)) [
    | inl hit ↦ rw hit (k, All-put P new rows h.1 k)
    | inr miss ↦ rw miss (h.0, All-put P new rows h.1 k)
  ]

  put-absent : (new : A) (rows : List A) → All (Apart new) rows → put new rows ≡ rows
  unfolding put
  put-absent new [] h = refl
  put-absent new (x ∷ rows) h = elim (Bool-cases (id_of x == id_of new)) [
    | inl hit ↦ absurd (h.0 (sym (eq_sound (id_of x) (id_of new) hit)))
    | inr miss ↦ rw (miss, put-absent new rows h.1) refl
  ]

  -- Writing a changed row back keeps a symmetric relation of all pairs that the changed row has to
  -- every other row.
  pub Pairwise-put {κ} :
      (R : A → A → Type κ) (mirror : (x y : A) → R x y → R y x) (new : A) (rows : List A)
      → Pairwise Apart rows
      → Pairwise R rows
      → All (λ x. (id_of x ≡ id_of new) ⊎ R new x) rows
      → Pairwise R (put new rows)
  unfolding put
  Pairwise-put R mirror new [] apart h k = tt
  Pairwise-put R mirror new (x ∷ rows) apart h k = elim (Bool-cases (id_of x == id_of new)) [
    | inl hit ↦
        let same = eq_sound (id_of x) (id_of new) hit in
        let others : All (Apart new) rows = All-map rows (λ y away e. away (same ∙ e)) apart.0 in
        rw (hit, put-absent new rows others)
          (
            All-map rows (λ y both. elim both.0 [ inl e ↦ absurd (both.1 (sym e)) | inr r ↦ r ])
                (All-both _ _ rows k.1 others),
            h.1,
          )
    | inr miss ↦
        let off : R new x = elim k.0 [ inl e ↦ absurd (ground arith) | inr r ↦ r ] in
        rw miss (
          All-put (R x) new rows h.0 (mirror new x off),
          Pairwise-put R mirror new rows apart.1 h.1 k.1,
        )
  ]

  pub Apart-put : (new : A) (rows : List A) → Pairwise Apart rows → Pairwise Apart (put new rows)
  Apart-put new rows apart =
      Pairwise-put Apart (λ x y h e. h (sym e)) new rows apart apart (either rows)
    where
      either : (xs : List A) → All (λ x. (id_of x ≡ id_of new) ⊎ Apart new x) xs
      either [] = tt
      either (x ∷ xs) = (
        elim (Bool-cases (id_of x == id_of new)) [
          | inl hit ↦ inl (eq_sound (id_of x) (id_of new) hit)
          | inr miss ↦ inr (λ e. ground arith)
        ],
        either xs,
      )

  -- A row that gets the next id is apart from the rows below that id.
  pub Apart-append :
      (new : A) (rows : List A)
      → Pairwise Apart rows
      → All (λ x. id_of x < id_of new) rows
      → Pairwise Apart (rows ++ (new ∷ []))
  Apart-append new rows apart below =
      Pairwise-append Apart rows new apart (All-map rows (λ x less e. omega arith) below)
