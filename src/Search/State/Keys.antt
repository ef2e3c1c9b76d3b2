-- ===== src/Search/State/Keys.antt =====
-- `SearchState._key`: the pages of one keyword have different keys.
use ubd_probe.Prelude.{
  ℕ, zero, suc, ◌+◌, ◌-◌, ◌*◌, ◌/◌, ◌%◌, ◌≤◌, ◌<◌, ◌≡◌, sym, ap, ◌∙◌, ◌⊎◌, inl, inr, true, false,
  [], ◌∷◌, ◌++◌, ltb, leb, arith, Bool-cases, leb→le, length, length-append,
}
use ubd_probe.Prelude.Text.{Text, codes, lower, strip, decimal_fuel, decimal}
use ubd_probe.Search.State.{key}

-- The number that a text of digits stands for, from `acc` on.
pub read : ℕ → Text → ℕ
read acc [] = acc
read acc (c ∷ s) = read (acc * 10 + (c - 48)) s

read-decimal_fuel :
    (fuel n : ℕ) (out : Text) → n < fuel → read 0 (decimal_fuel fuel n out) ≡ read n out
unfolding read decimal_fuel
read-decimal_fuel zero n out h = absurd (omega arith)
read-decimal_fuel (suc fuel) n out h = elim (Bool-cases (ltb n 10)) [
  | inl small ↦ rw small (ap (λ m. read m out) (ground arith))
  | inr large ↦ rw large (
      read-decimal_fuel fuel (n / 10) ((48 + n % 10) ∷ out) (ground arith)
      ∙ ap (λ m. read m out) (omega arith))
]

-- A printed number reads back as itself.
pub read-decimal : (n : ℕ) → read 0 (decimal n) ≡ n
unfolding decimal read
read-decimal n = read-decimal_fuel (suc n) n [] (omega arith)

append_cancel : (base s t : Text) → base ++ s ≡ base ++ t → s ≡ t
append_cancel [] s t h = h
append_cancel (c ∷ base) s t h = append_cancel base s t (cc)

append-length_absurd : (base s : Text) (c : ℕ) → base ≡ base ++ (c ∷ s) → ⊥
append-length_absurd base s c h =
    let e : length base ≡ length (base ++ (c ∷ s)) = ap length h in
    absurd (omega (arith, length-append base (c ∷ s)))

-- Two pages of a keyword share a key only if both are the first page, or they are one page.
pub key_injective :
    (keyword : Text) (p q : ℕ) → key keyword p ≡ key keyword q → ((p ≤ 1) × (q ≤ 1)) ⊎ (p ≡ q)
unfolding key
key_injective keyword p q h = split (Bool-cases (leb p 1)) (Bool-cases (leb q 1))
  where
    base : Text
    base = lower (strip keyword)

    split :
        (leb p 1 ≡ true) ⊎ (leb p 1 ≡ false)
        → (leb q 1 ≡ true) ⊎ (leb q 1 ≡ false)
        → ((p ≤ 1) × (q ≤ 1)) ⊎ (p ≡ q)
    split (inl a) (inl b) = inl (leb→le p 1 a, leb→le q 1 b)
    split (inl a) (inr b) =
        absurd (append-length_absurd base (b'p' ∷ decimal q) b'#' (ground arith))
    split (inr a) (inl b) =
        absurd (append-length_absurd base (b'p' ∷ decimal p) b'#' (ground arith))
    split (inr a) (inr b) =
        let tails : codes "#p" ++ decimal p ≡ codes "#p" ++ decimal q =
          append_cancel base (codes "#p" ++ decimal p) (codes "#p" ++ decimal q) (ground arith) in
        inr (
          sym (read-decimal p)
          ∙ ap (read 0) (append_cancel (codes "#p") (decimal p) (decimal q) tails)
          ∙ read-decimal q)
