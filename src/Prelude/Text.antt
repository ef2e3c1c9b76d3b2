-- ===== src/Prelude/Text.antt =====
-- Python texts as lists of code points, with the operations that the program calls.
pub mod Url
pub mod Query
use Prim.Native.Nat.{ℕ, zero, suc, ◌+◌, ◌-◌, ◌*◌, ◌/◌, ◌%◌, ◌<◌}
use Prim.Native.String.{String}
use Prim.Native.Char.{code}
use mathlib.Core.Path.{◌≡◌, refl}
use mathlib.Core.Bool.{Bool, true, false, not, ◌&&◌, ◌||◌}
use mathlib.Core.Option.{Option, none, some}
use mathlib.Core.List.{List, [], ◌∷◌, ◌++◌, map, reverse}
use native.Mathlib.Omega.{arith}
use ubd_probe.Prelude.Tests.{ltb, leb, if◌then◌else◌, is_some}
use ubd_probe.Prelude.Classes.{Eq, ◌==◌, nat_eq, list_eq, list_beq}
use ubd_probe.Prelude.Lists.{null, any}

abbrev pub Text : Type 0
Text = List ℕ

-- The text of a literal.
abbrev pub codes : String → Text
codes String.[] = []
codes (String.◌∷◌ c s) = code c ∷ codes s

-- `str.lower` on the Latin and Cyrillic letters; other characters are left alone.
unfoldable pub lower_char : ℕ → ℕ
lower_char c =
    if leb 0x41 c && leb c 0x5a
    then c + 32
    else if leb 0x410 c && leb c 0x42f
    then c + 32
    else if leb 0x400 c && leb c 0x40f
    then c + 80
    else if c == 0x490
    then 0x491
    else c

unfoldable pub lower : Text → Text
unfolding lower_char
lower [] = []
lower (c ∷ s) = lower_char c ∷ lower s

-- `str.isspace` on the ASCII range and the no-break space.
unfoldable pub is_space : ℕ → Bool
is_space c = (leb 9 c && leb c 13) || (leb 28 c && leb c 32) || c == 0x85 || c == 0xa0

unfoldable pub drop_while : (ℕ → Bool) → Text → Text
drop_while p [] = []
drop_while p (c ∷ s) = let rest = drop_while p s in if p c then rest else c ∷ s

unfoldable pub rstrip_by : (ℕ → Bool) → Text → Text
unfolding drop_while
rstrip_by p s = reverse (drop_while p (reverse s))

-- `s.strip()`
unfoldable pub strip : Text → Text
unfolding is_space drop_while rstrip_by
strip s = rstrip_by is_space (drop_while is_space s)

-- What is left of `s` behind the prefix `p`.
unfoldable pub strip_prefix : Text → Text → Option Text
strip_prefix [] s = some s
strip_prefix (p ∷ ps) [] = none
strip_prefix (p ∷ ps) (c ∷ s) = let rest = strip_prefix ps s in if p == c then rest else none

-- `s.startswith(p)`
unfoldable pub starts_with : Text → Text → Bool
unfolding strip_prefix
starts_with p s = is_some (strip_prefix p s)

-- `s.removeprefix(p)`
unfoldable pub removeprefix : Text → Text → Text
unfolding strip_prefix
removeprefix p s = elim (strip_prefix p s) [ none ↦ s | some rest ↦ rest ]

-- `s.endswith(p)`
unfoldable pub ends_with : Text → Text → Bool
unfolding list_beq
ends_with p [] = null p
ends_with p (c ∷ s) = (c ∷ s) == p || ends_with p s

-- `p in s`
unfoldable pub has_substring : Text → Text → Bool
unfolding starts_with
has_substring p [] = null p
has_substring p (c ∷ s) = starts_with p (c ∷ s) || has_substring p s

-- The part before the first character that passes the test, and the part from it on.
unfoldable pub span_until : (ℕ → Bool) → Text → Text × Text
span_until p [] = ([], [])
span_until p (c ∷ s) =
    let rest = span_until p s in if p c then ([], c ∷ s) else (c ∷ rest.0, rest.1)

abbrev pub push_char : ℕ → List Text → List Text
push_char c [] = (c ∷ []) ∷ []
push_char c (w ∷ ws) = (c ∷ w) ∷ ws

-- `s.split(sep)` for a separator of one character that passes the test; never empty.
unfoldable pub split_by : (ℕ → Bool) → Text → List Text
split_by p [] = [] ∷ []
split_by p (c ∷ s) = if p c then [] ∷ split_by p s else push_char c (split_by p s)

-- The first and the last part of a split.
abbrev pub first_part : List Text → Text
first_part [] = []
first_part (w ∷ ws) = w

abbrev pub last_part : List Text → Text
last_part [] = []
last_part (w ∷ []) = w
last_part (w ∷ v ∷ ws) = last_part (v ∷ ws)

unfoldable pub join : Text → List Text → Text
join sep [] = []
join sep (w ∷ []) = w
join sep (w ∷ v ∷ ws) = w ++ (sep ++ join sep (v ∷ ws))

-- `str(n)`: one digit for each unit of fuel, the last first; `suc n` rounds are enough.
unfoldable pub decimal_fuel : ℕ → ℕ → Text → Text
decimal_fuel zero n out = out
decimal_fuel (suc fuel) n out =
    let digits = (48 + n % 10) ∷ out in
    let rest = decimal_fuel fuel (n / 10) digits in if ltb n 10 then digits else rest

unfoldable pub decimal : ℕ → Text
unfolding decimal_fuel
decimal n = decimal_fuel (suc n) n []
