-- ===== src/Prelude/Text/Url.antt =====
-- The parts of Python's `urllib.parse.urlsplit` that the program reads. Bracketed IPv6 hosts and
-- the NFKC check of the network location are left out.
use ubd_probe.Prelude.Text.{
  Text, codes, lower, drop_while, strip_prefix, span_until, split_by, first_part, last_part,
}
use Prim.Native.Nat.{ℕ}
use mathlib.Core.Bool.{Bool, false, not, ◌&&◌, ◌||◌}
use mathlib.Core.Option.{none, some}
use mathlib.Core.List.{[], ◌∷◌}
use ubd_probe.Prelude.Tests.{leb, if◌then◌else◌}
use ubd_probe.Prelude.Classes.{◌==◌, nat_eq}
use ubd_probe.Prelude.Lists.{all, filter}

pub record Url : Type 0 where
  pub scheme : Text
  pub netloc : Text
  pub path : Text
  pub query : Text

is_letter : ℕ → Bool
is_letter c = (leb 65 c && leb c 90) || (leb 97 c && leb c 122)

is_scheme_char : ℕ → Bool
unfolding is_letter
is_scheme_char c = is_letter c || (leb 48 c && leb c 57) || c == b'+' || c == b'-' || c == b'.'

is_scheme : Text → Bool
unfolding is_letter is_scheme_char all
is_scheme [] = false
is_scheme (c ∷ s) = is_letter c && all is_scheme_char (c ∷ s)

-- The scheme in lower case and what follows its colon.
split_scheme : Text → Text × Text
unfolding is_scheme lower span_until
split_scheme s =
    let (before, found) = span_until (λ c. c == b':') s in
    elim found [
      | [] ↦ ([], s)
      | colon ∷ rest ↦ if is_scheme before then (lower before, rest) else ([], s)
    ]

-- The network location behind `//` up to one of `/?#`, and the rest.
split_netloc : Text → Text × Text
unfolding strip_prefix span_until
split_netloc s = elim (strip_prefix (codes "//") s) [
  | none ↦ ([], s)
  | some rest ↦ span_until (λ c. c == b'/' || c == b'?' || c == b'#') rest
]

abbrev tail_text : Text → Text
tail_text [] = []
tail_text (c ∷ s) = s

-- The fragment is cut off first, then the query.
unfoldable pub urlsplit : Text → Url
unfolding split_scheme split_netloc span_until drop_while filter
urlsplit raw =
    let clean = filter (λ c. not (c == 9 || c == 10 || c == 13)) (drop_while (λ c. leb c 32) raw) in
    let (scheme, s) = split_scheme clean in
    let (netloc, s') = split_netloc s in
    let unfragmented = (span_until (λ c. c == b'#') s').0 in
    let (path, question) = span_until (λ c. c == b'?') unfragmented in
    record { scheme = scheme; netloc = netloc; path = path; query = tail_text question }

-- `p.hostname or ""`: the location without userinfo and port, in lower case.
unfoldable pub hostname : Url → Text
unfolding lower split_by
hostname u =
    lower (first_part (split_by (λ c. c == b':') (last_part (split_by (λ c. c == b'@') u.netloc))))
