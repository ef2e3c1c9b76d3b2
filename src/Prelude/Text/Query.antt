-- ===== src/Prelude/Text/Query.antt =====
-- `urllib.parse.parse_qsl` (with its defaults) and `urlencode`: percent coding over UTF-8.
use Prim.Native.Nat.{ℕ, ◌+◌, ◌-◌, ◌*◌, ◌/◌, ◌%◌}
use mathlib.Core.Path.{◌≡◌, refl}
use mathlib.Core.Bool.{Bool, ◌&&◌, ◌||◌}
use mathlib.Core.Option.{Option, none, some}
use mathlib.Core.List.{List, [], ◌∷◌, ◌++◌, map}
use ubd_probe.Prelude.Tests.{ltb, leb, if◌then◌else◌}
use ubd_probe.Prelude.Classes.{◌==◌, nat_eq}
use ubd_probe.Prelude.Text.{Text, codes, span_until, split_by, join}

-- `str.encode("utf-8")` of one character.
utf8_char : ℕ → List ℕ
utf8_char c =
    if ltb c 0x80
    then c ∷ []
    else if ltb c 0x800
    then (0xc0 + c / 64) ∷ (0x80 + c % 64) ∷ []
    else if ltb c 0x10000
    then (0xe0 + c / 4096) ∷ (0x80 + c / 64 % 64) ∷ (0x80 + c % 64) ∷ []
    else (0xf0 + c / 262144) ∷ (0x80 + c / 4096 % 64) ∷ (0x80 + c / 64 % 64) ∷ (0x80 + c % 64) ∷ []

-- A decoder in the middle of a character: bytes still wanted, bits so far, range of the next byte.
pub record Pending : Type 0 where
  pub wanted : ℕ
  pub bits : ℕ
  pub low : ℕ
  pub high : ℕ

abbrev idle : Pending
idle = record { wanted = 0; bits = 0; low = 0x80; high = 0xbf }

abbrev expect : ℕ → ℕ → ℕ → ℕ → Pending
expect wanted bits low high = record { wanted = wanted; bits = bits; low = low; high = high }

-- A lead byte: what it emits, and what the decoder then waits for.
lead_byte : ℕ → Text × Pending
lead_byte b =
    if ltb b 0x80
    then (b ∷ [], idle)
    else if leb 0xc2 b && leb b 0xdf
    then ([], expect 1 (b - 0xc0) 0x80 0xbf)
    else if b == 0xe0
    then ([], expect 2 0 0xa0 0xbf)
    else if b == 0xed
    then ([], expect 2 13 0x80 0x9f)
    else if leb 0xe1 b && leb b 0xef
    then ([], expect 2 (b - 0xe0) 0x80 0xbf)
    else if b == 0xf0
    then ([], expect 3 0 0x90 0xbf)
    else if b == 0xf4
    then ([], expect 3 4 0x80 0x8f)
    else if leb 0xf1 b && leb b 0xf3
    then ([], expect 3 (b - 0xf0) 0x80 0xbf)
    else (0xfffd ∷ [], idle)

-- One byte; an invalid continuation emits the replacement mark and is read as a lead byte.
next_byte : Pending → ℕ → Text × Pending
unfolding lead_byte
next_byte p b =
    if p.wanted == 0
    then lead_byte b
    else if leb p.low b && leb b p.high
    then (let bits = p.bits * 64 + (b - 0x80) in
        if p.wanted == 1 then (bits ∷ [], idle) else ([], expect (p.wanted - 1) bits 0x80 0xbf))
    else (0xfffd ∷ (lead_byte b).0, (lead_byte b).1)

-- `bytes.decode("utf-8", "replace")`
unfoldable pub utf8_decode : Pending → List ℕ → Text
unfolding next_byte
utf8_decode p [] = if p.wanted == 0 then [] else 0xfffd ∷ []
utf8_decode p (b ∷ bytes) =
    let step = next_byte p b in let rest = utf8_decode step.1 bytes in step.0 ++ rest

hex_value : ℕ → Option ℕ
hex_value c =
    if leb b'0' c && leb c b'9'
    then some (c - b'0')
    else if leb b'a' c && leb c b'f'
    then some (c - b'a' + 10)
    else if leb b'A' c && leb c b'F'
    then some (c - b'A' + 10)
    else none

hex_pair : ℕ → ℕ → Option ℕ
unfolding hex_value
hex_pair h l = elim (hex_value h) [
  | none ↦ none
  | some a ↦ elim (hex_value l) [ none ↦ none | some b ↦ some (a * 16 + b) ]
]

-- `unquote_to_bytes` on ASCII characters.
to_bytes : Text → List ℕ
unfolding hex_pair
to_bytes (c ∷ h ∷ l ∷ s) =
    let decoded = to_bytes s in
    let plain = to_bytes (h ∷ l ∷ s) in
    if c == b'%' then elim (hex_pair h l) [ some b ↦ b ∷ decoded | none ↦ c ∷ plain ] else c ∷ plain
to_bytes (c ∷ h ∷ []) = c ∷ h ∷ []
to_bytes (c ∷ []) = c ∷ []
to_bytes [] = []

-- The runs of ASCII characters are decoded, the other characters stand between them.
unquote_runs : Text → Text → Text
unfolding to_bytes utf8_decode
unquote_runs run [] = utf8_decode idle (to_bytes run)
unquote_runs run (c ∷ s) =
    let more = unquote_runs (run ++ (c ∷ [])) s in
    let rest = unquote_runs [] s in
    if ltb c 0x80 then more else utf8_decode idle (to_bytes run) ++ (c ∷ rest)

plus_to_space : ℕ → ℕ
plus_to_space c = if c == b'+' then b' ' else c

unfoldable pub unquote_plus : Text → Text
unfolding unquote_runs plus_to_space
unquote_plus s = unquote_runs [] (map plus_to_space s)

add_pair : Text → List (Text × Text) → List (Text × Text)
unfolding span_until unquote_plus
add_pair field rest =
    let (name, value) = span_until (λ c. c == b'=') field in
    elim value [
      | [] ↦ rest
      | eq_sign ∷ text ↦ elim text [
        | [] ↦ rest
        | c ∷ s ↦ (unquote_plus name, unquote_plus (c ∷ s)) ∷ rest
      ]
    ]

add_pairs : List Text → List (Text × Text)
unfolding add_pair
add_pairs [] = []
add_pairs (field ∷ fields) = add_pair field (add_pairs fields)

-- Fields with no `=` and fields with an empty value are dropped.
unfoldable pub parse_qsl : Text → List (Text × Text)
unfolding add_pairs split_by
parse_qsl query = add_pairs (split_by (λ c. c == b'&') query)

is_unreserved : ℕ → Bool
is_unreserved c =
    (leb b'a' c && leb c b'z')
    || (leb b'A' c && leb c b'Z')
    || (leb b'0' c && leb c b'9')
    || c == b'_'
    || c == b'.'
    || c == b'-'
    || c == b'~'

hex_digit : ℕ → ℕ
hex_digit n = if ltb n 10 then b'0' + n else b'A' + (n - 10)

quote_byte : ℕ → Text
unfolding is_unreserved hex_digit
quote_byte b =
    if is_unreserved b
    then b ∷ []
    else if b == b' '
    then b'+' ∷ []
    else b'%' ∷ hex_digit (b / 16) ∷ hex_digit (b % 16) ∷ []

concat_map : (ℕ → Text) → Text → Text
concat_map f [] = []
concat_map f (c ∷ s) = f c ++ concat_map f s

-- `quote_plus`
unfoldable pub quote_plus : Text → Text
unfolding concat_map quote_byte utf8_char
quote_plus s = concat_map quote_byte (concat_map utf8_char s)

pair_text : Text × Text → Text
unfolding quote_plus
pair_text (k, v) = quote_plus k ++ (b'=' ∷ quote_plus v)

unfoldable pub urlencode : List (Text × Text) → Text
unfolding pair_text join
urlencode pairs = join (codes "&") (map pair_text pairs)

encode_decoded :
    urlencode (parse_qsl (codes "a=%D1%8F+b&x&y=&c=%zz~")) ≡ codes "a=%D1%8F+b&c=%25zz~"
unfolding urlencode parse_qsl
encode_decoded = refl
