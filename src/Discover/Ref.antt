-- ===== src/Discover/Ref.antt =====
-- `normalize_ref` of crawler/crawler/discovery/passive.py: the key of a reference.
use ubd_probe.Prelude.{
  Bool, true, ◌&&◌, ◌||◌, Option, none, some, List, [], ◌∷◌, ◌++◌, map, ◌==◌, nat_eq, list_eq, null,
  if◌then◌else◌,
}
use ubd_probe.Prelude.Text.{
  Text, codes, lower, strip, rstrip_by, drop_while, strip_prefix, span_until,
}
use ubd_probe.Search.Classify.{SourceType, website}
use ubd_probe.Discover.Types.{type_eq}
use ubd_probe.Backend.Urlnorm.{drop_first_prefix, is_slash}

-- `(?=/|$)`: the text ends here, or a slash follows; the end may have a line break behind it.
abbrev at_end_or_slash : Text → Bool
at_end_or_slash [] = true
at_end_or_slash (c ∷ rest) = is_slash c || (c == b'\n' && null rest)

-- The text behind one of the segments, when it ends there.
unfoldable pub after_segment : List Text → Text → Option Text
unfolding strip_prefix is_slash
after_segment [] s = none
after_segment (p ∷ ps) s =
    let rest = after_segment ps s in
    elim (strip_prefix p s) [
      | none ↦ rest
      | some tail ↦ if at_end_or_slash tail then some tail else rest
    ]

abbrev language_segments : List Text
language_segments = map codes ("/en" ∷ "/ru" ∷ "/uk" ∷ "/ua" ∷ [])

-- `_LANG_SEG.sub(r"\1", s)`
unfoldable pub drop_language : Text → Text
unfolding span_until is_slash after_segment
drop_language s =
    let split = span_until is_slash s in
    if null split.0
    then s
    else elim (after_segment language_segments split.1) [ none ↦ s | some tail ↦ split.0 ++ tail ]

unfoldable pub normalize_ref : SourceType → Text → Text
unfolding strip lower drop_first_prefix drop_while rstrip_by is_slash drop_language
normalize_ref type url_or_handle =
    let unschemed =
      drop_first_prefix (codes "http://" ∷ codes "https://" ∷ []) (lower (strip url_or_handle)) in
    let handle =
      drop_first_prefix
        (map codes (
          "www.t.me/" ∷ "www.instagram.com/" ∷ "www.facebook.com/" ∷ "t.me/" ∷ "instagram.com/"
          ∷ "facebook.com/" ∷ []))
        unschemed in
    let s = rstrip_by is_slash (drop_while (λ c. c == b'@') handle) in
    if type == website
    then rstrip_by is_slash (drop_language (drop_first_prefix (codes "www." ∷ codes "m." ∷ []) s))
    else s
