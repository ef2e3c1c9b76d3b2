-- ===== src/Hosts/Laws.antt =====
-- How the two gates on hosts of crawler/crawler/util/hosts.py go together.
use mathlib.Core.Path.{subst}
use ubd_probe.Prelude.{
  ◌≡◌, refl, ◌⊎◌, inl, inr, Bool, true, false, ◌||◌, ◌&&◌, not, List, any, null, leb, length,
  contains, list_beq, list_beq_iff, nat_eq, list_eq, if◌then◌else◌, arith,
}
use ubd_probe.Prelude.Text.{Text, codes, lower, first_part, last_part}
use ubd_probe.Hosts.{
  labels, has_no_tld, is_ua_host, is_ru_by_city, is_ru_city, is_ru_by_tld, is_foreign_tld,
  is_foreign, is_ru_by, by_city_codes, ru_city_subdomains,
}

one_of_four :
    (a b c d t : Text)
    → ((list_beq a t || (list_beq b t || false)) || (list_beq c t || (list_beq d t || false)))
      ≡ true
    → (a ≡ t) ⊎ (b ≡ t) ⊎ (c ≡ t) ⊎ (d ≡ t)
one_of_four a b c d t h =
    ground (arith, list_beq_iff a t, list_beq_iff b t, list_beq_iff c t, list_beq_iff d t)

ru_by_tld-foreign_tld : (tld : Text) → is_ru_by_tld tld ≡ true → is_foreign_tld tld ≡ true
unfolding is_ru_by_tld is_foreign_tld contains
ru_by_tld-foreign_tld tld h =
    elim (one_of_four (codes "ru") (codes "by") (codes "xn--p1ai") (codes "xn--90ais") tld h) [
      | inl e ↦ subst (λ t. is_foreign_tld t ≡ true) e refl
      | inr (inl e) ↦ subst (λ t. is_foreign_tld t ≡ true) e refl
      | inr (inr (inl e)) ↦ subst (λ t. is_foreign_tld t ≡ true) e refl
      | inr (inr (inr e)) ↦ subst (λ t. is_foreign_tld t ≡ true) e refl
    ]

-- The two cascades of tests, over the results of the tests.
cascades :
    (none_given ua by_tld long ru by path foreign : Bool)
    → (by_tld ≡ true → foreign ≡ true)
    → (if none_given
        then false
        else if ua
        then false
        else if by_tld
        then true
        else if long && (ru || by)
        then true
        else path)
      ≡ true
    → ((if none_given then false else if ua then false else if long && ru then true else foreign)
        ≡ true)
      ⊎ (by ≡ true)
      ⊎ (path ≡ true)
cascades none_given ua by_tld long ru by path foreign tld h = ground arith

-- A host that the gate on Russian and Belarusian hosts stops is foreign to the gate on foreign hosts
-- as well, unless it is stopped for a Belarusian city before its name or for a city in its path.
pub is_ru_by-is_foreign :
    (host : Text) (segments : List Text)
    → is_ru_by host segments ≡ true
    → (is_foreign host ≡ true)
      ⊎ (contains by_city_codes (first_part (labels host)) ≡ true)
      ⊎ (any (λ seg. not (null seg) && is_ru_by_city (lower seg)) segments ≡ true)
unfolding is_ru_by is_foreign is_ru_by_city is_ru_city
is_ru_by-is_foreign host segments h =
    cascades (has_no_tld host) (is_ua_host host) (is_ru_by_tld (last_part (labels host)))
      (leb 3 (length (labels host))) (contains ru_city_subdomains (first_part (labels host)))
      (contains by_city_codes (first_part (labels host)))
      (any (λ seg. not (null seg) && is_ru_by_city (lower seg)) segments)
      (is_foreign_tld (last_part (labels host))) (ru_by_tld-foreign_tld (last_part (labels host))) h
