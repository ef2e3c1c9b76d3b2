-- ===== src/Hosts/Tests.antt =====
-- The gates on hosts at concrete hosts.
use ubd_probe.Prelude.{
  ◌≡◌, refl, ◌⊎◌, true, false, ◌&&◌, not, [], ◌∷◌, any, null, contains, nat_eq, list_eq,
}
use ubd_probe.Prelude.Text.{codes, lower, first_part}
use ubd_probe.Hosts.{
  labels, bare_host, by_city_codes, is_ru_by_city, is_foreign, is_foreign_host, is_ru_by,
  is_ru_by_geo,
}
use ubd_probe.Hosts.Laws.{is_ru_by-is_foreign}

hosts :
    (bare_host (codes "https://User@www.Shop.UA:8080/x?y") ≡ codes "shop.ua")
    × (bare_host (codes " shop.ua/a ") ≡ codes "shop.ua")
    × (is_foreign_host (codes "spb.boombate.com") ≡ true)
    × (is_foreign_host (codes "minsk.boombate.com") ≡ false)
    × (is_ru_by_geo (codes "x.cafe/SPB") ≡ true)
    × (is_ru_by_geo (codes "https://x.ua/spb") ≡ false)
unfolding bare_host is_foreign_host is_ru_by_geo
hosts = (refl, refl, refl, refl, refl, refl)

stopped : is_ru_by (codes "minsk.boombate.com") (codes "shop" ∷ []) ≡ true
unfolding is_ru_by
stopped = refl

is_ru_by-is_foreign_example :
    (is_foreign (codes "minsk.boombate.com") ≡ true)
    ⊎ (contains by_city_codes (first_part (labels (codes "minsk.boombate.com"))) ≡ true)
    ⊎ (any (λ seg. not (null seg) && is_ru_by_city (lower seg)) (codes "shop" ∷ []) ≡ true)
is_ru_by-is_foreign_example =
    is_ru_by-is_foreign (codes "minsk.boombate.com") (codes "shop" ∷ []) stopped
