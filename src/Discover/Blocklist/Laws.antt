-- ===== src/Discover/Blocklist/Laws.antt =====
-- The block lists: a pinned host is blocked, and no pin unblocks another host.
use ubd_probe.Prelude.{
  ◌≡◌, inl, inr, refl, sym, Bool, true, false, ◌||◌, List, ◌∷◌, filter, any, contains, null, nat_eq,
  list_eq, Bool-cases, arith,
}
use ubd_probe.Prelude.Text.{Text, strip}
use ubd_probe.Hosts.{bare_host}
use ubd_probe.Hosts.Quality.{is_within}
use ubd_probe.Discover.Blocklist.{
  Blocks, normalized, reload_geo_blocked, is_seeded, is_under, is_blocked, pin, add_geo,
}

-- The set in the block list is the one that the store has handed on.
abbrev pub IsSynced : List Text → Blocks → Type 0
IsSynced hosts b = b.geo_blocked ≡ normalized hosts

-- What is blocked before is blocked after.
abbrev pub Grows : Blocks → Blocks → Type 0
Grows b c = (host : Text) → is_blocked b host ≡ true → is_blocked c host ≡ true

pub add_geo-IsSynced :
    (value : Text) (hosts : List Text) (b : Blocks)
    → IsSynced hosts b
    → IsSynced (add_geo value hosts b).0 (add_geo value hosts b).1
unfolding add_geo reload_geo_blocked
add_geo-IsSynced value hosts b h = elim (Bool-cases (pin value hosts).0) [
  | inl new ↦ rw (add_geo, new) refl
  | inr old ↦ rw (add_geo, old) h
]

pub or_right : (a b : Bool) → b ≡ true → (a || b) ≡ true
or_right true b h = refl
or_right false b h = h

or_mono :
    (a g l n g' : Bool)
    → (g ≡ true → g' ≡ true)
    → (a || g || l || n) ≡ true
    → (a || g' || l || n) ≡ true
or_mono true g l n g' f h = refl
or_mono false true l n g' f h = rw (f refl) refl
or_mono false false l n true f h = refl
or_mono false false l n false f h = h

-- One more host in the store only adds to the normalised set.
normalized-under :
    (h host : Text) (hosts : List Text)
    → is_under (normalized hosts) host ≡ true
    → is_under (normalized (h ∷ hosts)) host ≡ true
unfolding normalized filter is_under any
normalized-under h host hosts under = elim (Bool-cases (null (strip h))) [
  | inl blank ↦ rw (normalized, blank) under
  | inr text ↦ elim (Bool-cases (null (bare_host h))) [
    | inl bare ↦ rw (normalized, text, bare) under
    | inr some_host ↦
        rw (normalized, text, some_host) (or_right (is_within host (bare_host h)) _ under)
  ]
]

geo-Grows :
    (b : Blocks) (geo : List Text)
    → ((host : Text) → is_under b.geo_blocked host ≡ true → is_under geo host ≡ true)
    → Grows b (record b { geo_blocked = geo })
unfolding is_blocked
geo-Grows b geo more host h = elim (Bool-cases (null host)) [
  | inl nothing ↦ absurd (ground arith)
  | inr text ↦
      let before : (is_seeded host
            || is_under b.geo_blocked host
            || is_under b.lang_blocked host
            || is_under b.learned host)
          ≡ true =
        ground arith in
      rw (is_blocked, text)
        (or_mono (is_seeded host) (is_under b.geo_blocked host) (is_under b.lang_blocked host)
          (is_under b.learned host) (is_under geo host) (more host) before)
]

-- Pinning a host or a URL in the geo store unblocks no host.
pub add_geo-Grows :
    (value : Text) (hosts : List Text) (b : Blocks)
    → IsSynced hosts b
    → Grows b (add_geo value hosts b).1
unfolding add_geo reload_geo_blocked pin
add_geo-Grows value hosts b synced =
    elim (Bool-cases (null (bare_host value) || contains hosts (bare_host value))) [
      | inl old ↦ rw (add_geo, pin, old) (λ host h. h)
      | inr new ↦
          rw (add_geo, pin, new)
            (geo-Grows b (normalized (bare_host value ∷ hosts))
              (λ host under. normalized-under (bare_host value) host hosts (rw (sym synced) under)))
    ]
