-- ===== src/Discover/Select/Fit.antt =====
-- What is true of every candidate that a pass selects, however the pins of the pass change the stores.
use mathlib.Core.Path.{subst}
use ubd_probe.Prelude.{
  ℕ, ◌≡◌, ◌⊎◌, inl, inr, refl, Bool, true, false, ◌&&◌, ◌||◌, not, Option, none, some, List, [],
  ◌∷◌, contains, null, nat_eq, list_eq, All, Bool-cases, Option-cases, arith,
}
use ubd_probe.Prelude.Table.{All-append}
use ubd_probe.Prelude.Text.{Text}
use ubd_probe.Hosts.{bare_host, is_foreign_host, is_ru_by_geo}
use ubd_probe.Hosts.Quality.{is_low_value_host, is_news_host}
use ubd_probe.Discover.Types.{SourceCandidate}
use ubd_probe.Discover.Ref.{normalize_ref}
use ubd_probe.Discover.Blocklist.{Blocks, is_blocked_host}
use ubd_probe.Discover.Blocklist.Laws.{IsSynced, Grows, add_geo-IsSynced, add_geo-Grows}
use ubd_probe.Discover.Select.{
  Gates, Stores, Scan, is_website, is_fetchable, is_barred, pin_geo, skip_of, is_revisit, is_wanted,
  select, consider, scan_all, start_scan, select_fetch_set,
}
use ubd_probe.Discover.Select.Laws.{Passed, Touched, consider_cases, scan_all-Keeps}

-- A site that no gate on its address closes.
pub record IsClean (blocks : Blocks) (c : SourceCandidate) : Type 0 where
  pub not_geo : is_ru_by_geo c.url_or_handle ≡ false
  pub not_foreign : is_foreign_host c.url_or_handle ≡ false
  pub not_low_value : is_low_value_host c.url_or_handle ≡ false
  pub not_news : is_news_host c.url_or_handle ≡ false
  pub not_blocked : is_blocked_host blocks c.url_or_handle ≡ false

pub record IsFit (g : Gates) (blocks : Blocks) (c : SourceCandidate) : Type 0 where
  pub fetchable : is_fetchable c ≡ true
  pub fetched : g.fetchers c.type ≡ true
  pub fresh : contains g.known (normalize_ref c.type c.url_or_handle) ≡ false
  pub clean : (is_website c ≡ false) ⊎ IsClean blocks c

abbrev pub StoreSynced : Option (List Text) → Blocks → Type 0
StoreSynced none blocks = Unit
StoreSynced (some hosts) blocks = IsSynced hosts blocks

-- The geo store, when there is one, has handed its set on to the block list.
abbrev pub AreSynced : Stores → Type 0
AreSynced stores = StoreSynced stores.geo_hosts stores.blocks

four :
    (a b c d : Bool)
    → (a || b || c || d) ≡ false
    → (a ≡ false) × (b ≡ false) × (c ≡ false) × (d ≡ false)
four a b c d h = ground arith

and_false : (a b : Bool) → a ≡ true → (a && b) ≡ false → b ≡ false
and_false a b h e = ground arith

wanted_parts :
    (a b c d : Bool)
    → (not a && not b && not c && d) ≡ true
    → (a ≡ false) × (b ≡ false) × (c ≡ false) × (d ≡ true)
wanted_parts a b c d h = ground arith

not_before :
    (b c : Blocks) (url : Text)
    → Grows b c
    → is_blocked_host c url ≡ false
    → is_blocked_host b url ≡ false
unfolding is_blocked_host
not_before b c url grows off = elim (Bool-cases (is_blocked_host b url)) [
  | inl on ↦ absurd (ground (arith, grows (bare_host url) on))
  | inr same ↦ same
]

Passed-IsFit :
    (g : Gates) (now : ℕ) (c : SourceCandidate) (scan : Scan) (before : Blocks)
    → Grows before scan.stores.blocks
    → Passed g now c scan
    → IsFit g before c
unfolding is_barred is_wanted
Passed-IsFit g now c scan before grows p =
    let wanted : (not
            (is_revisit now g.revisit_cooldown scan.selected_hosts c (skip_of c scan.stores).1)
          && not (contains g.known (normalize_ref c.type c.url_or_handle))
          && not (
              is_website c
              && not c.bypass_host_skip
              && not (null (bare_host c.url_or_handle))
              && contains g.known_hosts (bare_host c.url_or_handle))
          && g.fetchers c.type)
        ≡ true =
      p.wanted in
    let parts = wanted_parts _ _ _ _ wanted in
    record {
      fetchable = p.fetchable;
      fetched = parts.3;
      fresh = parts.1;
      clean = elim (Bool-cases (is_website c)) [
        | inr other ↦ inl other
        | inl web ↦
            let barred : (is_foreign_host c.url_or_handle
                  || is_low_value_host c.url_or_handle
                  || is_news_host c.url_or_handle
                  || is_blocked_host scan.stores.blocks c.url_or_handle)
                ≡ false =
              and_false (is_website c) _ web p.admitted in
            let off = four _ _ _ _ barred in
            inr (record {
              not_geo = and_false (is_website c) _ web p.in_place;
              not_foreign = off.0;
              not_low_value = off.1;
              not_news = off.2;
              not_blocked = not_before before scan.stores.blocks c.url_or_handle grows off.3;
            })
      ];
    }

pin_geo-Keeps :
    (url : Text) (stores : Stores)
    → AreSynced stores
    → AreSynced (pin_geo url stores) × Grows stores.blocks (pin_geo url stores).blocks
unfolding pin_geo
pin_geo-Keeps url stores synced = elim (Option-cases stores.geo_hosts) [
  | inl missing ↦ rw (pin_geo, missing) (synced, λ host on. on)
  | inr (hosts, e) ↦
      let own : IsSynced hosts stores.blocks = subst (λ o. StoreSynced o stores.blocks) e synced in
      rw (pin_geo, e)
        (add_geo-IsSynced url hosts stores.blocks own, add_geo-Grows url hosts stores.blocks own)
]

skip_of-Keeps :
    (c : SourceCandidate) (stores : Stores)
    → ((skip_of c stores).1.blocks ≡ stores.blocks)
      × ((skip_of c stores).1.geo_hosts ≡ stores.geo_hosts)
unfolding skip_of
skip_of-Keeps c stores = ground (arith, Option-cases stores.registry)

-- What the scan keeps: the stores in step, the block list grown only, and every selection fit.
record IsGood (g : Gates) (before : Blocks) (s : Scan) : Type 0 where
  synced : AreSynced s.stores
  grows : Grows before s.stores.blocks
  fit : All (IsFit g before) s.selected

Touched-Keeps :
    (c : SourceCandidate) (stores after : Stores)
    → AreSynced stores
    → Touched c stores after
    → AreSynced after × Grows stores.blocks after.blocks
Touched-Keeps c stores after synced (inl e) = rw e (synced, λ host on. on)
Touched-Keeps c stores after synced (inr (inl e)) =
    rw e (pin_geo-Keeps c.url_or_handle stores synced)
Touched-Keeps c stores after synced (inr (inr e)) =
    let same = skip_of-Keeps c stores in rw (e, same.0, same.1) (synced, λ host on. on)

step-IsGood :
    (g : Gates) (before : Blocks) (now : ℕ) (c : SourceCandidate) (s : Scan)
    → IsGood g before s
    → IsGood g before (consider g now c s)
unfolding select
step-IsGood g before now c s h = elim (consider_cases g now c s) [
  | inl (stores, how, e) ↦
      let next = Touched-Keeps c s.stores stores h.synced how in
      rw e
        (record { synced = next.0; grows = λ host on. next.1 host (h.grows host on); fit = h.fit })
  | inr (passed, e) ↦
      let next = Touched-Keeps c s.stores (skip_of c s.stores).1 h.synced (inr (inr refl)) in
      rw e (record {
        synced = next.0;
        grows = λ host on. next.1 host (h.grows host on);
        fit =
            All-append _ s.selected (c ∷ []) h.fit
              (Passed-IsFit g now c s before h.grows passed, tt);
      })
]

-- With a geo store that is missing or in step with the block list, every candidate that a pass
-- selects is of a type that is fetched and has a fetcher, has a reference that is not known, and,
-- when it is a website, passes the gates on Russian and Belarusian places, foreign hosts, low-value
-- hosts and news hosts, and stands on no host that was on the block list when the pass began.
pub select_fetch_set-IsFit :
    (g : Gates) (clock : ℕ → ℕ) (stores : Stores) (candidates : List SourceCandidate)
    → AreSynced stores
    → All (IsFit g stores.blocks) (select_fetch_set g clock stores candidates).selected
unfolding select_fetch_set
select_fetch_set-IsFit g clock stores candidates synced =
    let good : IsGood g stores.blocks (scan_all g clock candidates (start_scan stores)) =
      scan_all-Keeps (IsGood g stores.blocks) g clock candidates (start_scan stores)
        (λ c s h less. step-IsGood g stores.blocks (clock s.stop) c s h)
        (record { synced = synced; grows = λ host on. on; fit = tt }) in
    good.fit
