-- ===== src/Discover/Select/Spread.antt =====
-- The cooldown of a pass: with a registry and a cooldown, one site is selected once.
use ubd_probe.Prelude.{
  ℕ, ◌≡◌, ◌≢◌, ◌⊎◌, inl, inr, refl, sym, ◌∙◌, true, false, ◌&&◌, ◌||◌, not, Option, none, some,
  List, [], ◌∷◌, ◌++◌, contains, null, is_some, nat_eq, list_eq, eq_refl, ◌==◌, All, if◌then◌else◌,
  Bool-cases, Option-cases, arith,
}
use ubd_probe.Discover.Blocklist.Laws.{or_right}
use ubd_probe.Prelude.Table.{Pairwise, Pairwise-append, All-append, All-map}
use ubd_probe.Prelude.Text.{Text}
use ubd_probe.Hosts.{bare_host}
use ubd_probe.Crawl.Registry.{seen_within}
use ubd_probe.Discover.Types.{SourceCandidate}
use ubd_probe.Discover.Select.{
  Gates, Stores, Scan, is_website, pin_geo, skip_of, is_revisit, is_wanted, select, consider,
  scan_all, start_scan, select_fetch_set,
}
use ubd_probe.Discover.Select.Laws.{Touched, consider_cases, scan_all-Keeps}

-- The site of a website candidate whose address has a host.
unfoldable pub site : SourceCandidate → Option Text
unfolding bare_host
site c =
    if is_website c && not (null (bare_host c.url_or_handle))
    then some (bare_host c.url_or_handle)
    else none

abbrev pub Differ : SourceCandidate → SourceCandidate → Type 0
Differ c d = (site c ≡ none) ⊎ (site c ≢ site d)

-- The site of a selected candidate is remembered.
abbrev Noted : List Text → SourceCandidate → Type 0
Noted hosts c = (site c ≡ none) ⊎ ((h : Text) × (site c ≡ some h) × (contains hosts h ≡ true))

record IsSpread (s : Scan) : Type 0 where
  listed : is_some s.stores.registry ≡ true
  noted : All (Noted s.selected_hosts) s.selected
  differ : Pairwise Differ s.selected

registry-Touched :
    (c : SourceCandidate) (stores after : Stores)
    → is_some stores.registry ≡ true
    → Touched c stores after
    → is_some after.registry ≡ true
unfolding pin_geo skip_of
registry-Touched c stores after h (inl e) = rw e h
registry-Touched c stores after h (inr (inl e)) = ground (arith, Option-cases stores.geo_hosts)
registry-Touched c stores after h (inr (inr e)) = ground (arith, Option-cases stores.registry)

site-host :
    (c : SourceCandidate) (h : Text)
    → site c ≡ some h
    → (is_website c ≡ true)
      × (bare_host c.url_or_handle ≡ h)
      × (null (bare_host c.url_or_handle) ≡ false)
unfolding site
site-host c h e = elim (Bool-cases (is_website c && not (null (bare_host c.url_or_handle)))) [
  | inl on ↦ (ground arith, ground arith, ground arith)
  | inr off ↦ absurd (ground arith)
]

calm-new :
    (now cooldown : ℕ) (hosts : List Text) (c : SourceCandidate) (stores : Stores)
    → (cooldown == 0) ≡ false
    → is_some stores.registry ≡ true
    → is_website c ≡ true
    → is_revisit now cooldown hosts c stores ≡ false
    → contains hosts (bare_host c.url_or_handle) ≡ false
unfolding is_revisit
calm-new now cooldown hosts c stores cool listed web calm = elim (Option-cases stores.registry) [
  | inl missing ↦ absurd (ground arith)
  | inr (r, e) ↦
      let both : (seen_within (bare_host c.url_or_handle) cooldown now r
            || contains hosts (bare_host c.url_or_handle))
          ≡ false =
        ground arith in
      ground arith
]

-- A wanted candidate of a site stands on no site that is selected already.
wanted-new :
    (g : Gates) (now : ℕ) (hosts : List Text) (c : SourceCandidate) (stores : Stores) (h : Text)
    → (g.revisit_cooldown == 0) ≡ false
    → is_some stores.registry ≡ true
    → is_wanted g now hosts c stores ≡ true
    → site c ≡ some h
    → contains hosts h ≡ false
unfolding is_wanted
wanted-new g now hosts c stores h cool listed wanted e =
    let calm : is_revisit now g.revisit_cooldown hosts c stores ≡ false = ground arith in
    let own = site-host c h e in
    rw (sym own.1) (calm-new now g.revisit_cooldown hosts c stores cool listed own.0 calm)

Noted-grow :
    (h : Text) (hosts : List Text) (c : SourceCandidate) → Noted hosts c → Noted (h ∷ hosts) c
unfolding contains
Noted-grow h hosts c (inl none_site) = inl none_site
Noted-grow h hosts c (inr (own, e, at)) = inr (own, e, or_right (h == own) _ at)

-- The new candidate differs from every one before.
new_differs :
    (c d : SourceCandidate) (hosts : List Text)
    → ((h : Text) → site c ≡ some h → contains hosts h ≡ false)
    → Noted hosts d
    → Differ d c
new_differs c d hosts new (inl none_site) = inl none_site
new_differs c d hosts new (inr (h, e, at)) =
    inr (λ same. absurd (ground (arith, new h (sym same ∙ e))))

Noted-select :
    (c : SourceCandidate) (hosts : List Text) (selected : List SourceCandidate)
    → All (Noted hosts) selected
    → All
        (Noted (
          if is_website c && not (null (bare_host c.url_or_handle))
          then bare_host c.url_or_handle ∷ hosts
          else hosts))
        (selected ++ (c ∷ []))
unfolding site contains
Noted-select c hosts selected h =
    elim (Bool-cases (is_website c && not (null (bare_host c.url_or_handle)))) [
      | inl on ↦ rw on (
          All-append _ selected (c ∷ [])
            (All-map selected (Noted-grow (bare_host c.url_or_handle) hosts) h)
            (
              inr (
                bare_host c.url_or_handle,
                rw on refl,
                rw (eq_refl (bare_host c.url_or_handle)) refl,
              ),
              tt,
            ))
      | inr off ↦ rw off (All-append _ selected (c ∷ []) h (inl (rw off refl), tt))
    ]

step-IsSpread :
    (g : Gates) (now : ℕ) (c : SourceCandidate) (s : Scan)
    → (g.revisit_cooldown == 0) ≡ false
    → IsSpread s
    → IsSpread (consider g now c s)
unfolding select
step-IsSpread g now c s cool h = elim (consider_cases g now c s) [
  | inl (stores, how, e) ↦ rw e (record {
    listed = registry-Touched c s.stores stores h.listed how;
    noted = h.noted;
    differ = h.differ;
  })
  | inr (passed, e) ↦
      let listed = registry-Touched c s.stores (skip_of c s.stores).1 h.listed (inr (inr refl)) in
      let new = λ (h : Text) (e : site c ≡ some h).
        wanted-new g now s.selected_hosts c (skip_of c s.stores).1 h cool listed passed.wanted e in
      rw e (record {
        listed = listed;
        noted = Noted-select c s.selected_hosts s.selected h.noted;
        differ =
            Pairwise-append Differ s.selected c h.differ
              (All-map s.selected (λ d at. new_differs c d s.selected_hosts new at) h.noted);
      })
]

-- With a registry and a revisit cooldown that is not zero, a pass selects no two website candidates
-- of the same host.
pub select_fetch_set-Differ :
    (g : Gates) (clock : ℕ → ℕ) (stores : Stores) (candidates : List SourceCandidate)
    → (g.revisit_cooldown == 0) ≡ false
    → is_some stores.registry ≡ true
    → Pairwise Differ (select_fetch_set g clock stores candidates).selected
unfolding select_fetch_set
select_fetch_set-Differ g clock stores candidates cool listed =
    let spread : IsSpread (scan_all g clock candidates (start_scan stores)) =
      scan_all-Keeps IsSpread g clock candidates (start_scan stores)
        (λ c s h less. step-IsSpread g (clock s.stop) c s cool h)
        (record { listed = listed; noted = tt; differ = tt }) in
    spread.differ
