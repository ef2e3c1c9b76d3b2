-- ===== src/Discover/Attribution/Laws.antt =====
-- Whom a website's offer is attributed to.
use ubd_probe.Prelude.{
  ℕ, ◌≡◌, ◌⊎◌, inl, inr, refl, sym, ap, ◌∙◌, leb, Bool, true, false, ◌&&◌, ◌||◌, Option, none, some,
  List, null, if◌then◌else◌, Bool-cases, Option-cases,
}
use ubd_probe.Prelude.Text.{Text, lower}
use ubd_probe.Hosts.{bare_host}
use ubd_probe.Search.Classify.{website}
use ubd_probe.Discover.Types.{type_eq, RawItem, text_or}
use ubd_probe.Discover.Blocklist.{Blocks, is_blocked_host}
use ubd_probe.Discover.Attribution.{
  PageCtx, Attribution, first_party, third_party, clean_link, attribute_business, is_media,
  attribute,
}

not-none {ℓ} : {A : Type ℓ} {a : A} → none ≡ some a → ⊥
not-none e = cc

some-injective {ℓ} : {A : Type ℓ} {a b : A} → some a ≡ some b → a ≡ b
some-injective e = cc

unless-some {ℓ} :
    {A : Type ℓ} (t : Bool) (a b : A)
    → (if t then none else some a) ≡ some b
    → (t ≡ false) × (a ≡ b)
unless-some true a b e = absurd (not-none e)
unless-some false a b e = (refl, some-injective e)

or_false : (a b : Bool) → (a || b) ≡ false → b ≡ false
or_false true b e = cc
or_false false b e = e

module _ (first_person : Text → Bool) (pick_target : List Text → Text → Option Text)
    (blocks : Blocks) (item : RawItem) (ctx : PageCtx) where
  -- The business behind an external link of the item that is not blocked.
  abbrev pub IsThirdParty : Attribution → Type 0
  IsThirdParty a =
      (ext : Text) × (pick_target item.links (text_or item.url) ≡ some ext)
      × (is_blocked_host blocks (bare_host ext) ≡ false)
      × (a ≡ third_party ext)

  abbrev pub IsFirstParty : Attribution → Type 0
  IsFirstParty a = (brand : Text) × (ctx.brand ≡ some brand) × (a ≡ first_party ctx brand)

  clean_link-some :
      (ext : Text)
      → clean_link first_person pick_target blocks item ≡ some ext
      → (pick_target item.links (text_or item.url) ≡ some ext)
        × (is_blocked_host blocks (bare_host ext) ≡ false)
  unfolding clean_link
  clean_link-some ext e = elim (Option-cases (pick_target item.links (text_or item.url))) [
    | inl nothing ↦
        let none_is : clean_link first_person pick_target blocks item ≡ none =
          rw (clean_link, nothing) refl in
        absurd (not-none (sym none_is ∙ e))
    | inr (link, found) ↦
        let shape : clean_link first_person pick_target blocks item
            ≡ (if null link || is_blocked_host blocks (bare_host link) then none else some link) =
          rw (clean_link, found) refl in
        let kept = unless-some _ link ext (sym shape ∙ e) in
        (found ∙ ap some kept.1, rw (sym kept.1) (or_false (null link) _ kept.0))
  ]

  linked_party :
      (a : Attribution)
      → elim (clean_link first_person pick_target blocks item) as (λ o. Option Attribution) [
        | none ↦ none
        | some ext ↦ some (third_party ext)
      ]
        ≡ some a
      → IsThirdParty a
  linked_party a e = elim (Option-cases (clean_link first_person pick_target blocks item)) [
    | inl nothing ↦ absurd (not-none (sym (rw nothing refl) ∙ e))
    | inr (ext, found) ↦
        let link = clean_link-some ext found in
        (ext, link.0, link.1, some-injective (sym e ∙ rw found refl))
  ]

  business-party :
      (a : Attribution)
      → attribute_business first_person pick_target blocks item ctx ≡ some a
      → IsFirstParty a ⊎ IsThirdParty a
  unfolding attribute_business
  business-party a e = elim (Option-cases ctx.brand) [
    | inl no_brand ↦ elim (Option-cases (clean_link first_person pick_target blocks item)) [
      | inl nothing ↦
          absurd (not-none (sym (rw (attribute_business, no_brand, nothing, no_brand) refl) ∙ e))
      | inr (ext, found) ↦
          let link = clean_link-some ext found in
          inr (
            ext,
            link.0,
            link.1,
            some-injective (sym e ∙ rw (attribute_business, no_brand, found) refl),
          )
    ]
    | inr (brand, own) ↦ elim (Bool-cases (first_person (lower item.text))) [
      | inl ours ↦
          inl (brand, own, some-injective (sym e ∙ rw (attribute_business, own, ours) refl))
      | inr theirs ↦ elim (Option-cases (clean_link first_person pick_target blocks item)) [
        | inr (ext, found) ↦
            let link = clean_link-some ext found in
            inr (
              ext,
              link.0,
              link.1,
              some-injective (sym e ∙ rw (attribute_business, own, theirs, found) refl),
            )
        | inl nothing ↦ elim (Bool-cases (leb ctx.offer_block_count 1)) [
          | inl single ↦ inl (
            brand,
            own,
            some-injective
                (sym e ∙ rw (attribute_business, own, theirs, nothing, own, single) refl),
          )
          | inr many ↦
              absurd
                (not-none (sym (rw (attribute_business, own, theirs, nothing, own, many) refl) ∙ e))
        ]
      ]
    ]
  ]

  -- An offer on a website is attributed only when the host of the page is not blocked, and then
  -- either to the brand of the page, which is no media page while the hardening is on, or to the
  -- business behind an external link of its item whose host is not blocked.
  pub attribute-party :
      (min_outbound : ℕ) (hardening : Bool) (a : Attribution)
      → ctx.cand_type ≡ website
      → attribute first_person pick_target blocks item ctx min_outbound hardening ≡ some a
      → (is_blocked_host blocks (text_or ctx.host) ≡ false)
        × ((((hardening && is_media first_person pick_target blocks min_outbound item ctx) ≡ false)
              × IsFirstParty a)
            ⊎ IsThirdParty a)
  unfolding attribute
  attribute-party min_outbound hardening a web e =
      elim (Bool-cases (is_blocked_host blocks (text_or ctx.host))) [
        | inl blocked ↦ absurd (not-none (sym (rw (attribute, web, blocked) refl) ∙ e))
        | inr clean ↦ (
          clean,
          elim (Bool-cases
              (hardening && is_media first_person pick_target blocks min_outbound item ctx)) [
                | inl media ↦
                    inr (linked_party a (sym (rw (attribute, web, clean, media) refl) ∙ e))
                | inr business ↦
                    elim (business-party a (sym (rw (attribute, web, clean, business) refl) ∙ e)) [
                      | inl ours ↦ inl (business, ours)
                      | inr theirs ↦ inr theirs
                    ]
              ],
        )
      ]
