-- ===== src/Discover/Harvest/Groups.antt =====
-- The grouping of a page's offers by their article, and the page that belongs to another business.
use ubd_probe.Prelude.{
  ◌≡◌, ◌≢◌, inl, inr, refl, sym, ap, ◌∙◌, Bool, true, false, Option, List, [], ◌∷◌, ◌++◌, map,
  filter, append_nil, append_assoc, ◌==◌, nat_eq, list_eq, option_eq, eq_refl, eq_sound, All,
  if◌then◌else◌, Bool-cases, arith,
}
use ubd_probe.Prelude.Table.{Pairwise}
use ubd_probe.Prelude.Text.{Text}
use ubd_probe.Hosts.Quality.{is_directory_page}
use ubd_probe.Discover.Types.{SourceCandidate, RawItem, first_text}
use ubd_probe.Discover.Harvest.{
  OfferCandidate, Parts, Settings, World, Summary, add_to_group, group_from,
}
use ubd_probe.Discover.Harvest.Pages.{screen, queue_business, process_page}

abbrev pub Groups : Type 0
Groups = List (Option Text × List OfferCandidate)

-- The offers of the group of a key.
unfoldable pub group_at : Option Text → Groups → List OfferCandidate
group_at key [] = []
group_at key ((k, group) ∷ groups) =
    let rest = group_at key groups in if k == key then group else rest

abbrev pub has_article : Option Text → OfferCandidate → Bool
has_article key o = o.article_url == key

abbrev pub Distinct : Groups → Type 0
Distinct groups = Pairwise (λ a b. a.0 ≢ b.0) groups

one_more : Option Text → OfferCandidate → List OfferCandidate
one_more key o = if has_article key o then o ∷ [] else []

hit_of : (k : Option Text) (o : OfferCandidate) → k ≡ o.article_url → (k == o.article_url) ≡ true
hit_of k o same = rw same (eq_refl {A = Option Text} o.article_url)

not_own :
    (k : Option Text) (o : OfferCandidate) (key : Option Text)
    → (k == o.article_url) ≡ false
    → (k == key) ≡ true
    → (o.article_url == key) ≡ false
not_own k o key miss own = elim (Bool-cases (o.article_url == key)) [
  | inr other ↦ other
  | inl also ↦
      let same : k ≡ o.article_url = eq_sound k key own ∙ sym (eq_sound o.article_url key also) in
      absurd (ground (arith, hit_of k o same))
]

one_then :
    (key : Option Text) (o : OfferCandidate) (offers : List OfferCandidate)
    → one_more key o ++ filter (has_article key) offers ≡ filter (has_article key) (o ∷ offers)
unfolding one_more filter
one_then key o offers = elim (Bool-cases (has_article key o)) [
  | inl own ↦ rw own refl
  | inr other ↦ rw other refl
]

group_at-add :
    (key : Option Text) (o : OfferCandidate) (groups : Groups)
    → group_at key (add_to_group o groups) ≡ group_at key groups ++ one_more key o
unfolding group_at add_to_group one_more
group_at-add key o [] = elim (Bool-cases (o.article_url == key)) [
  | inl own ↦ rw own refl
  | inr other ↦ rw other refl
]
group_at-add key o ((k, group) ∷ groups) = elim (Bool-cases (k == o.article_url)) [
  | inl hit ↦
      let same = eq_sound k o.article_url hit in
      elim (Bool-cases (k == key)) [
        | inl own ↦
            let also : (o.article_url == key) ≡ true = rw (sym same) own in rw (hit, own, also) refl
        | inr other ↦
            let also : (o.article_url == key) ≡ false = rw (sym same) other in
            rw (hit, other, also) (sym (append_nil (group_at key groups)))
      ]
  | inr miss ↦ elim (Bool-cases (k == key)) [
    | inl own ↦
        let also : (o.article_url == key) ≡ false = not_own k o key miss own in
        rw (miss, own, also) (sym (append_nil group))
    | inr other ↦ rw (miss, other) (group_at-add key o groups)
  ]
]

group_at-group_from :
    (key : Option Text) (offers : List OfferCandidate) (groups : Groups)
    → group_at key (group_from offers groups)
      ≡ group_at key groups ++ filter (has_article key) offers
unfolding group_from filter
group_at-group_from key [] groups = sym (append_nil (group_at key groups))
group_at-group_from key (o ∷ offers) groups =
    group_at-group_from key offers (add_to_group o groups)
    ∙ (ap (λ g. g ++ filter (has_article key) offers) (group_at-add key o groups)
        ∙ (append_assoc (group_at key groups) (one_more key o) (filter (has_article key) offers)
            ∙ ap (λ g. group_at key groups ++ g) (one_then key o offers)))

add-away :
    (k : Option Text) (o : OfferCandidate) (groups : Groups)
    → k ≢ o.article_url
    → All (λ b. k ≢ b.0) groups
    → All (λ b. k ≢ b.0) (add_to_group o groups)
unfolding add_to_group
add-away k o [] off h = (off, tt)
add-away k o ((j, group) ∷ groups) off h = elim (Bool-cases (j == o.article_url)) [
  | inl hit ↦ rw hit (h.0, h.1)
  | inr miss ↦ rw miss (h.0, add-away k o groups off h.1)
]

add_to_group-Distinct :
    (o : OfferCandidate) (groups : Groups) → Distinct groups → Distinct (add_to_group o groups)
unfolding add_to_group
add_to_group-Distinct o [] h = (tt, tt)
add_to_group-Distinct o ((k, group) ∷ groups) h = elim (Bool-cases (k == o.article_url)) [
  | inl hit ↦ rw hit (h.0, h.1)
  | inr miss ↦ rw miss (
    add-away k o groups (λ same. ground (arith, miss, same, hit_of k o same)) h.0,
    add_to_group-Distinct o groups h.1,
  )
]

group_from-Distinct :
    (offers : List OfferCandidate) (groups : Groups)
    → Distinct groups
    → Distinct (group_from offers groups)
unfolding group_from
group_from-Distinct [] groups h = h
group_from-Distinct (o ∷ offers) groups h =
    group_from-Distinct offers (add_to_group o groups) (add_to_group-Distinct o groups h)

-- The grouping of a page's offers is a partition by article: no two groups have the same article, and
-- the group of an article is the list of the offers with it, in their order.
pub group_from-partition :
    (offers : List OfferCandidate) (article : Option Text)
    → Distinct (group_from offers [])
      × (group_at article (group_from offers []) ≡ filter (has_article article) offers)
unfolding group_at
group_from-partition offers article =
    (group_from-Distinct offers [] tt, group_at-group_from article offers [])

-- A page that is an entry of a directory submits nothing: no offer, no suggestion, no reference
-- becomes known, the summary stays, and only the extractor can raise.
pub process_page-directory :
    (parts : Parts) (settings : Settings) (cand : SourceCandidate) (items : List RawItem)
    (world : World) (summary : Summary)
    → is_directory_page cand.url_or_handle (first_text (map (λ it. it.title) items)) ≡ true
    → let p = (process_page parts settings cand items world summary).1 in
      (p.world.offers ≡ world.offers)
      × (p.world.suggestions ≡ world.suggestions)
      × (p.world.known ≡ world.known)
      × (p.summary ≡ summary)
      × (p.raised ≡ (screen parts settings items world.corpus).raised)
unfolding process_page queue_business
process_page-directory parts settings cand items world summary directory =
    elim (Bool-cases (screen parts settings items world.corpus).raised) [
      | inl raised ↦ rw (process_page, raised) (refl, refl, refl, refl, refl)
      | inr fine ↦ rw (process_page, fine, directory) (refl, refl, refl, refl, refl)
    ]
