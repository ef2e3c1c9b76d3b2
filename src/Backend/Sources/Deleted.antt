-- ===== src/Backend/Sources/Deleted.antt =====
-- `delete_source`: what still names the source, and what the offers keep.
use ubd_probe.Prelude.{
  ℕ, ◌≡◌, refl, inl, inr, false, not, none, some, List, [], ◌∷◌, map, filter, ◌==◌, nat_eq,
  option_eq, Bool-cases, All, arith,
}
use ubd_probe.Prelude.Table.{row_at, row_at-drop_at, filter-All, All-map}
use ubd_probe.Backend.Model.{Offer, ok}
use ubd_probe.Backend.Sources.{SuggestedSource, CrawlState, Tables, source_id_of}
use ubd_probe.Backend.Sources.Steps.{deleted-tables}
use ubd_probe.Backend.Sources.Review.{
  orphan_offer, orphan_suggestion, delete_source, without_source,
}

-- The offer without the source that it came from.
abbrev pub sourceless : Offer → Offer
sourceless o = record o { source_id = none }

-- Nothing names the source any more.
pub record IsGone (id : ℕ) (db : Tables) : Type 0 where
  pub no_source : row_at source_id_of id db.sources ≡ none
  pub no_cursor : All (λ c. (c.source_id == id) ≡ false) db.crawl_states
  pub no_offer : All (λ o. (o.source_id == some id) ≡ false) db.offers
  pub no_suggestion : All (λ s. (s.discovered_from_source_id == some id) ≡ false) db.suggestions

orphaned :
    (id : ℕ) (offers : List Offer)
    → All (λ o. (o.source_id == some id) ≡ false) (map (orphan_offer id) offers)
orphaned id [] = tt
orphaned id (o ∷ offers) = elim (Bool-cases (o.source_id == some id)) [
  | inl own ↦ rw own (refl, orphaned id offers)
  | inr other ↦ rw other (other, orphaned id offers)
]

orphaned_suggestions :
    (id : ℕ) (rows : List SuggestedSource)
    → All (λ s. (s.discovered_from_source_id == some id) ≡ false) (map (orphan_suggestion id) rows)
orphaned_suggestions id [] = tt
orphaned_suggestions id (s ∷ rows) = elim (Bool-cases (s.discovered_from_source_id == some id)) [
  | inl own ↦ rw own (refl, orphaned_suggestions id rows)
  | inr other ↦ rw other (other, orphaned_suggestions id rows)
]

orphan-same :
    (id : ℕ) (offers : List Offer)
    → map sourceless (map (orphan_offer id) offers) ≡ map sourceless offers
orphan-same id [] = refl
orphan-same id (o ∷ offers) = elim (Bool-cases (o.source_id == some id)) [
  | inl own ↦ rw (own, orphan-same id offers) refl
  | inr other ↦ rw (other, orphan-same id offers) refl
]

dropped_cursors :
    (id : ℕ) (rows : List CrawlState)
    → All (λ c. (c.source_id == id) ≡ false) (filter (λ c. not (c.source_id == id)) rows)
dropped_cursors id rows =
    All-map _ (λ c kept. ground arith) (filter-All (λ c. not (c.source_id == id)) rows)

-- A deletion that is answered without an error leaves no row that names the source: no source, no
-- cursor, no offer and no suggestion; and every offer is still there, at its place, and differs at
-- most in the source that it names.
pub delete_source-IsGone :
    (db : Tables) (id : ℕ) (next : Tables)
    → delete_source db id ≡ ok next
    → IsGone id next × (map sourceless next.offers ≡ map sourceless db.offers)
unfolding without_source
delete_source-IsGone db id next e =
    let gone : IsGone id (without_source id db) = record {
      no_source = row_at-drop_at source_id_of id db.sources;
      no_cursor = dropped_cursors id db.crawl_states;
      no_offer = orphaned id db.offers;
      no_suggestion = orphaned_suggestions id db.suggestions;
    } in
    rw (deleted-tables db id e) (gone, orphan-same id db.offers)
