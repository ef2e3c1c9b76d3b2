-- ===== src/Discover/Active.antt =====
-- `ActiveDiscovery.run` of crawler/crawler/discovery/active.py. `search` answers none where the provider
-- raises, and `served` tells whether the provider's last call has really answered.
pub mod Laws
use ubd_probe.Prelude.{
  ℕ, suc, leb, Bool, true, false, ◌&&◌, ◌||◌, not, Option, none, some, List, [], ◌∷◌, ◌++◌, any,
  contains, ◌==◌, nat_eq, list_eq, list_beq, if◌then◌else◌,
}
use ubd_probe.Prelude.Dict.{Dict, lookup}
use ubd_probe.Prelude.Text.{Text}
use ubd_probe.Search.Classify.{SourceType}
use ubd_probe.Discover.Types.{type_eq, SourceCandidate}
use ubd_probe.Discover.Ref.{normalize_ref}

pub record Finds : Type 0 where
  pub out : List SourceCandidate
  pub used : ℕ
  pub served : List Text

-- `(c.type, ref) in seen`, where `seen` holds the keys of the candidates in `out`
unfoldable pub is_seen : List SourceCandidate → SourceCandidate → Bool
unfolding any list_beq normalize_ref
is_seen out c =
    any
      (λ d.
        d.type == c.type
        && normalize_ref d.type d.url_or_handle == normalize_ref c.type c.url_or_handle)
      out

unfoldable pub add_new :
    List Text → List SourceCandidate → List SourceCandidate → List SourceCandidate
unfolding contains list_beq normalize_ref is_seen
add_new known [] out = out
add_new known (c ∷ results) out = add_new known results (
    if contains known (normalize_ref c.type c.url_or_handle) || is_seen out c
    then out
    else out ++ (c ∷ []))

-- `pages.get(kw, 1)`
unfoldable pub page_of : Dict Text ℕ → Text → ℕ
unfolding lookup list_beq
page_of pages kw = elim (lookup kw pages) [ none ↦ 1 | some page ↦ page ]

module _ (search : Text → ℕ → Option (List SourceCandidate)) (served : Text → Bool) (budget : ℕ)
    (known : List Text) (pages : Dict Text ℕ) where
  -- One query.
  unfoldable pub query : Text → Finds → Finds
  unfolding page_of add_new
  query kw f = elim (search kw (page_of pages kw)) [
    | none ↦ record f { used = suc f.used }
    | some results ↦ record {
      out = add_new known results f.out;
      used = suc f.used;
      served = if served kw then kw ∷ f.served else f.served;
    }
  ]

  -- The loop over the keywords; a budget of 0 is none.
  unfoldable pub run_from : List Text → Finds → Finds
  unfolding query
  run_from [] f = f
  run_from (kw ∷ keywords) f =
      let next = run_from keywords (query kw f) in
      if not (budget == 0) && leb budget f.used then f else next

  unfoldable pub run : List Text → Finds
  unfolding run_from
  run keywords = run_from keywords (record { out = []; used = 0; served = [] })
