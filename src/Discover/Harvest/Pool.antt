-- ===== src/Discover/Harvest/Pool.antt =====
-- The account of the pool: its counts are true, whatever the workers do to each other.
use ubd_probe.Prelude.{
  ℕ, ◌+◌, ◌≤◌, ◌≡◌, refl, true, List, [], ◌∷◌, length, contains, nat_eq, list_eq, All, arith,
}
use ubd_probe.Prelude.Text.{Text}
use ubd_probe.Discover.Harvest.{Parts, Settings, World, Summary}
use ubd_probe.Discover.Harvest.Run.{Net, Share, run_share, execute, merged}
use ubd_probe.Discover.Harvest.Account.{Follows, IsOnce}
use ubd_probe.Discover.Harvest.Passes.{nothing, work-Follows}

-- The sum of a number over the workers.
unfoldable pub total : (World → ℕ) → List World → ℕ
total f [] = 0
total f (w ∷ worlds) = f w + total f worlds

abbrev pub offers_of : World → ℕ
offers_of w = length w.offers

abbrev pub suggestions_of : World → ℕ
suggestions_of w = length w.suggestions

-- What a worker has done from the world that the pool began with.
pub record IsFairShare (start w : World) : Type 0 where
  pub once : IsOnce w
  pub grows : (ref : Text) → contains start.known ref ≡ true → contains w.known ref ≡ true

-- The worlds of the workers, and the summary before and after.
pub record IsAccount (start : World) (s : Summary) (worlds : List World) (s' : Summary)
    : Type 0 where
  pub shares : All (IsFairShare start) worlds
  pub offers : s'.offers ≡ s.offers + total offers_of worlds
  pub suggestions : s'.suggestions ≡ s.suggestions + total suggestions_of worlds
  pub errors : s.errors ≤ s'.errors

module _ (net : Net) (parts : Parts) (settings : Settings) where
  -- One worker begins with nothing submitted.
  run_share-Follows :
      (share : Share) (start : World)
      → Follows
          (record start { moment = 0; offers = []; suggestions = [] })
          nothing
          (run_share net parts settings share start).0
          (run_share net parts settings share start).1
  unfolding run_share
  run_share-Follows share start =
      work-Follows net (record parts { others = share.others }) settings share.order
        (record start { moment = 0; offers = []; suggestions = [] }) nothing

  -- Whatever the pool gives to each of its workers, and whatever the others do while one works (they add
  -- to the known references and change the rest in any way), the summary grows by exactly the offers and the
  -- suggestions that the workers have submitted, and its errors are not taken back; no worker suggests
  -- a reference twice, every reference that it has suggested is known to it, and what was known at the
  -- start stays known. Two workers may suggest the same reference.
  pub execute-IsAccount :
      (shares : List Share) (start : World) (s : Summary)
      → IsAccount start s
          (execute net parts settings shares start s).0
          (execute net parts settings shares start s).1
        × (length (execute net parts settings shares start s).0 ≡ length shares)
  unfolding execute total
  execute-IsAccount [] start s = (
    record { shares = tt; offers = omega arith; suggestions = omega arith; errors = omega arith },
    refl,
  )
  execute-IsAccount (share ∷ shares) start s =
      let one = run_share-Follows share start in
      let sum = merged net parts settings s (run_share net parts settings share start).1 in
      let rest = execute-IsAccount shares start sum in
      (
        record {
          shares = (
            record { once = one.once (record { apart = tt; noted = tt }); grows = one.grows },
            rest.0.shares,
          );
          offers = omega (arith, one.offers, rest.0.offers);
          suggestions = omega (arith, one.suggestions, rest.0.suggestions);
          errors = omega (arith, rest.0.errors);
        },
        omega (arith, rest.1),
      )
