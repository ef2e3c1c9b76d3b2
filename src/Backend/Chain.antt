-- ===== src/Backend/Chain.antt =====
-- Reasoning on a chain of branches: what holds of every branch that returns holds of the chain.
use ubd_probe.Prelude.{◌≡◌, refl, Bool, true, false, Option, none, some, if◌then◌else◌}
use ubd_probe.Backend.Branches.{Done, or_try, when, given}
use ubd_probe.Backend.Intake.{or_insert}

-- The branch does not return, or what it returns has the property.
abbrev pub Holds : (Done → Type 0) → Option Done → Type 0
Holds P none = Unit {0}
Holds P (some d) = P d

module _ (P : Done → Type 0) where
  pub or_try-Holds : (a b : Option Done) → Holds P a → (a ≡ none → Holds P b) → Holds P (or_try a b)
  or_try-Holds none b h k = k refl
  or_try-Holds (some d) b h k = h

  pub when-Holds : (t : Bool) (d : Option Done) → (t ≡ true → Holds P d) → Holds P (when t d)
  when-Holds true d h = h refl
  when-Holds false d h = tt

  pub given-Holds :
      {A : Type 0} (o : Option A) (f : A → Option Done)
      → ((a : A) → o ≡ some a → Holds P (f a))
      → Holds P (given o f)
  given-Holds none f h = tt
  given-Holds (some a) f h = h a refl

  pub if-Holds : (t : Bool) (a b : Done) → P a → P b → Holds P (if t then some a else some b)
  if-Holds true a b h k = h
  if-Holds false a b h k = k

  pub or_insert-Holds : (d : Option Done) (new : Done) → Holds P d → P new → P (or_insert d new)
  or_insert-Holds none new h k = k
  or_insert-Holds (some done) new h k = h
