-- ===== src/Common/Actions/Keeps.antt =====
-- What an action leaves true, whether it returns or fails, with a rule for each way to build one.
use mathlib.Core.Bool.{Bool}
use mathlib.Core.Option.{Option}
use pbns.Common.Tests.{if◌then◌else◌}
use pbns.Common.Codes.{Status, Error}
use pbns.Common.Actions.{Action, pure, raise, out_of_fuel, required, settle_status, guard, settle}
use pbns.Common.Actions.Triples.{
  Contract, Triple-pure, Triple-raise, Triple-if, Triple-guard, Triple-required,
  Triple-settle_status, Triple-settle, Triple-map, Gives,
}

pub record Leaving {S A : Type 0} (U P : S → Type 0) (m : Action S A) : Type 0 where
  pub triple : Contract P m (λ _ s. P s) (λ _ s. P s) U

-- The action comes to its end, and keeps `P`.
abbrev pub Keeps : {S A : Type 0} → (S → Type 0) → Action S A → Type 0
Keeps P m = Leaving (λ _. ⊥) P m

-- It keeps `P` also where its fuel runs out.
abbrev pub Stays : {S A : Type 0} → (S → Type 0) → Action S A → Type 0
Stays P m = Leaving P P m

module _ {S A : Type 0} {U P : S → Type 0} where
  pub Keeps-pure : (a : A) → Leaving U P (pure a)
  Keeps-pure a = record { triple = Triple-pure a (λ s h. h) }

  pub Keeps-raise : (e : Error) → Leaving U P (raise {A = A} e)
  Keeps-raise e = record { triple = Triple-raise e (λ s h. h) }

  pub Keeps-required : (o : Option A) → Leaving U P (required o)
  Keeps-required o = record { triple = Triple-required o (λ e s h. h) (λ a s h. h) }

  pub Keeps-if :
      (b : Bool) (m n : Action S A)
      → Leaving U P m
      → Leaving U P n
      → Leaving U P (if b then m else n)
  Keeps-if b m n km kn = record { triple = Triple-if b m n (λ _. km.triple) (λ _. kn.triple) }

module _ {S : Type 0} {U P : S → Type 0} where
  pub Keeps-guard : (b : Bool) (e : Error) → Leaving U P (guard b e)
  Keeps-guard b e = record { triple = Triple-guard b e (λ _ s h. h) (λ _ s h. h) }

  pub Keeps-settle_status : (status : Status) → Leaving U P (settle_status status)
  Keeps-settle_status status = record {
    triple = Triple-settle_status status (λ e s h. h) (λ s h. h);
  }

module _ {S A : Type 0} {P : S → Type 0} where
  pub Stays-out_of_fuel : Stays P (out_of_fuel {A = A})
  unfolding out_of_fuel
  Stays-out_of_fuel = record { triple = record { at = λ s h. h } }

module _ {S A : Type 0} {P : S → Type 0} where
  pub Keeps-out_of_fuel : Leaving (λ _. Unit {0}) P (out_of_fuel {A = A})
  unfolding out_of_fuel
  Keeps-out_of_fuel = record { triple = record { at = λ s h. tt } }

  -- What it keeps where it returns.
  pub given_up : {m : Action S A} → Leaving (λ _. Unit {0}) P m → Gives P m (λ _ s. P s)
  given_up k = Triple-map (λ _ s h. h) (λ _ s h. tt) k.triple

module _ {S A B : Type 0} {U P : S → Type 0} where
  pub Keeps-settle :
      (m : Action S A) (f : A → Action S B) (g : Error → Action S B)
      → Leaving U P m
      → ((a : A) → Leaving U P (f a))
      → ((e : Error) → Leaving U P (g e))
      → Leaving U P (settle m f g)
  Keeps-settle m f g km kf kg = record {
    triple = Triple-settle km.triple (λ a. (kf a).triple) (λ e. (kg e).triple);
  }

pub ruleset keeps_rules = (
  Keeps-pure, Keeps-raise, Keeps-required, Keeps-if, Keeps-guard, Keeps-settle_status, Keeps-settle,
)
