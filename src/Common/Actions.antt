-- ===== src/Common/Actions.antt =====
-- Actions on a state that may fail, as the functions of the client core that return a status. What
-- was written before a failure stays written. A loop on fuel may also not come to its end.
pub mod Triples
pub mod Keeps
use mathlib.Core.Bool.{Bool, true, false}
use mathlib.Core.Option.{Option, none, some}
use pbns.Common.Codes.{Status, ok, err, Error, argument}

pub data Answer {ℓ} (A : Type ℓ) : Type ℓ where
  returns : A → Answer A
  fails : Error → Answer A
  unfinished : Answer A

abbrev pub Action {ℓ} : Type ℓ → Type ℓ → Type ℓ
Action S A = S → Answer A × S

-- The answer that stands for a status.
abbrev pub answer : Status → Answer (Unit {0})
answer ok = returns tt
answer (err e) = fails e

module _ {ℓ} {S A : Type ℓ} where
  pub pure : A → Action S A
  pure a s = (returns a, s)

  pub raise : Error → Action S A
  raise e s = (fails e, s)

  unfoldable pub out_of_fuel : Action S A
  out_of_fuel s = (unfinished, s)

  pub gets : (S → A) → Action S A
  gets f s = (returns (f s), s)

  -- An argument that may be NULL.
  pub required : Option A → Action S A
  required none s = (fails argument, s)
  required (some a) s = (returns a, s)

module _ {S : Type 0} where
  pub change : (S → S) → Action S Unit
  change f s = (returns tt, f s)

  pub settle_status : Status → Action S Unit
  settle_status status s = (answer status, s)

  -- `if (bad) { return error; }`
  pub guard : Bool → Error → Action S Unit
  guard true e s = (fails e, s)
  guard false e s = (returns tt, s)

module _ {ℓ} {S A B : Type ℓ} where
  abbrev pub continue : (A → Action S B) → (Error → Action S B) → Answer A → Action S B
  continue f g (returns a) s = f a s
  continue f g (fails e) s = g e s
  continue f g unfinished s = (unfinished, s)

  -- `status = m; if (status != PBNS_OK) { g } else { f }`
  unfoldable pub settle : Action S A → (A → Action S B) → (Error → Action S B) → Action S B
  unfolding pure raise out_of_fuel gets required change settle_status guard
  settle m f g s = let (a, t) = m s in continue f g a t

  infixl 10 ◌>>=◌ ◌>>◌
  abbrev pub ◌>>=◌ : Action S A → (A → Action S B) → Action S B
  ◌>>=◌ m f = settle m f raise

  abbrev pub ◌>>◌ : Action S A → Action S B → Action S B
  m >> n = m >>= λ _. n

module _ {S : Type 0} where
  -- `(void)m;`
  abbrev pub ignore : {A : Type 0} → Action S A → Action S Unit
  ignore m = settle m (λ _. pure tt) (λ _. pure tt)

  abbrev pub status_of : Action S Unit → Action S Status
  status_of m = settle m (λ _. pure ok) (λ e. pure (err e))

  -- A failure is answered by the clean-up and then returned.
  abbrev pub rescue : {A : Type 0} → Action S A → Action S Unit → Action S A
  rescue m clean_up = settle m pure (λ e. ignore clean_up >> raise e)
