-- ===== src/Common/Actions/Triples.antt =====
-- What an action makes of a state: one rule for each way to build an action. An action of which this
-- is shown comes to its end.
use mathlib.Core.Path.{◌≡◌, refl}
use mathlib.Core.Bool.{Bool, true, false}
use mathlib.Core.Option.{Option, none, some}
use pbns.Common.Tests.{if◌then◌else◌}
use pbns.Common.Codes.{Status, ok, err, Error, argument}
use pbns.Common.Actions.{
  Answer, returns, fails, unfinished, Action, pure, raise, gets, required, change, settle_status,
  guard, settle, continue, ◌>>=◌, ◌>>◌, ignore, rescue, status_of,
}

module _ {S A : Type 0} where
  abbrev pub Leaves : (A → S → Type 0) → (Error → S → Type 0) → (S → Type 0) → Answer A → S → Type 0
  Leaves Q E U (returns a) s = Q a s
  Leaves Q E U (fails e) s = E e s
  Leaves Q E U unfinished s = U s

  -- From a state with `P`, the action returns with `Q`, fails with `E`, or has left `U` where its
  -- fuel has run out.
  pub record Contract (P : S → Type 0) (m : Action S A) (Q : A → S → Type 0)
      (E : Error → S → Type 0) (U : S → Type 0) : Type 0 where
    pub at : (s : S) → P s → Leaves Q E U (m s).0 (m s).1

  -- And it does not run out of fuel.
  abbrev pub Triple : (S → Type 0) → Action S A → (A → S → Type 0) → (Error → S → Type 0) → Type 0
  Triple P m Q E = Contract P m Q E (λ _. ⊥)

module _ {S A : Type 0} {Q : A → S → Type 0} {E : Error → S → Type 0} where
  Leaves-map :
      (U : S → Type 0) {Q' : A → S → Type 0} {E' : Error → S → Type 0} (a : Answer A) (s : S)
      → ((x : A) (t : S) → Q' x t → Q x t)
      → ((e : Error) (t : S) → E' e t → E e t)
      → Leaves Q' E' U a s
      → Leaves Q E U a s
  Leaves-map U (returns a) s f g h = f a s h
  Leaves-map U (fails e) s f g h = g e s h
  Leaves-map U unfinished s f g h = h

module _ {S A : Type 0} {P : S → Type 0} {Q : A → S → Type 0} {E : Error → S → Type 0}
    {U : S → Type 0} where
  pub Triple-pure : (a : A) → ((s : S) → P s → Q a s) → Contract P (pure a) Q E U
  unfolding pure
  Triple-pure a h = record { at = h }

  pub Triple-raise : (e : Error) → ((s : S) → P s → E e s) → Contract P (raise {A = A} e) Q E U
  unfolding raise
  Triple-raise e h = record { at = h }

  pub Triple-gets : (f : S → A) → ((s : S) → P s → Q (f s) s) → Contract P (gets f) Q E U
  unfolding gets
  Triple-gets f h = record { at = h }

  pub Triple-if :
      (b : Bool) (m n : Action S A)
      → (b ≡ true → Contract P m Q E U)
      → (b ≡ false → Contract P n Q E U)
      → Contract P (if b then m else n) Q E U
  Triple-if true m n km kn = km refl
  Triple-if false m n km kn = kn refl

  -- A weaker condition before, and stronger ones after.
  pub Triple-from :
      {P' : S → Type 0} {m : Action S A}
      → ((s : S) → P s → P' s)
      → Contract P' m Q E U
      → Contract P m Q E U
  Triple-from h k = record { at = λ s p. k.at s (h s p) }

  pub Triple-map :
      {Q' : A → S → Type 0} {E' : Error → S → Type 0} {m : Action S A}
      → ((x : A) (t : S) → Q' x t → Q x t)
      → ((e : Error) (t : S) → E' e t → E e t)
      → Contract P m Q' E' U
      → Contract P m Q E U
  Triple-map {m} f g k = record { at = λ s p. Leaves-map U (m s).0 (m s).1 f g (k.at s p) }

module _ {S : Type 0} {P : S → Type 0} {E : Error → S → Type 0} {U : S → Type 0} where
  pub Triple-change :
      {Q : Unit {0} → S → Type 0} (f : S → S)
      → ((s : S) → P s → Q tt (f s))
      → Contract P (change f) Q E U
  unfolding change
  Triple-change f h = record { at = h }

  -- The rest of a block may use that the test has failed.
  pub Triple-guard :
      {Q : Unit {0} → S → Type 0} (b : Bool) (e : Error)
      → (b ≡ true → (s : S) → P s → E e s)
      → (b ≡ false → (s : S) → P s → Q tt s)
      → Contract P (guard b e) Q E U
  unfolding guard
  Triple-guard true e h k = record { at = h refl }
  Triple-guard false e h k = record { at = k refl }

  pub Triple-required :
      {A : Type 0} {Q : A → S → Type 0} (o : Option A)
      → ((e : Error) (s : S) → P s → E e s)
      → ((a : A) (s : S) → P s → Q a s)
      → Contract P (required o) Q E U
  unfolding required
  Triple-required none h k = record { at = h _ }
  Triple-required (some a) h k = record { at = k a }

  pub Triple-settle_status :
      {Q : Unit {0} → S → Type 0} (status : Status)
      → ((e : Error) (s : S) → P s → E e s)
      → ((s : S) → P s → Q tt s)
      → Contract P (settle_status status) Q E U
  unfolding settle_status
  Triple-settle_status ok h k = record { at = k }
  Triple-settle_status (err e) h k = record { at = h e }

module _ {S A B : Type 0} {Q : A → S → Type 0} {E : Error → S → Type 0} {R : B → S → Type 0}
    {F : Error → S → Type 0} {U : S → Type 0} where
  Leaves-continue :
      {f : A → Action S B} {g : Error → Action S B} (a : Answer A) (s : S)
      → Leaves Q E U a s
      → ((x : A) → Contract (Q x) (f x) R F U)
      → ((e : Error) → Contract (E e) (g e) R F U)
      → Leaves R F U (continue f g a s).0 (continue f g a s).1
  Leaves-continue (returns a) s h kf kg = (kf a).at s h
  Leaves-continue (fails e) s h kf kg = (kg e).at s h
  Leaves-continue unfinished s h kf kg = h

module _ {S A B : Type 0} {P : S → Type 0} {Q : A → S → Type 0} {E : Error → S → Type 0}
    {R : B → S → Type 0} {F : Error → S → Type 0} {U : S → Type 0} where
  pub Triple-settle :
      {m : Action S A} {f : A → Action S B} {g : Error → Action S B}
      → Contract P m Q E U
      → ((x : A) → Contract (Q x) (f x) R F U)
      → ((e : Error) → Contract (E e) (g e) R F U)
      → Contract P (settle m f g) R F U
  unfolding settle
  Triple-settle {m} km kf kg = record {
    at = λ s h. Leaves-continue (m s).0 (m s).1 (km.at s h) kf kg;
  }

module _ {S A B : Type 0} {P : S → Type 0} {Q : A → S → Type 0} {R : B → S → Type 0}
    {F : Error → S → Type 0} {U : S → Type 0} where
  pub Triple-bind :
      {m : Action S A} {f : A → Action S B}
      → Contract P m Q F U
      → ((x : A) → Contract (Q x) (f x) R F U)
      → Contract P (settle m f raise) R F U
  Triple-bind km kf = Triple-settle km kf (λ e. Triple-raise e (λ s h. h))

module _ {S A : Type 0} {P : S → Type 0} {R : A → S → Type 0} {F : Error → S → Type 0}
    {U : S → Type 0} where
  -- The rest of a block may use that the test has failed.
  pub Triple-guard-bind :
      (b : Bool) (e : Error) {m : Action S A}
      → (b ≡ true → (s : S) → P s → F e s)
      → (b ≡ false → Contract P m R F U)
      → Contract P (guard b e >> m) R F U
  unfolding settle guard
  Triple-guard-bind true e h k = record { at = h refl }
  Triple-guard-bind false e h k = record { at = (k refl).at }

  pub Triple-required-bind :
      {B : Type 0} (o : Option B) {f : B → Action S A}
      → ((s : S) → P s → F argument s)
      → ((b : B) → Contract P (f b) R F U)
      → Contract P (required o >>= f) R F U
  unfolding settle required
  Triple-required-bind none h k = record { at = h }
  Triple-required-bind (some b) h k = record { at = (k b).at }

  -- What is ignored may end in any way.
  pub Triple-ignore-bind :
      {B : Type 0} {G : S → Type 0} {m : Action S B} {n : Action S A}
      → Contract P m (λ _ s. G s) (λ _ s. G s) U
      → Contract G n R F U
      → Contract P (ignore m >> n) R F U
  Triple-ignore-bind km kn =
      Triple-bind
        (Triple-settle km (λ _. Triple-pure tt (λ s h. h)) (λ _. Triple-pure tt (λ s h. h)))
        (λ _. kn)

module _ {S A : Type 0} {P : S → Type 0} {R : A → S → Type 0} {E F : S → Type 0}
    {U : S → Type 0} where
  pub Triple-rescue :
      {m : Action S A} {clean_up : Action S Unit}
      → Contract P m R (λ _ s. E s) U
      → Contract E clean_up (λ _ s. F s) (λ _ s. F s) U
      → Contract P (rescue m clean_up) R (λ _ s. F s) U
  Triple-rescue km kc =
      Triple-settle km (λ a. Triple-pure a (λ s h. h))
        (λ e. Triple-ignore-bind kc (Triple-raise e (λ s h. h)))

module _ {S : Type 0} {P G : S → Type 0} {U : S → Type 0} where
  pub Triple-status_of :
      {m : Action S Unit} {F : Error → S → Type 0}
      → Contract P m (λ _ s. G s) (λ _ s. G s) U
      → Contract P (status_of m) (λ _ s. G s) F U
  Triple-status_of km =
      Triple-settle km (λ _. Triple-pure ok (λ s h. h)) (λ e. Triple-pure (err e) (λ s h. h))

module _ {S A : Type 0} {U U' : S → Type 0} {Q Q' : A → S → Type 0}
    {E E' : Error → S → Type 0} where
  Leaves-weaken :
      (a : Answer A) (s : S)
      → ((x : A) (t : S) → Q' x t → Q x t)
      → ((e : Error) (t : S) → E' e t → E e t)
      → ((t : S) → U' t → U t)
      → Leaves Q' E' U' a s
      → Leaves Q E U a s
  Leaves-weaken (returns a) s f g k h = f a s h
  Leaves-weaken (fails e) s f g k h = g e s h
  Leaves-weaken unfinished s f g k h = k s h

module _ {S A : Type 0} {P U U' : S → Type 0} {Q Q' : A → S → Type 0}
    {E E' : Error → S → Type 0} where
  -- Weaker conditions after, where the fuel has run out too.
  pub Contract-weaken :
      {m : Action S A}
      → ((x : A) (t : S) → Q' x t → Q x t)
      → ((e : Error) (t : S) → E' e t → E e t)
      → ((t : S) → U' t → U t)
      → Contract P m Q' E' U'
      → Contract P m Q E U
  Contract-weaken {m} f g k h = record {
    at = λ s p. Leaves-weaken (m s).0 (m s).1 f g k (h.at s p);
  }

-- What an action returns, of one that may also fail or run out of fuel.
abbrev pub Gives : {S A : Type 0} → (S → Type 0) → Action S A → (A → S → Type 0) → Type 0
Gives P m Q = Contract P m Q (λ _ _. Unit) (λ _. Unit)

module _ {S A : Type 0} where
  Leaves-trivial : (a : Answer A) (s : S) → Leaves (λ _ _. Unit) (λ _ _. Unit) (λ _. Unit) a s
  Leaves-trivial (returns a) s = tt
  Leaves-trivial (fails e) s = tt
  Leaves-trivial unfinished s = tt

module _ {S A : Type 0} {P : S → Type 0} where
  pub Gives-trivial : (m : Action S A) → Gives P m (λ _ _. Unit)
  Gives-trivial m = record { at = λ s h. Leaves-trivial (m s).0 (m s).1 }

module _ {S A : Type 0} {P : S → Type 0} {Q : A → S → Type 0} where
  -- A first part of which nothing is asked.
  pub Gives-after :
      {B : Type 0} (m : Action S B) {f : B → Action S A}
      → ((b : B) → Gives (λ _. Unit) (f b) Q)
      → Gives P (settle m f raise) Q
  Gives-after m kf = Triple-bind (Gives-trivial m) kf

  pub Gives-rescue :
      {m : Action S A} (clean_up : Action S Unit) → Gives P m Q → Gives P (rescue m clean_up) Q
  Gives-rescue clean_up km =
      Triple-settle km (λ a. Triple-pure a (λ s h. h))
        (λ e. Triple-bind (Gives-trivial (ignore clean_up)) (λ _. Triple-raise e (λ s h. h)))
