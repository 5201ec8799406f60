-- ===== src/Common/Checks.antt =====
-- A run of early returns: the checks of a function in order, the first failure being its status.
use mathlib.Core.Path.{◌≡◌, refl}
use mathlib.Core.Logic.{◌⊎◌, inl, inr}
use mathlib.Core.Bool.{Bool, true, false}
use mathlib.Core.List.{List, [], ◌∷◌}
use native.Mathlib.Omega.{arith}
use pbns.Common.Tests.{if◌then◌else◌}
use pbns.Common.Codes.{Status, ok, err, Error}

-- `if (bad) { return error; }`
abbrev pub refuse_if : Bool → Error → Status
refuse_if bad error = if bad then err error else ok

unfoldable pub checks : List Status → Status
checks [] = ok
checks (ok ∷ rest) = checks rest
checks (err e ∷ rest) = err e

abbrev pub Passed : List Status → Type 0
Passed [] = Unit
Passed (s ∷ rest) = (s ≡ ok) × Passed rest

pub checks-Passed : (ss : List Status) → checks ss ≡ ok → Passed ss
unfolding checks
checks-Passed [] h = tt
checks-Passed (ok ∷ rest) h = (refl, checks-Passed rest h)
checks-Passed (err e ∷ rest) h = ground arith

pub Passed-checks : (ss : List Status) → Passed ss → checks ss ≡ ok
unfolding checks
Passed-checks [] h = refl
Passed-checks (ok ∷ rest) h = Passed-checks rest h.1
Passed-checks (err e ∷ rest) h = ground arith

pub refuse_if-false : (bad : Bool) (e : Error) → refuse_if bad e ≡ ok → bad ≡ false
refuse_if-false true e h = ground arith
refuse_if-false false e h = refl

pub refuse_if-ok : (bad : Bool) (e : Error) → bad ≡ false → refuse_if bad e ≡ ok
refuse_if-ok bad e h = rw h

pub Status-cases : (s : Status) → (s ≡ ok) ⊎ ((e : Error) × (s ≡ err e))
Status-cases ok = inl refl
Status-cases (err e) = inr (e, refl)
