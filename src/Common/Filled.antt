-- ===== src/Common/Filled.antt =====
-- Storage that is written from front to back.
use pbns.Common.Lists.{length, drop, set, length-append}
use Prim.Native.Nat.{ℕ, zero, suc, ◌+◌, ◌<◌}
use mathlib.Core.Path.{◌≡◌, sym, ap, ◌∙◌}
use mathlib.Core.List.{List, [], ◌∷◌, ◌++◌, append_assoc}
use native.Mathlib.Omega.{arith}

module _ {ℓ} {A : Type ℓ} where
  pub drop-drop : (m n : ℕ) (xs : List A) → drop n (drop m xs) ≡ drop (m + n) xs
  drop-drop zero n xs = let e : zero + n ≡ n = omega arith in rw e
  drop-drop (suc m) zero [] = let e : suc m + zero ≡ suc m = omega arith in rw e
  drop-drop (suc m) (suc n) [] = let e : suc m + suc n ≡ suc (m + suc n) = omega arith in rw e
  drop-drop (suc m) n (x ∷ xs) =
      let e : suc m + n ≡ suc (m + n) = omega arith in rw e (drop-drop m n xs)

  -- The list `pre ++ room` with `chunk` written over it from the end of `pre` on.
  abbrev pub filled : List A → List A → List A → List A
  filled pre chunk room = pre ++ (chunk ++ drop (length chunk) room)

  pub filled-append :
      (pre chunk more room : List A)
      → filled (pre ++ chunk) more (drop (length chunk) room) ≡ filled pre (chunk ++ more) room
  filled-append pre chunk more room =
      rw (drop-drop (length chunk) (length more) room, ← length-append chunk more)
        (append_assoc pre chunk (more ++ drop (length (chunk ++ more)) room)
          ∙ ap (λ t. pre ++ t) (sym (append_assoc chunk more _)))

  set-front :
      (chunk room : List A) (i : ℕ) (v : A)
      → length chunk < length room
      → i ≡ length chunk
      → set (chunk ++ drop (length chunk) room) i v
        ≡ (chunk ++ v ∷ []) ++ drop (length (chunk ++ v ∷ [])) room
  set-front [] [] i v h e = absurd (omega arith)
  set-front [] (r ∷ room) i v h e = rw e
  set-front (c ∷ chunk) [] i v h e = absurd (omega arith)
  set-front (c ∷ chunk) (r ∷ room) zero v h e = absurd (omega arith)
  set-front (c ∷ chunk) (r ∷ room) (suc i) v h e =
      ap (◌∷◌ c) (set-front chunk room i v (omega arith) (omega arith))

  pub set-filled :
      (pre chunk room : List A) (i : ℕ) (v : A)
      → length chunk < length room
      → i ≡ length pre + length chunk
      → set (filled pre chunk room) i v ≡ filled pre (chunk ++ v ∷ []) room
  set-filled [] chunk room i v h e = set-front chunk room i v h (omega arith)
  set-filled (p ∷ pre) chunk room zero v h e = absurd (omega arith)
  set-filled (p ∷ pre) chunk room (suc i) v h e =
      ap (◌∷◌ p) (set-filled pre chunk room i v h (omega arith))
