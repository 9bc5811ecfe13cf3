-- ===== src/Base/Strings.antt =====
-- Equality of strings, as lists of characters.
use mathlib.Core.Path.{◌≡◌, refl, ap₂}
use mathlib.Core.List.{List, [], ◌∷◌}
use mathlib.Core.Bool.{Bool, true, false}
use mathlib.Core.Logic.{inl, inr}
use native.Mathlib.Omega.{arith}
use Prim.Native.Nat.{ℕ}
use async_echo_server.Base.Tests.{◌==◌, if◌then◌else◌, Bool-cases}

unfoldable pub same : List ℕ → List ℕ → Bool
same [] [] = true
same [] (b ∷ ys) = false
same (a ∷ xs) [] = false
same (a ∷ xs) (b ∷ ys) = if a == b then same xs ys else false

pub same→eq : (xs ys : List ℕ) → same xs ys ≡ true → xs ≡ ys
unfolding same
same→eq [] [] e = refl
same→eq [] (y ∷ ys) e = cc
same→eq (x ∷ xs) [] e = cc
same→eq (x ∷ xs) (y ∷ ys) e = elim (Bool-cases (x == y)) [
  | inl t ↦ ap₂ ◌∷◌ (ground (arith, t)) (same→eq xs ys (ground (arith, t, e)))
  | inr f ↦ absurd (ground (arith, f, e))
]
