-- ===== src/Base/Digits.antt =====
-- The binary recursion behind the bitwise operations: what it does at a positive number, once it has
-- as much fuel as the number needs.
use Prim.Native.Nat.{ℕ, zero, suc, ◌+◌, ◌*◌, ◌/◌, ◌%◌, ◌≤◌, digits}
use mathlib.Core.Path.{◌≡◌, refl}
use native.Mathlib.Omega.{arith}

module _ (rest : ℕ → ℕ) (op : ℕ → ℕ → ℕ) where
  enough :
      (left k : ℕ) (x y : ℕ) → x ≤ left → x ≤ k → digits rest op left x y ≡ digits rest op k x y
  enough zero zero zero y h h' = refl
  enough zero (suc k) zero y h h' = refl
  enough (suc left) zero zero y h h' = refl
  enough (suc left) (suc k) zero y h h' = refl
  enough zero k (suc x) y h h' = absurd (omega arith)
  enough (suc left) zero (suc x) y h h' = absurd (omega arith)
  enough (suc left) (suc k) (suc x) y h h' =
      let lower = enough left k (suc x / 2) (y / 2) (omega arith) (omega arith) in
      omega (arith, lower)

  -- An operation given by the recursion treats the last digit apart.
  pub last_digit :
      (f : ℕ → ℕ → ℕ)
      → ((x y : ℕ) → f x y ≡ digits rest op x x y)
      → (x y : ℕ) → f (suc x) y ≡ f (suc x / 2) (y / 2) * 2 + op (suc x % 2) (y % 2)
  last_digit f is x y =
      let lower = enough x (suc x / 2) (suc x / 2) (y / 2) (omega arith) (omega arith) in
      omega (arith, is (suc x) y, is (suc x / 2) (y / 2), lower)
