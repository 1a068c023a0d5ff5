-- ===== src/Base/Wide.antt =====
-- `|` at every width, from the digit recursion that the native operation stands for.
use Prim.Native.Nat.{ℕ, zero, suc, ◌+◌, ◌*◌, ◌/◌, ◌%◌, ◌^◌, ◌≤◌, max, bit_or, bit_or-bitwise}
use mathlib.Core.Path.{◌≡◌, refl}
use native.Mathlib.Omega.{arith}
use revinix_os.Base.Digits.{last_digit}
use native.Mathlib.Nat.{div-div-eq-div-mul, pow-suc, mul_comm, div-one}

bit_or_step : (a b : ℕ) → bit_or a b ≡ bit_or (a / 2) (b / 2) * 2 + max (a % 2) (b % 2)
bit_or_step zero b = let at = bit_or-bitwise 0 in omega (arith, at b, at (b / 2))
bit_or_step (suc a) b = last_digit (λ y. y) max bit_or bit_or-bitwise a b

-- by the number of digits
or_none : (bound a : ℕ) → a ≤ bound → bit_or a 0 ≡ a
or_none bound zero small = refl
or_none zero (suc a) small = absurd (omega arith)
or_none (suc bound) (suc a) small =
    let halved = or_none bound (suc a / 2) (omega arith) in
    omega (arith, halved, bit_or_step (suc a) 0)

pub bit_or-zero : (a : ℕ) → bit_or a 0 ≡ a
bit_or-zero a = or_none a a (omega arith)

pub bit_or-mod : (a b : ℕ) → bit_or a b % 2 ≡ max (a % 2) (b % 2)
bit_or-mod a b = omega (arith, bit_or_step a b)

bit_or-half : (a b : ℕ) → bit_or a b / 2 ≡ bit_or (a / 2) (b / 2)
bit_or-half a b = omega (arith, bit_or_step a b)

half_first : (k a : ℕ) → a / 2 ^ suc k ≡ a / 2 / 2 ^ k
half_first k a = rw (div-div-eq-div-mul, pow-suc, mul_comm (2 ^ k) 2)

pub bit_or-div : (k a b : ℕ) → bit_or a b / 2 ^ k ≡ bit_or (a / 2 ^ k) (b / 2 ^ k)
bit_or-div zero a b = simp div-one
bit_or-div (suc k) a b =
    rw (half_first k (bit_or a b), half_first k a, half_first k b, bit_or-half)
      (bit_or-div k (a / 2) (b / 2))
