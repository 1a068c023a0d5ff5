-- ===== src/Base/Masks.antt =====
-- `&` with a mask, as arithmetic.
use Prim.Native.Nat.{ℕ, zero, suc, ◌+◌, ◌-◌, ◌*◌, ◌/◌, ◌%◌, ◌^◌, ◌≤◌, min, bit_and, bit_and-bitwise}
use mathlib.Core.Path.{◌≡◌, refl, ap}
use native.Mathlib.Nat.{
  pow-suc, one-le-pow, mul_comm, div-div-eq-div-mul, div-one, mul-one, mod-eq-sub-div-mul,
  div-mul-le_self,
}
use native.Mathlib.Omega.{arith}
use revinix_os.Base.Digits.{last_digit}
use revinix_os.Base.Tests.{◌==◌}
use revinix_os.Base.Bits.{has_bit}

pub bit_and_step : (a b : ℕ) → bit_and a b ≡ bit_and (a / 2) (b / 2) * 2 + min (a % 2) (b % 2)
bit_and_step zero b = let at = bit_and-bitwise 0 in omega (arith, at b, at (b / 2))
bit_and_step (suc a) b = last_digit (λ y. zero) min bit_and bit_and-bitwise a b

-- by the number of digits
and_none : (bound a : ℕ) → a ≤ bound → bit_and a 0 ≡ 0
and_none bound zero small = refl
and_none zero (suc a) small = absurd (omega arith)
and_none (suc bound) (suc a) small =
    let halved = and_none bound (suc a / 2) (omega arith) in
    omega (arith, halved, bit_and_step (suc a) 0)

pub bit_and-zero : (a : ℕ) → bit_and a 0 ≡ 0
bit_and-zero a = and_none a a (omega arith)

half_first : (k a : ℕ) → a / 2 ^ suc k ≡ a / 2 / 2 ^ k
half_first k a = rw (div-div-eq-div-mul, pow-suc, mul_comm (2 ^ k) 2)

double_pow : (m k : ℕ) → m * 2 ^ suc k ≡ 2 * (m * 2 ^ k)
double_pow m k = omega (arith, ap (λ (t : ℕ). m * t) (pow-suc 2 k))

half_mod : (k a : ℕ) → a % 2 ^ suc k ≡ 2 * (a / 2 % 2 ^ k) + a % 2
half_mod k a = omega (
  arith,
  mod-eq-sub-div-mul a (2 ^ suc k),
  mod-eq-sub-div-mul (a / 2) (2 ^ k),
  double_pow (a / 2 ^ suc k) k,
  ap (λ (t : ℕ). t * 2 ^ k) (half_first k a),
  div-mul-le_self (a / 2) (2 ^ k),
)

-- A mask of `k` low bits is the remainder by `2 ^ k`.
pub bit_and_mask : (k a : ℕ) → bit_and a (2 ^ k - 1) ≡ a % 2 ^ k
bit_and_mask zero a = rw bit_and-zero (omega arith)
bit_and_mask (suc k) a =
    let half : (2 ^ suc k - 1) / 2 ≡ 2 ^ k - 1 = omega (arith, pow-suc 2 k, one-le-pow k 2) in
    omega (
      arith,
      bit_and_step a (2 ^ suc k - 1),
      ap (bit_and (a / 2)) half,
      pow-suc 2 k,
      one-le-pow k 2,
      half_mod k a,
      bit_and_mask k (a / 2),
    )

-- A mask moved up by `k` bits.
pub bit_and_shifted : (k a m : ℕ) → bit_and a (m * 2 ^ k) ≡ bit_and (a / 2 ^ k) m * 2 ^ k
bit_and_shifted zero a m = simp (div-one, mul-one)
bit_and_shifted (suc k) a m =
    let half : m * 2 ^ suc k / 2 ≡ m * 2 ^ k = omega (arith, double_pow m k) in
    rw (half_first k a, double_pow (bit_and (a / 2 / 2 ^ k) m) k)
      (omega (
        arith,
        bit_and_step a (m * 2 ^ suc k),
        ap (bit_and (a / 2)) half,
        double_pow m k,
        bit_and_shifted k (a / 2) m,
      ))

pub bit_and-one : (a : ℕ) → bit_and a 1 ≡ a % 2
bit_and-one a = bit_and_mask 1 a

-- the test of a single bit, of a word of any width
pub has_bit_lem : (x k : ℕ) → has_bit x k ≡ (x / 2 ^ k % 2 == 1)
unfolding has_bit
has_bit_lem x k =
    let e : bit_and x (1 * 2 ^ k) ≡ bit_and (x / 2 ^ k) 1 * 2 ^ k = bit_and_shifted k x 1 in
    ground (
      arith,
      e,
      bit_and-one (x / 2 ^ k),
      one-le-pow k 2,
      ap (λ (t : ℕ). t * 2 ^ k) (bit_and-one (x / 2 ^ k)),
    )
