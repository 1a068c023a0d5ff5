-- ===== src/Base/Bits.antt =====
-- Single bits of a byte, with their laws checked over every byte.
use Prim.Native.Nat.{ℕ, zero, suc, ◌+◌, ◌-◌, ◌*◌, ◌/◌, ◌%◌, ◌^◌, ◌<◌, bit_and, bit_or}
use mathlib.Core.Path.{◌≡◌, refl}
use mathlib.Core.Bool.{Bool, true, false, not, ◌&&◌, ◌||◌}
use native.Mathlib.Omega.{arith}
use revinix_os.Base.Tests.{◌==◌, ltb, ltb→lt}

-- `x & (1 << k)` as a test, `x | (1 << k)` and `x & ~(1 << k)`, for a byte `x` and `k` below 8
unfoldable pub has_bit : ℕ → ℕ → Bool
has_bit x k = not (bit_and x (2 ^ k) == 0)

unfoldable pub with_bit : ℕ → ℕ → ℕ
with_bit x k = bit_or x (2 ^ k)

unfoldable pub without_bit : ℕ → ℕ → ℕ
without_bit x k = bit_and x (255 - 2 ^ k)

-- a test of all numbers below a bound
every : ℕ → (ℕ → Bool) → Bool
every zero test = true
every (suc bound) test = every bound test && test bound

every-at : (test : ℕ → Bool) (bound i : ℕ) → i < bound → every bound test ≡ true → test i ≡ true
unfolding every
every-at test zero i lt all = absurd (omega arith)
every-at test (suc bound) i lt all = let lower = every-at test bound i in ground (arith, lower)

abbrev iff : Bool → Bool → Bool
iff true b = b
iff false b = not b

abbrev with_law : ℕ → ℕ → ℕ → Bool
with_law x k j = iff (has_bit (with_bit x k) j) (k == j || has_bit x j) && ltb (with_bit x k) 256

abbrev without_law : ℕ → ℕ → ℕ → Bool
without_law x k j =
    iff (has_bit (without_bit x k) j) (not (k == j) && has_bit x j) && ltb (without_bit x k) 256

with_table : every 16384 (λ n. with_law (n / 64) (n / 8 % 8) (n % 8)) ≡ true
unfolding every has_bit with_bit
with_table = refl

without_table : every 16384 (λ n. without_law (n / 64) (n / 8 % 8) (n % 8)) ≡ true
unfolding every has_bit without_bit
without_table = refl

iff_split : (a b c : Bool) → (iff a b && c) ≡ true → (a ≡ b) × (c ≡ true)
iff_split a b c h = ground arith

-- The three numbers packed in `x * 64 + k * 8 + j`.
law_at :
    (law : ℕ → ℕ → ℕ → Bool) (x k j : ℕ)
    → every 16384 (λ n. law (n / 64) (n / 8 % 8) (n % 8)) ≡ true
    → x < 256
    → k < 8
    → j < 8
    → law x k j ≡ true
law_at law x k j table hx hk hj =
    let n : ℕ = x * 64 + k * 8 + j in
    let ex : n / 64 ≡ x = omega arith in
    let ek : n / 8 % 8 ≡ k = omega arith in
    let ej : n % 8 ≡ j = omega arith in
    rw (ex, ek, ej) at
      (every-at (λ m. law (m / 64) (m / 8 % 8) (m % 8)) 16384 n (omega arith) table)

module _ (x k j : ℕ) (hx : x < 256) (hk : k < 8) (hj : j < 8) where
  pub with_bit_lem : (has_bit (with_bit x k) j ≡ (k == j || has_bit x j)) × (with_bit x k < 256)
  with_bit_lem =
      let (e, lt) =
        iff_split (has_bit (with_bit x k) j) _ (ltb (with_bit x k) 256)
          (law_at with_law x k j with_table hx hk hj) in
      (e, ltb→lt _ _ lt)

  pub without_bit_lem :
      (has_bit (without_bit x k) j ≡ (not (k == j) && has_bit x j)) × (without_bit x k < 256)
  without_bit_lem =
      let (e, lt) =
        iff_split (has_bit (without_bit x k) j) _ (ltb (without_bit x k) 256)
          (law_at without_law x k j without_table hx hk hj) in
      (e, ltb→lt _ _ lt)
