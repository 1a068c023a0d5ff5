-- ===== src/Base/Words.antt =====
-- C's unsigned arithmetic, wrapped at the width, and byte-addressed memory.
use Prim.Native.Nat.{ℕ, ◌+◌, ◌-◌, ◌*◌, ◌/◌, ◌%◌, ◌^◌}
use revinix_os.Base.Tests.{◌==◌, if◌then◌else◌}

abbrev pub add64 : ℕ → ℕ → ℕ
add64 a b = (a + b) % 2 ^ 64

-- `-` on ℕ stops at 0, so the modulus is added first.
abbrev pub sub64 : ℕ → ℕ → ℕ
sub64 a b = (a + 2 ^ 64 - b) % 2 ^ 64

abbrev pub mul64 : ℕ → ℕ → ℕ
mul64 a b = (a * b) % 2 ^ 64

abbrev pub add32 : ℕ → ℕ → ℕ
add32 a b = (a + b) % 2 ^ 32

abbrev pub sub32 : ℕ → ℕ → ℕ
sub32 a b = (a + 2 ^ 32 - b) % 2 ^ 32

abbrev pub mul32 : ℕ → ℕ → ℕ
mul32 a b = (a * b) % 2 ^ 32

-- A write to a memory of cells of any kind.
unfoldable pub update {ℓ} : {A : Type ℓ} → (ℕ → A) → ℕ → A → ℕ → A
update m a v b = if b == a then v else m b

-- `ALIGN_UP(x, a)` for a power of two `a`, in 64 bits
abbrev pub align_up : ℕ → ℕ → ℕ
align_up x a = (x + (a - 1)) % 2 ^ 64 / a * a

-- little-endian numbers in byte-addressed memory
unfoldable pub read16 : (ℕ → ℕ) → ℕ → ℕ
read16 m a = m a + 256 * m (a + 1)

unfoldable pub read32 : (ℕ → ℕ) → ℕ → ℕ
read32 m a = read16 m a + 65536 * read16 m (a + 2)

unfoldable pub read64 : (ℕ → ℕ) → ℕ → ℕ
read64 m a = read32 m a + 2 ^ 32 * read32 m (a + 4)
