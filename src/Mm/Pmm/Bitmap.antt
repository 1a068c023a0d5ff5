-- ===== src/Mm/Pmm/Bitmap.antt =====
-- The bitmap as a set of used frames, and the counter beside it.
use revinix_os.Base.{
  ℕ, zero, suc, ◌+◌, ◌%◌, ◌^◌, ◌≤◌, ◌<◌, ◌≡◌, refl, inl, inr, Bool, false, not, ◌&&◌, ◌||◌, arith,
  ◌==◌, if◌then◌else◌, Bool-cases, update, with_bit_lem, without_bit_lem,
}
use revinix_os.Mm.Pmm.{Pmm, slot, bitmap_set, bitmap_clear, bitmap_test}

abbrev pub IsBytes : Pmm → Type 0
IsBytes p = (a : ℕ) → p.mem a < 256

-- the frames below `n` that `used` holds of
abbrev pub count : (ℕ → Bool) → ℕ → ℕ
count used zero = 0
count used (suc n) = (if used n then 1 else 0) + count used n

-- Memory holds bytes, and `used_frames` counts the used frames below `total_frames`.
pub record IsValid (p : Pmm) : Type 0 where
  pub bytes : IsBytes p
  pub counted : p.used_frames ≡ count (bitmap_test p) p.total_frames
  pub fits : p.total_frames ≤ 2 ^ 52

pub count-le : (used : ℕ → Bool) (n : ℕ) → count used n ≤ n
count-le used zero = omega arith
count-le used (suc n) = ground (arith, count-le used n)

-- Two sets that agree below `n` count alike.
pub count_same : (n : ℕ) (a b : ℕ → Bool) → ((g : ℕ) → g < n → a g ≡ b g) → count a n ≡ count b n
count_same zero a b h = refl
count_same (suc n) a b h = ground (arith, h n, count_same n a b (λ g lt. h g (omega arith)))

-- `b` is `a` with `f` added.
pub count_add :
    (n : ℕ) (a b : ℕ → Bool) (f : ℕ)
    → f < n
    → a f ≡ false
    → ((g : ℕ) → b g ≡ (f == g || a g))
    → count b n ≡ count a n + 1
count_add zero a b f lt off h = absurd (omega arith)
count_add (suc n) a b f lt off h = elim (Bool-cases (f == n)) [
  | inl e ↦ ground (arith, h n, count_same n b a (λ g lt. ground (arith, h g)))
  | inr e ↦ ground (arith, h n, count_add n a b f (ground arith) off h)
]

module _ (p : Pmm) (f g : ℕ) (bytes : IsBytes p) where
  pub test-set : bitmap_test (bitmap_set p f) g ≡ (f == g || bitmap_test p g)
  unfolding bitmap_set bitmap_test update
  test-set =
      ground (
        arith,
        bytes (slot p f),
        with_bit_lem (p.mem (slot p f)) (f % 8) (g % 8) (bytes (slot p f)),
      )

  pub test-clear : bitmap_test (bitmap_clear p f) g ≡ (not (f == g) && bitmap_test p g)
  unfolding bitmap_clear bitmap_test update
  test-clear = ground (
    arith,
    bytes (slot p f),
    without_bit_lem (p.mem (slot p f)) (f % 8) (g % 8) (bytes (slot p f)),
  )
