-- ===== src/Mm/Pmm/Marks.antt =====
-- `mark_used` and `mark_free`: what they change, and the counter beside the bitmap.
use revinix_os.Base.{
  ℕ, ◌+◌, ◌-◌, ◌^◌, ◌<◌, ◌≡◌, refl, inl, inr, Bool, true, not, ◌&&◌, ◌||◌, arith, ◌==◌,
  if◌then◌else◌, Bool-cases, with_bit_lem, without_bit_lem, update, ◌%◌, add64,
}
use revinix_os.Mm.Pmm.{Pmm, slot, bitmap_set, bitmap_clear, bitmap_test, mark_used, mark_free}
use revinix_os.Mm.Pmm.Bitmap.{
  IsBytes, IsValid, count, count-le, count_add, count_same, test-set, test-clear,
}

-- The statics that the marking operations leave alone.
pub record SameStatics (p q : Pmm) : Type 0 where
  pub bitmap : q.bitmap ≡ p.bitmap
  pub bitmap_phys : q.bitmap_phys ≡ p.bitmap_phys
  pub total : q.total_frames ≡ p.total_frames
  pub size : q.bitmap_size ≡ p.bitmap_size
  pub start : q.module_start ≡ p.module_start
  pub end : q.module_end ≡ p.module_end

module _ (p : Pmm) (f : ℕ) where
  pub mark_used-SameStatics : SameStatics p (mark_used p f)
  unfolding mark_used
  mark_used-SameStatics = ground arith

  pub mark_free-SameStatics : SameStatics p (mark_free p f)
  unfolding mark_free
  mark_free-SameStatics = ground arith

  pub set-IsBytes : IsBytes p → IsBytes (bitmap_set p f)
  unfolding bitmap_set update
  set-IsBytes h a = ground (arith, h a, with_bit_lem (p.mem (slot p f)) (f % 8) 0 (h (slot p f)))

  pub clear-IsBytes : IsBytes p → IsBytes (bitmap_clear p f)
  unfolding bitmap_clear update
  clear-IsBytes h a =
      ground (arith, h a, without_bit_lem (p.mem (slot p f)) (f % 8) 0 (h (slot p f)))

  -- The bitmap does not depend on the counter.
  test-counted : (g n : ℕ) → bitmap_test (record p { used_frames = n }) g ≡ bitmap_test p g
  unfolding bitmap_test
  test-counted g n = refl

module _ (p : Pmm) (f : ℕ) where
  pub test-mark_used :
      (g : ℕ) → IsBytes p → bitmap_test (mark_used p f) g ≡ (f == g || bitmap_test p g)
  unfolding mark_used
  test-mark_used g h = ground (
    arith,
    test-set p f g h,
    test-counted (bitmap_set p f) f g (add64 (bitmap_set p f).used_frames 1),
  )

  pub test-mark_free :
      (g : ℕ) → IsBytes p → bitmap_test (mark_free p f) g ≡ (not (f == g) && bitmap_test p g)
  unfolding mark_free
  test-mark_free g h = ground (
    arith,
    test-clear p f g h,
    test-counted (bitmap_clear p f) f g (add64 (bitmap_clear p f).used_frames (2 ^ 64 - 1)),
  )

  pub mark_used-IsBytes : IsBytes p → IsBytes (mark_used p f)
  unfolding mark_used
  mark_used-IsBytes h = elim (Bool-cases (bitmap_test p f)) [
    | inl e ↦ rw e h
    | inr e ↦ rw e (set-IsBytes p f h)
  ]

  pub mark_free-IsBytes : IsBytes p → IsBytes (mark_free p f)
  unfolding mark_free
  mark_free-IsBytes h = elim (Bool-cases (bitmap_test p f)) [
    | inl e ↦ rw e (clear-IsBytes p f h)
    | inr e ↦ rw e h
  ]

  -- A frame that was free is counted once more, one that was used is not.
  pub used-mark_used :
      p.used_frames < 2 ^ 64 - 1
      → (mark_used p f).used_frames ≡ p.used_frames + (if bitmap_test p f then 0 else 1)
  unfolding mark_used bitmap_set
  used-mark_used h = ground arith

  pub used-mark_free :
      p.used_frames < 2 ^ 64
      → (bitmap_test p f ≡ true → 0 < p.used_frames)
      → (mark_free p f).used_frames + (if bitmap_test p f then 1 else 0) ≡ p.used_frames
  unfolding mark_free bitmap_clear
  used-mark_free h k = ground arith

  module _ (v : IsValid p) (lt : f < p.total_frames) where
    total : ℕ
    total = p.total_frames

    used : ℕ → Bool
    used = bitmap_test p

    counted-mark_used : (mark_used p f).used_frames ≡ count (bitmap_test (mark_used p f)) total
    unfolding total used
    counted-mark_used = elim (Bool-cases (used f)) [
      | inl on ↦ ground (
        arith,
        used-mark_used,
        count-le used total,
        count_same total (bitmap_test (mark_used p f)) used
            (λ g below. ground (arith, test-mark_used g v.bytes)),
      )
      | inr off ↦ ground (
        arith,
        used-mark_used,
        count-le used total,
        count_add total used (bitmap_test (mark_used p f)) f lt off (λ g. test-mark_used g v.bytes),
      )
    ]

    counted-mark_free : (mark_free p f).used_frames ≡ count (bitmap_test (mark_free p f)) total
    unfolding total used
    counted-mark_free = elim (Bool-cases (used f)) [
      | inl on ↦ ground (
        arith,
        used-mark_free,
        count-le used total,
        count_add total (bitmap_test (mark_free p f)) used f lt
            (ground (arith, test-mark_free f v.bytes))
            (λ g. ground (arith, test-mark_free g v.bytes)),
      )
      | inr off ↦ ground (
        arith,
        used-mark_free,
        count-le used total,
        count_same total (bitmap_test (mark_free p f)) used
            (λ g below. ground (arith, test-mark_free g v.bytes)),
      )
    ]

    pub mark_used-IsValid : IsValid (mark_used p f)
    unfolding total
    mark_used-IsValid = record {
      bytes = mark_used-IsBytes v.bytes;
      counted = simp ((mark_used-SameStatics p f).total) counted-mark_used;
      fits = simp ((mark_used-SameStatics p f).total) v.fits;
    }

    pub mark_free-IsValid : IsValid (mark_free p f)
    unfolding total
    mark_free-IsValid = record {
      bytes = mark_free-IsBytes v.bytes;
      counted = simp ((mark_free-SameStatics p f).total) counted-mark_free;
      fits = simp ((mark_free-SameStatics p f).total) v.fits;
    }
