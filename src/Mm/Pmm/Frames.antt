-- ===== src/Mm/Pmm/Frames.antt =====
-- The frame allocator of pmm.c fills the interface that paging asks for.
use revinix_os.Base.{
  ℕ, ◌*◌, ◌/◌, ◌%◌, ◌^◌, ◌≤◌, ◌<◌, ◌≡◌, ap, ◌≢◌, inl, inr, Bool, false, ◌&&◌, ◌||◌, arith, ◌==◌,
}
use revinix_os.Mm.Frames.{Allocator}
use revinix_os.Mm.Pmm.{Pmm, bitmap_test, alloc_frame, free_frame}
use revinix_os.Mm.Pmm.Bitmap.{IsValid}
use revinix_os.Mm.Pmm.Alloc.{alloc_frame-Taken}

abbrev frame_used : Pmm → ℕ → Bool
frame_used p a = bitmap_test p (a / 4096) && (a % 4096 == 0)

-- At most 2 ^ 40 frames: a physical address has 52 bits.
abbrev IsSmall : Pmm → Type 0
IsSmall p = IsValid p × (p.total_frames ≤ 2 ^ 40)

pub alloc-IsSmall : (p : Pmm) → IsSmall p → IsSmall (alloc_frame p).1
alloc-IsSmall p (v, small) = elim (alloc_frame-Taken p v) [
  | inl (e, all) ↦ rw e (v, small)
  | inr (f, found, e, taken) ↦ (taken.valid, omega (arith, taken.statics.total))
]

pub alloc_aligned : (p : Pmm) → IsSmall p → (f : ℕ) × ((alloc_frame p).0 ≡ f * 4096) × (f < 2 ^ 40)
alloc_aligned p (v, small) = elim (alloc_frame-Taken p v) [
  | inl (e, all) ↦ (0, ap (λ (out : ℕ × Pmm). out.0) e, omega arith)
  | inr (f, found, e, taken) ↦ (f, e, omega (arith, found.below))
]

pub alloc_fresh :
    (p : Pmm) → IsSmall p → (alloc_frame p).0 ≢ 0 → frame_used p (alloc_frame p).0 ≡ false
alloc_fresh p (v, small) got = elim (alloc_frame-Taken p v) [
  | inl (e, all) ↦ absurd (got (ap (λ (out : ℕ × Pmm). out.0) e))
  | inr (f, found, e, taken) ↦
      let back : f * 4096 / 4096 ≡ f = omega arith in rw (e, back, found.free)
]

pub alloc_used :
    (p : Pmm) (a : ℕ)
    → IsSmall p
    → (alloc_frame p).0 ≢ 0
    → frame_used (alloc_frame p).1 a ≡ ((alloc_frame p).0 == a || frame_used p a)
alloc_used p a (v, small) got = elim (alloc_frame-Taken p v) [
  | inl (e, all) ↦ absurd (got (ap (λ (out : ℕ × Pmm). out.0) e))
  | inr (f, found, e, taken) ↦ ground (arith, taken.used (a / 4096))
]

-- `pmm_alloc_frame` and `pmm_free_frame` as the frame allocator of the rest of the kernel
abbrev pub pmm_allocator : Allocator
pmm_allocator = record {
  State = Pmm;
  alloc = alloc_frame;
  free = free_frame;
  total = λ p. p.total_frames;
  used = frame_used;
  Valid = IsSmall;
  alloc_valid = alloc-IsSmall;
  alloc_aligned = alloc_aligned;
  alloc_fresh = alloc_fresh;
  alloc_used = alloc_used;
}
