-- ===== src/Mm/Pmm/Alloc.antt =====
-- `pmm_alloc_frame` is first fit, and `pmm_free_frame` takes it back.
use revinix_os.Base.{
  ℕ, zero, suc, ◌+◌, ◌-◌, ◌*◌, ◌^◌, ◌≤◌, ◌<◌, ◌≡◌, refl, ap, ◌≢◌, ◌⊎◌, inl, inr, true, false, ◌||◌,
  arith, ◌==◌, Bool-cases,
}
use revinix_os.Mm.Pmm.{
  Pmm, frame_size, bitmap_test, mark_used, mark_free, alloc_scan, alloc_frame, free_frame,
}
use revinix_os.Mm.Pmm.Bitmap.{IsValid, count-le}
use revinix_os.Mm.Pmm.Marks.{
  SameStatics, mark_used-SameStatics, test-mark_used, test-mark_free, mark_used-IsValid,
  mark_free-IsValid, used-mark_used, used-mark_free,
}

-- `f` is the first free frame of `[lo, total)`.
pub record FirstFree (p : Pmm) (lo f : ℕ) : Type 0 where
  pub above : lo ≤ f
  pub below : f < p.total_frames
  pub free : bitmap_test p f ≡ false
  pub first : (g : ℕ) → lo ≤ g → g < f → bitmap_test p g ≡ true

abbrev pub AllUsed : Pmm → ℕ → Type 0
AllUsed p lo = (g : ℕ) → lo ≤ g → g < p.total_frames → bitmap_test p g ≡ true

-- What a first-fit search from `lo` may answer.
abbrev pub FirstFit : Pmm → ℕ → ℕ × Pmm → Type 0
FirstFit p lo out =
    ((out ≡ (0, p)) × AllUsed p lo)
    ⊎ ((f : ℕ) × FirstFree p lo f × (out ≡ (f * frame_size, mark_used p f)))

FirstFit-step :
    (p : Pmm) (i : ℕ) (out : ℕ × Pmm)
    → bitmap_test p i ≡ true
    → FirstFit p (i + 1) out
    → FirstFit p i out
FirstFit-step p i out on (inl (e, all)) = inl (e, λ g lo hi. ground (arith, all g))
FirstFit-step p i out on (inr (f, found, e)) = inr (
  f,
  record {
    above = omega (arith, found.above);
    below = found.below;
    free = found.free;
    first = λ g lo hi. ground (arith, found.first g);
  },
  e,
)

pub alloc_scan-FirstFit :
    (left i : ℕ) (p : Pmm)
    → p.total_frames ≤ 2 ^ 52
    → p.total_frames ≤ i + left
    → i + left ≤ p.total_frames ⊎ (left ≡ 0)
    → FirstFit p i (alloc_scan left i p)
unfolding alloc_scan
alloc_scan-FirstFit zero i p small top bot = inl (refl, λ g lo hi. absurd (omega arith))
alloc_scan-FirstFit (suc left) i p small top bot = elim (Bool-cases (bitmap_test p i)) [
  | inl on ↦ rw on (
      FirstFit-step p i (alloc_scan left (i + 1) p) on
        (alloc_scan-FirstFit left (i + 1) p small (omega arith) (omega arith)))
  | inr off ↦ rw off (
      inr (
        i,
        record {
          above = omega arith;
          below = omega arith;
          free = off;
          first = λ g lo hi. absurd (omega arith);
        },
        ap (λ (a : ℕ). (a, mark_used p i)) (omega arith),
      ))
]

-- What an allocation leaves behind: the frame `f` is used now, and nothing else has changed.
pub record Taken (p : Pmm) (f : ℕ) (q : Pmm) : Type 0 where
  pub valid : IsValid q
  pub used : (g : ℕ) → bitmap_test q g ≡ (f == g || bitmap_test p g)
  pub counted : q.used_frames ≡ p.used_frames + 1
  pub statics : SameStatics p q

pub Taken-mark_used :
    (p : Pmm) (f : ℕ)
    → IsValid p
    → f < p.total_frames
    → bitmap_test p f ≡ false
    → Taken p f (mark_used p f)
Taken-mark_used p f v lt off = record {
  valid = mark_used-IsValid p f v lt;
  used = λ g. test-mark_used p f g v.bytes;
  counted = ground (arith, used-mark_used p f, count-le (bitmap_test p) p.total_frames);
  statics = mark_used-SameStatics p f;
}

-- `pmm_alloc_frame`, in a valid state, either answers 0, changes nothing, and every frame from 1
-- on is used; or it answers the address of the first free frame from 1 on, which was free, is used
-- now and is counted, while every other frame is as before.
pub alloc_frame-Taken :
    (p : Pmm)
    → IsValid p
    → ((alloc_frame p ≡ (0, p)) × AllUsed p 1)
      ⊎ ((f : ℕ) × FirstFree p 1 f
          × ((alloc_frame p).0 ≡ f * frame_size)
          × Taken p f (alloc_frame p).1)
unfolding alloc_frame
alloc_frame-Taken p v =
    go (alloc_scan-FirstFit (p.total_frames - 1) 1 p v.fits (omega arith) (omega arith))
  where
    go :
        {out : ℕ × Pmm}
        → FirstFit p 1 out
        → ((out ≡ (0, p)) × AllUsed p 1)
          ⊎ ((f : ℕ) × FirstFree p 1 f × (out.0 ≡ f * frame_size) × Taken p f out.1)
    go (inl h) = inl h
    go (inr (f, found, e)) =
        inr (f, found, rw e, rw e (Taken-mark_used p f v found.below found.free))

pub free_frame-address : (p : Pmm) (f : ℕ) → free_frame p (f * frame_size) ≡ mark_free p f
unfolding free_frame
free_frame-address p f = ap (mark_free p) (omega arith)

-- Freeing the frame that `pmm_alloc_frame` has just handed out restores the bitmap and the count.
pub free_frame-alloc_frame :
    (p : Pmm)
    → IsValid p
    → (alloc_frame p).0 ≢ 0
    → let q = free_frame (alloc_frame p).1 (alloc_frame p).0 in
      IsValid q × (q.used_frames ≡ p.used_frames) × ((g : ℕ) → bitmap_test q g ≡ bitmap_test p g)
free_frame-alloc_frame p v ne = elim (alloc_frame-Taken p v) [
  | inl (e, all) ↦ absurd (ne (ap (λ (out : ℕ × Pmm). out.0) e))
  | inr (f, found, e, taken) ↦
      rw (e, free_frame-address)
        (let q : Pmm = (alloc_frame p).1 in
          let in_q : f < q.total_frames = ground (arith, found.below, taken.statics.total) in
          let count_q = count-le (bitmap_test q) q.total_frames in
          (
            mark_free-IsValid q f taken.valid in_q,
            ground (
              arith,
              used-mark_free q f,
              taken.used f,
              taken.counted,
              taken.valid.counted,
              taken.valid.fits,
              count_q,
            ),
            λ g. ground (arith, test-mark_free q f g taken.valid.bytes, taken.used g, found.free),
          ))
]
