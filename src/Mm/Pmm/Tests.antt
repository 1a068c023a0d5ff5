-- ===== src/Mm/Pmm/Tests.antt =====
-- Runs of the frame allocator, and its theorems at small states.
use revinix_os.Base.{
  ℕ, ◌*◌, ◌/◌, ◌≡◌, refl, ◌≢◌, ◌⊎◌, List, [], ◌∷◌, arith, ◌==◌, if◌then◌else◌, has_bit, update,
  with_bit,
}
use revinix_os.Mm.Pmm.{
  Pmm, frame_size, resolve, bitmap_test, alloc_frame, free_frame, alloc_contig, contig_scan,
  alloc_scan, mark_used, bitmap_set,
}
use revinix_os.Mm.Pmm.Bitmap.{IsValid}
use revinix_os.Mm.Pmm.Alloc.{FirstFree, AllUsed, Taken, alloc_frame-Taken, free_frame-alloc_frame}
use revinix_os.Mm.Pmm.Trace.{
  Calls, none_yet, then_call, take_frame, take_run, with_run, IsSound, Calls-IsSound,
}
use revinix_os.Mm.Pmm.Init.{Layout, place}
use revinix_os.Mm.Pmm.Init.Place.{Placed, place-Placed}
use revinix_os.Mm.Pmm.Contig.{RunFit, alloc_contig-RunFit}

-- Sixteen frames, of which 0 to 3 and 6 are used; the bitmap lies at 1 MB.
abbrev small : Pmm
small = record {
  mem = λ a. if a == 0x100000 then 0x4f else 0;
  bitmap = 0x100000;
  bitmap_phys = 0;
  total_frames = 16;
  used_frames = 5;
  bitmap_size = 2;
  module_start = 0;
  module_end = 0;
}

small-IsValid : IsValid small
unfolding bitmap_test has_bit resolve
small-IsValid = record { bytes = λ a. ground arith; counted = refl; fits = omega arith }

first_fit : (alloc_frame small).0 ≡ 4 * 4096
unfolding alloc_frame alloc_scan bitmap_test has_bit resolve
first_fit = refl

contig_skips : (alloc_contig small 3).0 ≡ 7 * 4096
unfolding alloc_contig contig_scan bitmap_test has_bit resolve
contig_skips = refl

alloc_frame-Taken_example :
    ((alloc_frame small ≡ (0, small)) × AllUsed small 1)
    ⊎ ((f : ℕ) × FirstFree small 1 f
        × ((alloc_frame small).0 ≡ f * frame_size)
        × Taken small f (alloc_frame small).1)
alloc_frame-Taken_example = alloc_frame-Taken small small-IsValid

small_allocates : (alloc_frame small).0 ≢ 0
small_allocates = λ e. omega (arith, first_fit)

free_frame-alloc_frame_example :
    let q = free_frame (alloc_frame small).1 (alloc_frame small).0 in
    IsValid q × (q.used_frames ≡ 5) × ((g : ℕ) → bitmap_test q g ≡ bitmap_test small g)
free_frame-alloc_frame_example = free_frame-alloc_frame small small-IsValid small_allocates

alloc_contig-RunFit_example : RunFit small 3 (alloc_contig small 3)
alloc_contig-RunFit_example = alloc_contig-RunFit small 3 small-IsValid (omega arith) (omega arith)

small-IsSound : IsSound (small, [])
small-IsSound = record {
  valid = small-IsValid;
  distinct = tt;
  reserved = λ f h. absurd (ground arith);
}

-- frame 4, then the run of frames 7 to 9
abbrev taken_one : Pmm
taken_one = (alloc_frame small).1

abbrev held_one : List ℕ
held_one = ((alloc_frame small).0 / frame_size) ∷ []

abbrev held_run : List ℕ
held_run = with_run 3 ((alloc_contig taken_one 3).0 / frame_size) held_one

run_of_three : (alloc_contig taken_one 3).0 ≡ 7 * 4096
unfolding alloc_frame alloc_scan alloc_contig contig_scan mark_used bitmap_set bitmap_test has_bit
    resolve update with_bit
run_of_three = refl

frame_then_run : Calls (small, []) ((alloc_contig taken_one 3).1, held_run)
frame_then_run =
    then_call (then_call none_yet (take_frame small [] small_allocates))
      (take_run taken_one held_one 3 (omega arith) (λ e. omega (arith, run_of_three, e)))

Calls-IsSound_example : IsSound ((alloc_contig taken_one 3).1, held_run)
Calls-IsSound_example = Calls-IsSound frame_then_run small-IsSound

-- The boot information lies behind the kernel, and the module behind that.
abbrev crowded : Layout
crowded = record {
  mb2_start = 0x150000;
  mb2_end = 0x151000;
  mod_start = 0x152000;
  mod_end = 0x252345;
  size = 4096;
}

place-Placed_example : Placed crowded 0x14f800 (place 3 crowded 0x14f800)
place-Placed_example =
    place-Placed crowded 0x14f800 (omega arith, omega arith, omega arith) (omega arith)
