-- ===== src/Mm/Pmm.antt =====
-- kernel/mm/pmm.c: the physical frame allocator, a bitmap with one bit to a 4 KB frame.
-- The bitmap is an array in physical memory, reached through the pointer `bitmap`: at boot by the
-- identity map, later through the HHDM, so the model keeps the pointer and the memory apart.
pub mod Bitmap
pub mod Marks
pub mod Alloc
pub mod Trace
pub mod Frames
pub mod Contig
pub mod Init
mod Tests
use revinix_os.Base.{
  ℕ, Option, none, some, zero, suc, ◌+◌, ◌-◌, ◌/◌, ◌%◌, ◌^◌, Bool, leb, ◌==◌, if◌then◌else◌, add64,
  sub64, mul64, update, has_bit, with_bit, without_bit,
}

abbrev pub frame_size : ℕ
frame_size = 4096

-- HHDM_OFFSET of vmm.h
abbrev pub hhdm_base : ℕ
hhdm_base = 0xffff800000000000

-- The statics of pmm.c, and the physical memory that the bitmap lies in, a byte to an address.
pub record Pmm : Type 0 where
  pub mem : ℕ → ℕ
  pub bitmap : ℕ
  pub bitmap_phys : ℕ
  pub total_frames : ℕ
  pub used_frames : ℕ
  pub bitmap_size : ℕ
  pub module_start : ℕ
  pub module_end : ℕ

-- the physical address behind a pointer: an HHDM address, or one of the boot identity map
unfoldable pub resolve : ℕ → ℕ
resolve p = if leb hhdm_base p then p - hhdm_base else p

-- where `bitmap[f / 8]` lies
abbrev pub slot : Pmm → ℕ → ℕ
slot p f = resolve p.bitmap + f / 8

pub bitmap_set : Pmm → ℕ → Pmm
bitmap_set p f = record p { mem = update p.mem (slot p f) (with_bit (p.mem (slot p f)) (f % 8)) }

pub bitmap_clear : Pmm → ℕ → Pmm
bitmap_clear p f = record p {
  mem = update p.mem (slot p f) (without_bit (p.mem (slot p f)) (f % 8));
}

unfoldable pub bitmap_test : Pmm → ℕ → Bool
bitmap_test p f = has_bit (p.mem (slot p f)) (f % 8)

pub mark_used : Pmm → ℕ → Pmm
unfolding bitmap_set
mark_used p f =
    if bitmap_test p f
    then p
    else let q = bitmap_set p f in record q { used_frames = add64 q.used_frames 1 }

-- `used_frames--` wraps at 0, as an addition of 2 ^ 64 - 1 does.
pub mark_free : Pmm → ℕ → Pmm
unfolding bitmap_clear
mark_free p f =
    if bitmap_test p f
    then (let q = bitmap_clear p f in record q { used_frames = add64 q.used_frames (2 ^ 64 - 1) })
    else p

-- `for (i = i; i < total_frames; i++)`, with the rounds that are left
pub alloc_scan : ℕ → ℕ → Pmm → ℕ × Pmm
alloc_scan zero i p = (0, p)
alloc_scan (suc left) i p =
    let rest = alloc_scan left (i + 1) p in
    if bitmap_test p i then rest else (mul64 i frame_size, mark_used p i)

pub alloc_frame : Pmm → ℕ × Pmm
unfolding alloc_scan
alloc_frame p = alloc_scan (p.total_frames - 1) 1 p

pub free_frame : Pmm → ℕ → Pmm
unfolding mark_free
free_frame p addr = mark_free p (addr / frame_size)

-- `for (f = f; f <= i; f++) mark_used(f)`, with the rounds that are left
unfoldable pub mark_run : ℕ → ℕ → Pmm → Pmm
unfolding mark_used
mark_run zero f p = p
mark_run (suc left) f p = mark_run left (f + 1) (mark_used p f)

-- The loop of `pmm_alloc_contig` at frame `i`, with `run` free frames just below it.
pub contig_scan : ℕ → ℕ → ℕ → ℕ → Pmm → ℕ × Pmm
contig_scan count zero i run p = (0, p)
contig_scan count (suc left) i run p =
    let reset = contig_scan count left (i + 1) 0 p in
    let further = contig_scan count left (i + 1) (add64 run 1) p in
    if bitmap_test p i
    then reset
    else if add64 run 1 == count
    then (let first = add64 (sub64 i count) 1 in
        (mul64 first frame_size, mark_run (i + 1 - first) first p))
    else further

pub alloc_contig : Pmm → ℕ → ℕ × Pmm
unfolding contig_scan
alloc_contig p count = contig_scan count (p.total_frames - 1) 1 0 p

pub use_hhdm : Pmm → Pmm
use_hhdm p = record p { bitmap = add64 p.bitmap_phys hhdm_base }

-- the address and size of the boot module, `none` for -1
pub boot_module : Pmm → Option (ℕ × ℕ)
boot_module p =
    if p.module_end == 0 then none else some (p.module_start, sub64 p.module_end p.module_start)
