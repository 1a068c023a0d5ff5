-- ===== src/Mm/Pmm/Init.antt =====
-- `pmm_init` of kernel/mm/pmm.c: the boot information is read, the bitmap placed and filled.
-- Its loops take fuel, and `none` stands for a run that the fuel does not cover or that halts.
pub mod Place
use revinix_os.Base.{
  ℕ, zero, suc, ◌+◌, ◌-◌, ◌*◌, ◌/◌, ◌%◌, ◌^◌, Bool, true, false, ◌&&◌, Option, none, some, ltb, leb,
  ◌==◌, ◌!=◌, if◌then◌else◌, add64, update, ◌>>=◌, align_up, read32, read64,
}
use revinix_os.Mm.Pmm.{Pmm, frame_size, resolve, mark_used, mark_free}

-- what the walk over the tags finds: the map tag's address, 0 for NULL, and the boot module
pub record Tags : Type 0 where
  pub mmap : ℕ
  pub module_from : ℕ
  pub module_to : ℕ

-- The loop over the tags at `p`. The size of a tag is a 32-bit number, and is rounded up in 32 bits.
pub walk_tags : ℕ → (ℕ → ℕ) → ℕ → ℕ → Tags → Option Tags
walk_tags zero m end p t = none
walk_tags (suc fuel) m end p t =
    let kind = read32 m p in
    let size = read32 m (p + 4) in
    let t1 = (if kind == 6 then record t { mmap = p } else t) in
    let t2 =
      (if (kind == 3) && (t1.module_to == 0)
        then record t1 { module_from = read32 m (p + 8); module_to = read32 m (p + 12) }
        else t1) in
    let rest = walk_tags fuel m end (add64 p ((size + 7) % 2 ^ 32 / 8 * 8)) t2 in
    if ltb p end then (if kind == 0 then some t else rest) else some t

-- pass 1 at the entry `e`
pub highest : ℕ → (ℕ → ℕ) → ℕ → ℕ → ℕ → ℕ → Option ℕ
highest zero m mmap_end entry_size e max_addr = none
highest (suc fuel) m mmap_end entry_size e max_addr =
    let region_end = add64 (read64 m e) (read64 m (e + 8)) in
    let max' =
      (if read32 m (e + 16) == 1
        then (if ltb max_addr region_end then region_end else max_addr)
        else max_addr) in
    let rest = highest fuel m mmap_end entry_size (add64 e entry_size) max' in
    if ltb e mmap_end then rest else some max_addr

-- What the bitmap must not overlap, and its own size.
pub record Layout : Type 0 where
  pub mb2_start : ℕ
  pub mb2_end : ℕ
  pub mod_start : ℕ
  pub mod_end : ℕ
  pub size : ℕ

abbrev pub hits_mb2 : Layout → ℕ → Bool
hits_mb2 l s = ltb s l.mb2_end && ltb l.mb2_start (add64 s l.size)

abbrev pub hits_module : Layout → ℕ → Bool
hits_module l s = (l.mod_end != 0) && ltb s l.mod_end && ltb l.mod_start (add64 s l.size)

-- one round of the loop that moves the bitmap
unfoldable pub past_mb2 : Layout → ℕ → ℕ
past_mb2 l s = if hits_mb2 l s then align_up l.mb2_end frame_size else s

unfoldable pub past_module : Layout → ℕ → ℕ
past_module l s = if hits_module l s then align_up l.mod_end frame_size else s

pub place_from : ℕ → Layout → ℕ → Option ℕ
place_from zero l s = none
place_from (suc fuel) l s =
    let s1 = past_mb2 l s in
    let s2 = past_module l s1 in
    let rest = place_from fuel l s2 in
    if hits_mb2 l s then rest else (if hits_module l s1 then rest else some s2)

pub place : ℕ → Layout → ℕ → Option ℕ
place fuel l kernel_end = place_from fuel l (align_up kernel_end frame_size)

-- the loop that sets `bitmap[i]` to 0xFF
pub fill_from : ℕ → ℕ → Pmm → Pmm
fill_from zero i p = p
fill_from (suc left) i p =
    fill_from left (i + 1) (record p { mem = update p.mem (resolve p.bitmap + i) 0xff })

-- the inner loop of pass 2 at the address `a`
pub free_region : ℕ → ℕ → ℕ → Pmm → Option Pmm
free_region zero region_end a p = none
free_region (suc fuel) region_end a p =
    let rest = free_region fuel region_end (add64 a frame_size) (mark_free p (a / frame_size)) in
    if leb (add64 a frame_size) region_end then rest else some p

-- pass 2 at the entry `e`
pub free_entries : ℕ → ℕ → ℕ → ℕ → Pmm → Option Pmm
free_entries zero mmap_end entry_size e p = none
free_entries (suc fuel) mmap_end entry_size e p =
    let from = read64 p.mem e in
    let region_end = add64 from (read64 p.mem (e + 8)) in
    let freed = free_region fuel region_end (align_up from frame_size) p in
    let skip = free_entries fuel mmap_end entry_size (add64 e entry_size) p in
    let rest = (do q ← freed; free_entries fuel mmap_end entry_size (add64 e entry_size) q) in
    if ltb e mmap_end then (if read32 p.mem (e + 16) == 1 then rest else skip) else some p

-- `for (a = a; a < to; a += FRAME_SIZE) mark_used(a / FRAME_SIZE)`
pub reserve : ℕ → ℕ → ℕ → Pmm → Option Pmm
reserve zero to a p = none
reserve (suc fuel) to a p =
    let rest = reserve fuel to (add64 a frame_size) (mark_used p (a / frame_size)) in
    if ltb a to then rest else some p

pub record Sized : Type 0 where
  pub pmm : Pmm
  pub entries : ℕ
  pub mmap_end : ℕ
  pub entry_size : ℕ

-- up to the placement of the bitmap; without a map tag the code halts
pub measure : ℕ → ℕ → ℕ → Pmm → Option Sized
measure fuel kernel_phys_end mb2_info p = do
  t ←
      walk_tags fuel p.mem (mb2_info + read32 p.mem mb2_info) (mb2_info + 8)
        (record { mmap = 0; module_from = p.module_start; module_to = p.module_end })
  entries ← (if t.mmap == 0 then none else some (t.mmap + 16))
  mmap_end ← some (t.mmap + read32 p.mem (t.mmap + 4))
  entry_size ← some (read32 p.mem (t.mmap + 8))
  max_addr ← highest fuel p.mem mmap_end entry_size entries 0
  total ← some (max_addr / frame_size)
  bitmap_start ←
      place fuel
        (record {
          mb2_start = mb2_info;
          mb2_end = add64 mb2_info (read32 p.mem mb2_info);
          mod_start = t.module_from;
          mod_end = t.module_to;
          size = (total + 7) / 8;
        })
        kernel_phys_end
  some (record {
    pmm = record p {
      bitmap = bitmap_start;
      total_frames = total;
      bitmap_size = (total + 7) / 8;
      module_start = t.module_from;
      module_end = t.module_to;
    };
    entries = entries;
    mmap_end = mmap_end;
    entry_size = entry_size;
  })

-- from the bitmap of ones on
pub settle_frames : ℕ → Sized → Option Pmm
settle_frames fuel s =
    let filled = fill_from s.pmm.bitmap_size 0 s.pmm in
    do
      p ←
          free_entries fuel s.mmap_end s.entry_size s.entries
            (record filled { used_frames = filled.total_frames })
      q ← reserve fuel (align_up (add64 p.bitmap p.bitmap_size) frame_size) 0 (mark_used p 0)
      if q.module_end == 0
          then some q
          else reserve fuel q.module_end (q.module_start / frame_size * frame_size) q

pub init : ℕ → ℕ → ℕ → Pmm → Option Pmm
init fuel kernel_phys_end mb2_info p = do
  s ← measure fuel kernel_phys_end mb2_info p
  settle_frames fuel s
