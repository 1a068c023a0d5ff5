-- ===== src/Mm/Vmm.antt =====
-- kernel/mm/vmm.c: four-level page tables in physical memory.
-- A table is addressed by its physical address: `table()` adds the HHDM offset once paging is
-- switched, which reaches the same frame. `invlpg` has no counterpart, there is no TLB here.
pub mod Range
pub mod Entries
pub mod Tree
pub mod Map
pub mod Space
pub mod User
pub mod Tests
use revinix_os.Base.{
  ℕ, zero, suc, ◌+◌, ◌-◌, ◌*◌, ◌/◌, ◌%◌, ◌^◌, bit_and, bit_or, Bool, true, false, not, ◌&&◌, ◌||◌,
  ltb, leb, ◌==◌, if◌then◌else◌, add64, has_bit,
}
use revinix_os.Mm.Frames.{Allocator}

abbrev pub page_present : ℕ
page_present = 1

abbrev pub page_writable : ℕ
page_writable = 2

abbrev pub page_user : ℕ
page_user = 4

abbrev pub page_huge : ℕ
page_huge = 128

abbrev pub hhdm_offset : ℕ
hhdm_offset = 0xffff800000000000

abbrev pub user_space_end : ℕ
user_space_end = 0x0000800000000000

abbrev pub kernel_virt_base : ℕ
kernel_virt_base = 0xffffffff80100000

abbrev pub kernel_phys_base : ℕ
kernel_phys_base = 0x100000

-- the 9-bit index of each level
abbrev pub pml4_index : ℕ → ℕ
pml4_index v = v / 2 ^ 39 % 512

abbrev pub pdpt_index : ℕ → ℕ
pdpt_index v = v / 2 ^ 30 % 512

abbrev pub pd_index : ℕ → ℕ
pd_index v = v / 2 ^ 21 % 512

abbrev pub pt_index : ℕ → ℕ
pt_index v = v / 2 ^ 12 % 512

-- bits 51:12 of an entry
unfoldable pub entry_addr : ℕ → ℕ
entry_addr e = bit_and e 0x000ffffffffff000

-- `e & PAGE_PRESENT` and `e & PAGE_HUGE` as tests
abbrev pub is_present : ℕ → Bool
is_present e = has_bit e 0

abbrev pub is_huge : ℕ → Bool
is_huge e = has_bit e 7

-- `x & ~0xFFF` of a 64-bit number
abbrev pub page_of : ℕ → ℕ
page_of x = x / 4096 * 4096

abbrev pub Tables : Type 0
Tables = ℕ → ℕ → ℕ

-- `table(t)[i] = e`
unfoldable pub store : Tables → ℕ → ℕ → ℕ → Tables
store m t i e a b = if a == t && b == i then e else m a b

-- the loop of `zero_table` at index `i`
pub zero_from : ℕ → ℕ → ℕ → Tables → Tables
zero_from zero i t m = m
zero_from (suc left) i t m = zero_from left (i + 1) t (store m t i 0)

pub zero_table : ℕ → Tables → Tables
zero_table t m = zero_from 512 0 t m

-- The statics of vmm.c, the tables in memory, the allocator's state and the register CR3.
pub record Vmm (S : Type 0) : Type 0 where
  pub tables : Tables
  pub frames : S
  pub kernel_pml4 : ℕ
  pub vmm_active : Bool
  pub hhdm_end : ℕ
  pub cr3 : ℕ

-- `(e & need) == need` for a user access, at one level
unfoldable pub allows : Bool → ℕ → Bool
allows write e =
    let need : ℕ = bit_or (bit_or page_present page_user) (if write then page_writable else 0) in
    bit_and e need == need

-- the body of the loop of `vmm_user_range_ok`
pub user_page_ok : Tables → ℕ → ℕ → Bool → Bool
user_page_ok m pml4 page write =
    let e4 = m pml4 (pml4_index page) in
    let e3 = m (entry_addr e4) (pdpt_index page) in
    let e2 = m (entry_addr e3) (pd_index page) in
    let e1 = m (entry_addr e2) (pt_index page) in
    if not (allows write e4)
    then false
    else if not (allows write e3)
    then false
    else if is_huge e3
    then true
    else if not (allows write e2)
    then false
    else if is_huge e2
    then true
    else allows write e1

pub user_pages_ok : ℕ → Tables → ℕ → ℕ → Bool → Bool
user_pages_ok zero m pml4 page write = true
user_pages_ok (suc left) m pml4 page write =
    user_page_ok m pml4 page write && user_pages_ok left m pml4 (page + 4096) write

-- The pages from `page_of va` to below `end`, which is at most 2 ^ 47, so `page` does not wrap.
pub user_range_ok : Tables → ℕ → ℕ → ℕ → Bool → Bool
user_range_ok m pml4 va len write =
    let end = add64 va len in
    if len == 0
    then true
    else if ltb end va
    then false
    else if ltb user_space_end end
    then false
    else user_pages_ok ((end - page_of va + 4095) / 4096) m pml4 (page_of va) write

-- `next_level(t, i, 0)`: the next table, 0 if it is absent
unfoldable pub peek_level : Tables → ℕ → ℕ → ℕ
peek_level m t i = if is_present (m t i) then entry_addr (m t i) else 0

pub get_phys_in : Tables → ℕ → ℕ → ℕ
get_phys_in m pml4 virt =
    let pdpt = peek_level m pml4 (pml4_index virt) in
    let pd = peek_level m pdpt (pdpt_index virt) in
    let pd_entry = m pd (pd_index virt) in
    let pt_entry = m (entry_addr pd_entry) (pt_index virt) in
    if pdpt == 0
    then 0
    else if pd == 0
    then 0
    else if not (is_present pd_entry)
    then 0
    else if is_huge pd_entry
    then add64 (entry_addr pd_entry) (virt % 2 ^ 21)
    else if not (is_present pt_entry)
    then 0
    else add64 (entry_addr pt_entry) (virt % 4096)

pub unmap_page_in : Tables → ℕ → ℕ → Tables
unmap_page_in m pml4 virt =
    let pdpt = peek_level m pml4 (pml4_index virt) in
    let pd = peek_level m pdpt (pdpt_index virt) in
    let pt = peek_level m pd (pd_index virt) in
    if pdpt == 0
    then m
    else if pd == 0
    then m
    else if pt == 0
    then m
    else store m pt (pt_index virt) 0

-- the loop `dst[i] = src[i]` of `vmm_create_address_space`
pub copy_entries : ℕ → ℕ → ℕ → ℕ → Tables → Tables
copy_entries zero i dst src m = m
copy_entries (suc left) i dst src m = copy_entries left (i + 1) dst src (store m dst i (m src i))

module _ (A : Allocator) where
  open A use {State, alloc, free}

  -- `create` says whether an absent table is allocated; 0 stands for an absent one.
  pub next_level : Vmm State → ℕ → ℕ → Bool → ℕ × Vmm State
  next_level v t i create =
      let (frame, st) = alloc v.frames in
      let entry : ℕ = bit_or (bit_or (bit_or frame page_present) page_writable) page_user in
      let m = store (zero_table frame v.tables) t i entry in
      if is_present (v.tables t i)
      then (entry_addr (v.tables t i), v)
      else if create
      then (entry_addr (m t i), record v { tables = m; frames = st })
      else (0, v)

  pub map_huge : Vmm State → ℕ → ℕ → ℕ → Vmm State
  map_huge v virt phys flags =
      let (pdpt, v1) = next_level v v.kernel_pml4 (pml4_index virt) true in
      let (pd, v2) = next_level v1 pdpt (pdpt_index virt) true in
      let entry : ℕ = bit_or (bit_or phys flags) page_huge in
      record v2 { tables = store v2.tables pd (pd_index virt) entry }

  pub map_page_in : Vmm State → ℕ → ℕ → ℕ → ℕ → Vmm State
  map_page_in v pml4 virt phys flags =
      let (pdpt, v1) = next_level v pml4 (pml4_index virt) true in
      let (pd, v2) = next_level v1 pdpt (pdpt_index virt) true in
      let (pt, v3) = next_level v2 pd (pd_index virt) true in
      let entry : ℕ = bit_or (bit_or (page_of phys) flags) page_present in
      record v3 { tables = store v3.tables pt (pt_index virt) entry }

  pub create_address_space : Vmm State → ℕ × Vmm State
  create_address_space v =
      let (new_pml4, st) = alloc v.frames in
      let m = copy_entries 256 256 new_pml4 v.kernel_pml4 (zero_table new_pml4 v.tables) in
      (new_pml4, record v { tables = m; frames = st })

  -- `mov cr3`
  pub switch_address_space : Vmm State → ℕ → Vmm State
  switch_address_space v pml4 = record v { cr3 = pml4 }

  -- the loop of `vmm_map_mmio` at page `a`
  pub map_mmio_from : ℕ → ℕ → Vmm State → Vmm State
  map_mmio_from zero a v = v
  map_mmio_from (suc left) a v = map_mmio_from left (a + 4096) (
      if ltb a v.hhdm_end
      then v
      else map_page_in v v.kernel_pml4 (add64 hhdm_offset a) a (bit_or page_present page_writable))

  pub map_mmio : Vmm State → ℕ → ℕ → ℕ × Vmm State
  map_mmio v phys size =
      let start = page_of phys in
      let end = page_of (add64 (add64 phys size) 0xfff) in
      (add64 phys hhdm_offset, map_mmio_from ((end - start + 4095) / 4096) start v)
