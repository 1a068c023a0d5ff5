-- ===== src/Mm/Vmm/Space.antt =====
-- kernel/mm/vmm.c: `vmm_init`, which builds the kernel's tables, and `vmm_destroy_address_space`,
-- which takes a process's tables apart.
use revinix_os.Base.{
  ℕ, zero, suc, ◌+◌, ◌-◌, ◌*◌, ◌/◌, bit_and, bit_or, true, not, ◌||◌, ◌==◌, if◌then◌else◌, add64,
  sub64, mul64,
}
use revinix_os.Mm.Frames.{Allocator}
use revinix_os.Mm.Vmm.{
  Vmm, Tables, page_present, page_writable, hhdm_offset, kernel_virt_base, kernel_phys_base,
  is_present, is_huge, entry_addr, store, zero_table, map_huge, map_page_in,
}

abbrev pub two_mb : ℕ
two_mb = 0x200000

module _ (A : Allocator) where
  open A use {State, alloc, free, total}

  -- `for (a = a; …; a += TWO_MB) map_huge(base + a, a, …)`, with the rounds that are left
  pub map_huge_from : ℕ → ℕ → ℕ → Vmm State → Vmm State
  map_huge_from zero base a v = v
  map_huge_from (suc left) base a v =
      map_huge_from left base (a + two_mb)
        (map_huge A v (add64 base a) a (bit_or page_present page_writable))

  -- the loop over the pages of the kernel image
  pub map_kernel_from : ℕ → ℕ → Vmm State → Vmm State
  map_kernel_from zero off v = v
  map_kernel_from (suc left) off v = map_kernel_from left (off + 0x1000) (
      map_page_in A v v.kernel_pml4 (add64 kernel_virt_base off) (add64 kernel_phys_base off)
        (bit_or page_present page_writable))

  pub vmm_init : Vmm State → ℕ → Vmm State
  vmm_init v kernel_phys_end =
      let (root, st) = alloc v.frames in
      let v1 = record v { kernel_pml4 = root; frames = st; tables = zero_table root v.tables } in
      let v2 = map_huge_from 2048 0 0 v1 in
      let ksize = sub64 kernel_phys_end kernel_phys_base in
      let v3 = map_kernel_from ((ksize + 0xfff) / 0x1000) 0 v2 in
      let max_phys = add64 (mul64 (total v3.frames) 4096) (two_mb - 1) / two_mb * two_mb in
      let v4 = map_huge_from (max_phys / two_mb) hhdm_offset 0 v3 in
      record v4 { hhdm_end = max_phys; cr3 = v4.kernel_pml4; vmm_active = true }

  -- The loops of `vmm_destroy_address_space`, innermost first, with the rounds that are left: the
  -- number of frames freed so far and the allocator.
  pub free_pages : ℕ → ℕ → Tables → ℕ → ℕ × State → ℕ × State
  free_pages zero i m pt out = out
  free_pages (suc left) i m pt out =
      let freed : ℕ × State = (out.0 + 1, free out.1 (entry_addr (m pt i))) in
      free_pages left (i + 1) m pt (if is_present (m pt i) then freed else out)

  pub free_tables : ℕ → ℕ → Tables → ℕ → ℕ × State → ℕ × State
  free_tables zero k m pd out = out
  free_tables (suc left) k m pd out =
      let pt = entry_addr (m pd k) in
      let pages = free_pages 512 0 m pt out in
      let freed : ℕ × State = (pages.0 + 1, free pages.1 pt) in
      free_tables left (k + 1) m pd
        (if not (is_present (m pd k)) || is_huge (m pd k) then out else freed)

  pub free_directories : ℕ → ℕ → Tables → ℕ → ℕ × State → ℕ × State
  free_directories zero j m pdpt out = out
  free_directories (suc left) j m pdpt out =
      let pd = entry_addr (m pdpt j) in
      let tables = free_tables 512 0 m pd out in
      let freed : ℕ × State = (tables.0 + 1, free tables.1 pd) in
      free_directories left (j + 1) m pdpt
        (if not (is_present (m pdpt j)) || is_huge (m pdpt j) then out else freed)

  -- the user half of the top table, whose entries are cleared
  pub free_user_half : ℕ → ℕ → ℕ → ℕ → Vmm State → ℕ × Vmm State
  free_user_half zero i pml4 count v = (count, v)
  free_user_half (suc left) i pml4 count v =
      let pdpt = entry_addr (v.tables pml4 i) in
      let below = free_directories 512 0 v.tables pdpt (count, v.frames) in
      let cleared = record v { tables = store v.tables pml4 i 0; frames = free below.1 pdpt } in
      let skip = free_user_half left (i + 1) pml4 count v in
      let rest = free_user_half left (i + 1) pml4 (below.0 + 1) cleared in
      if is_present (v.tables pml4 i) then rest else skip

  pub destroy_address_space : Vmm State → ℕ → ℕ × Vmm State
  destroy_address_space v pml4 =
      let (count, w) = free_user_half 256 0 pml4 0 v in
      if (pml4 == v.kernel_pml4) || (pml4 == bit_and v.cr3 0x000ffffffffff000)
      then (0, v)
      else (count + 1, record w { frames = free w.frames pml4 })
