-- ===== src/Elf/Process.antt =====
-- kernel/user/elf.c over kernel/mm/vmm.c: what a process finds in its user half after elf_load.
use revinix_os.Base.{
  ℕ, suc, ◌+◌, ◌*◌, ◌%◌, ◌^◌, ◌<◌, ◌≤◌, ◌≡◌, ◌≢◌, false, some, none, arith, read16, read64,
}
use revinix_os.Fs.Block.{Bytes}
use revinix_os.Mm.Frames.{Allocator}
use revinix_os.Mm.Vmm.{Vmm, get_phys_in}
use revinix_os.Mm.Vmm.User.{IsPrivate, Plenty, still_more}
use revinix_os.Mm.Vmm.User.Walk.{get_phys-whole, get_phys-apart}
use revinix_os.Mm.Vmm.User.Page.{map_new_page-Mapped}
use revinix_os.Elf.{page_start, read_phdr, bad_header, elf_load, vmm_paging}
use revinix_os.Elf.Loaded.{Serves, final_byte, total_size, elf_load-Reads}

module _ (A : Allocator) (pml4 : ℕ) where
  -- A user half that shares nothing, and frames for `left` more pages, each with three new tables.
  abbrev Room : Vmm A.State → ℕ → Type 0
  Room v left = (rank : ℕ → ℕ) × IsPrivate A v rank × (rank pml4 ≡ 4) × Plenty A v.frames (4 * left)

  four_more :
      (v : Vmm A.State) (left : ℕ)
      → Plenty A v.frames (4 * suc left)
      → Plenty A v.frames (suc (suc (suc (suc (4 * left)))))
  four_more v left enough =
      let e : 4 * suc left ≡ suc (suc (suc (suc (4 * left)))) = omega arith in rw e at enough

  first_frame : (v : Vmm A.State) (n : ℕ) → Plenty A v.frames (suc n) → (A.alloc v.frames).0 ≢ 0
  unfolding Plenty
  first_frame v n enough = enough.0

  room_less :
      (v : Vmm A.State) (left : ℕ) → Plenty A v.frames (4 * suc left) → Plenty A v.frames (4 * left)
  room_less v left enough =
      let e : 4 * suc left ≡ 4 * left + 4 = omega arith in
      still_more A (4 * left) 4 v.frames (rw e at enough)

  -- the paging of vmm.c serves the loader
  vmm_paging-Serves : Serves (vmm_paging A pml4) Room
  unfolding vmm_paging
  vmm_paging-Serves = record {
    mapped = λ v page left is_page room absent.
        let (rank, p, top, enough) = room in
        let more = four_more v left enough in
        let (rank', done) =
          map_new_page-Mapped A v rank pml4 page (4 * left) p top is_page absent more in
        (
          done.phys,
          first_frame v (suc (suc (suc (4 * left)))) more,
          (rank', done.private, done.top, done.plenty (4 * left) more),
        );
    others = λ v page other left is_page is_other room absent there.
        let (rank, p, top, enough) = room in
        let more = four_more v left enough in
        let (rank', done) =
          map_new_page-Mapped A v rank pml4 page (4 * left) p top is_page absent more in
        done.others other is_other there;
    spared =
        λ v left room. let (rank, p, top, enough) = room in (rank, p, top, room_less v left enough);
    whole = λ v page left is_page room.
        let (rank, p, top, enough) = room in get_phys-whole A v rank pml4 p top page is_page;
    apart = λ v page other left is_page is_other room there same.
        let (rank, p, top, enough) = room in
        get_phys-apart A v rank pml4 p top page other is_page is_other there same;
  }

  -- For an image with a good header whose segments end in the user half, and a user half whose tables
  -- and frames are not shared, with four frames left for each byte of the segments: `elf_load` answers
  -- with the entry point, and each address of a segment translates to memory with the byte of the
  -- file, or zero behind the file's part, by the last segment that has the address.
  pub elf_load-final_byte :
      (image : Bytes) (size : ℕ) (v : Vmm A.State) (rank : ℕ → ℕ) (mem : Bytes) (a x : ℕ)
      → bad_header image size ≡ false
      → IsPrivate A v rank
      → rank pml4 ≡ 4
      → Plenty A v.frames (4 * total_size (read16 image 56) image (read64 image 32) 0)
      → ((j : ℕ)
          → j < read16 image 56
          → (read_phdr image (read64 image 32) j).kind ≡ 1
          → (read_phdr image (read64 image 32) j).vaddr
              + (read_phdr image (read64 image 32) j).memsz
            ≤ 2 ^ 47)
      → final_byte (read16 image 56) image (read64 image 32) 0 a none ≡ some x
      → let (entry, v1, mem1) = elf_load (vmm_paging A pml4) image size v mem in
        (entry ≡ read64 image 24)
        × (get_phys_in v1.tables pml4 (page_start a) ≢ 0)
        × (mem1 (get_phys_in v1.tables pml4 (page_start a) + a % 4096) ≡ x)
  unfolding vmm_paging
  elf_load-final_byte image size v rank mem a x good p top enough low known =
      let (entry, reads) =
        elf_load-Reads (vmm_paging A pml4) Room vmm_paging-Serves image size v mem a x good
          (rank, p, top, enough) low known in
      (entry, reads.there, reads.value)
