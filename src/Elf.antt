-- ===== src/Elf.antt =====
-- kernel/user/elf.c: the loader of ELF64 executables, over the operations of paging that it calls.
-- The image and physical memory are a byte to an address; the page tables are kept beside that memory,
-- in the state of paging. Messages are left out.
pub mod Loaded
pub mod Process
mod Tests
use revinix_os.Base.{
  ℕ, zero, suc, ◌+◌, ◌-◌, ◌*◌, ◌/◌, ◌%◌, ◌^◌, Bool, true, false, ◌||◌, ltb, ◌==◌, ◌!=◌,
  if◌then◌else◌, update, add64, bit_or, read16, read32, read64,
}
use revinix_os.Fs.Block.{Bytes}
use revinix_os.Mm.Frames.{Allocator}
use revinix_os.Mm.Vmm.{Vmm, get_phys_in, map_page_in, page_writable, page_user}

-- What the loader asks of paging for one address space: `vmm_get_phys_in` of a page, the frame that
-- `pmm_alloc_frame` would give, and the state once it is mapped at the page, writable for the user.
pub record Paging (V : Type 0) : Type 0 where
  pub phys_of : V → ℕ → ℕ
  pub new_frame : V → ℕ
  pub map_new : V → ℕ → V

-- ALIGN_DOWN to a page
abbrev pub page_start : ℕ → ℕ
page_start a = a / 4096 * 4096

pub record Phdr : Type 0 where
  pub kind : ℕ
  pub offset : ℕ
  pub vaddr : ℕ
  pub filesz : ℕ
  pub memsz : ℕ

-- program header `i` of the image
unfoldable pub read_phdr : Bytes → ℕ → ℕ → Phdr
read_phdr image phoff i =
    let at = phoff + i * 56 in
    record {
      kind = read32 image at;
      offset = read64 image (at + 8);
      vaddr = read64 image (at + 16);
      filesz = read64 image (at + 32);
      memsz = read64 image (at + 40);
    }

-- the tests of the file header
pub bad_header : Bytes → ℕ → Bool
bad_header image size =
    ltb size 64
    || (image 0 != 0x7F)
    || (image 1 != 69)
    || (image 2 != 76)
    || (image 3 != 70)
    || (image 4 != 2)
    || (read16 image 16 != 2)
    || (read16 image 18 != 0x3E)

-- byte `b` of a segment: zero behind the end of the file's part
abbrev pub segment_byte : Bytes → Phdr → ℕ → ℕ
segment_byte image ph b = if ltb b ph.filesz then image (ph.offset + b) else 0

module _ {V : Type 0} (paging : Paging V) where
  -- `ensure_user_page`: the frame, by its physical address, and the state
  unfoldable pub ensure_user_page : V → ℕ → ℕ × V
  ensure_user_page v vaddr =
      let page = page_start vaddr in
      let phys = paging.phys_of v page in
      if phys == 0 then (paging.new_frame v, paging.map_new v page) else (phys, v)

  -- The bytes of a segment from `b` on, with the rounds that are left.
  unfoldable pub load_bytes : ℕ → Bytes → Phdr → ℕ → V → Bytes → V × Bytes
  load_bytes zero image ph b v mem = (v, mem)
  load_bytes (suc left) image ph b v mem =
      let at = add64 ph.vaddr b in
      let (phys, v1) = ensure_user_page v at in
      load_bytes left image ph (b + 1) v1 (update mem (phys + at % 4096) (segment_byte image ph b))

  -- one program header
  unfoldable pub load_segment : Bytes → Phdr → V → Bytes → V × Bytes
  load_segment image ph v mem =
      if ph.kind != 1 then (v, mem) else load_bytes ph.memsz image ph 0 v mem

  unfoldable pub load_segments : ℕ → Bytes → ℕ → ℕ → V → Bytes → V × Bytes
  load_segments zero image phoff i v mem = (v, mem)
  load_segments (suc left) image phoff i v mem =
      let (v1, mem1) = load_segment image (read_phdr image phoff i) v mem in
      load_segments left image phoff (i + 1) v1 mem1

  -- the entry point, 0 for a failure, and the state
  unfoldable pub elf_load : Bytes → ℕ → V → Bytes → ℕ × V × Bytes
  elf_load image size v mem =
      if bad_header image size
      then (0, v, mem)
      else (let (v1, mem1) = load_segments (read16 image 56) image (read64 image 32) 0 v mem in
          (read64 image 24, v1, mem1))

-- the operations of vmm.c and of the frame allocator for the address space `pml4`
unfoldable pub vmm_paging : (A : Allocator) → ℕ → Paging (Vmm A.State)
vmm_paging A pml4 = record {
  phys_of = λ v page. get_phys_in v.tables pml4 page;
  new_frame = λ v. (A.alloc v.frames).0;
  map_new = λ v page.
      let (frame, left) = A.alloc v.frames in
      map_page_in A (record v { frames = left }) pml4 page frame (bit_or page_writable page_user);
}
