-- ===== src/Elf/Tests.antt =====
-- A small executable, loaded into a new address space.
use revinix_os.Base.{
  ℕ, zero, suc, ◌+◌, ◌%◌, ◌^◌, ◌<◌, ◌≤◌, ◌≡◌, ◌≢◌, refl, true, ltb, ◌==◌, if◌then◌else◌, read16,
  read32, read64, arith,
}
use revinix_os.Fs.Block.{Bytes}
use revinix_os.Mm.Vmm.{Vmm, create_address_space, get_phys_in}
use revinix_os.Mm.Vmm.Tests.{in_order, empty}
use revinix_os.Mm.Vmm.User.Create.{
  only_root, create_address_space_frames, create_address_space-IsPrivate,
}
use revinix_os.Mm.Vmm.User.{Plenty}
use revinix_os.Elf.{page_start, read_phdr, bad_header, elf_load, vmm_paging}
use revinix_os.Elf.Loaded.{final_byte, total_size}
use revinix_os.Elf.Process.{elf_load-final_byte}

-- the address space of a new process
abbrev new_space : ℕ × Vmm ℕ
new_space = create_address_space in_order empty

frames_used : new_space.1.frames ≡ 3
frames_used = create_address_space_frames in_order empty

frames_left : (k n : ℕ) → 0 < n → n + k ≤ 100 → Plenty in_order n k
unfolding Plenty
frames_left zero n some_ fits = tt
frames_left (suc k) n some_ fits =
    let more : ltb n 100 ≡ true = ground arith in
    rw more ((λ e. omega arith), frames_left k (n + 1) (omega arith) (omega arith))

-- one segment of 6 bytes at 0x400000, 4 of them from the start of the file
abbrev small_image : Bytes
small_image a =
    if a == 0
    then 0x7F
    else if a == 1
    then 69
    else if a == 2
    then 76
    else if a == 3
    then 70
    else if a == 4
    then 2
    else if a == 16
    then 2
    else if a == 18
    then 0x3E
    else if a == 26
    then 0x40
    else if a == 32
    then 64
    else if a == 56
    then 1
    else if a == 64
    then 1
    else if a == 82
    then 0x40
    else if a == 96
    then 4
    else if a == 104
    then 6
    else 0

header_low :
    (j : ℕ)
    → j < read16 small_image 56
    → (read_phdr small_image (read64 small_image 32) j).kind ≡ 1
    → (read_phdr small_image (read64 small_image 32) j).vaddr
        + (read_phdr small_image (read64 small_image 32) j).memsz
      ≤ 2 ^ 47
unfolding read_phdr read16 read32 read64
header_low zero lt load = omega arith
header_low (suc j) lt load = absurd (omega (arith, lt))

elf_load-final_byte_example :
    let (entry, v1, mem1) =
      elf_load (vmm_paging in_order new_space.0) small_image 112 new_space.1 (λ a. 9) in
    (entry ≡ read64 small_image 24)
    × (get_phys_in v1.tables new_space.0 (page_start 0x400001) ≢ 0)
    × (mem1 (get_phys_in v1.tables new_space.0 (page_start 0x400001) + 0x400001 % 4096) ≡ 69)
unfolding final_byte bad_header read_phdr read16 read32 read64 total_size
elf_load-final_byte_example =
    let (private, top) = create_address_space-IsPrivate in_order empty tt (λ e. omega (arith, e)) in
    elf_load-final_byte in_order new_space.0 small_image 112 new_space.1
      (only_root in_order new_space.0) (λ a. 9) 0x400001 69 refl private top
      (rw frames_used (frames_left 24 3 (omega arith) (omega arith))) header_low refl
