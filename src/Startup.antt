-- ===== src/Startup.antt =====
-- kernel/main.c: the choice of the root device, and how a user process is put together.
use revinix_os.Base.{ℕ, ◌+◌, Bool, Option, none, some, ◌==◌, if◌then◌else◌, bit_or}
use revinix_os.Ports.{Bus}
use revinix_os.Fs.Block.{Bytes, Device, ramdisk_init}
use revinix_os.Fs.Fat.{fat_init}
use revinix_os.Fs.Vfs.{Vfs, mount}
use revinix_os.Ata.{Ata, ata_blockdev}
use revinix_os.Mm.Frames.{Allocator}
use revinix_os.Mm.Vmm.{Vmm, create_address_space, map_page_in, page_writable, page_user}
use revinix_os.Mm.Vmm.Space.{destroy_address_space}
use revinix_os.Elf.{elf_load, vmm_paging}

-- The boot module as a RAM disk, or else the ATA disk with the bus in the state `d`.
pub root_device : {D : Type 0} → Bus D → Option (ℕ × ℕ) → Bytes → Bool → Ata → D → Option Device
root_device bus module_at mem disk_ok a d =
    let disk = (if disk_ok then ata_blockdev bus a d else none) in
    elim module_at [
      | none ↦ disk
      | some (phys, size) ↦ elim (ramdisk_init mem phys size) [ none ↦ disk | some ram ↦ some ram ]
    ]

-- `fat32_init` of the root device and `vfs_mount`
pub mount_root : Option Device → Vfs → Vfs
mount_root none v = v
mount_root (some dev) v = elim (fat_init (some dev)) [ none ↦ v | some fs ↦ mount v fs ]

-- USER_STACK_VADDR
abbrev pub user_stack_vaddr : ℕ
user_stack_vaddr = 0x200000000

-- what a new process starts with
pub record Process : Type 0 where
  pub entry : ℕ
  pub pml4 : ℕ
  pub stack_top : ℕ

-- `spawn_user_process` before `task_create_user`, which takes what it answers with; `none` stands for
-- NULL.
pub spawn_user_process :
    (A : Allocator) → Bytes → ℕ → Vmm A.State → Bytes → Option Process × Vmm A.State × Bytes
spawn_user_process A image size v mem =
    let (pml4, v1) = create_address_space A v in
    let (entry, v2, mem1) = elf_load (vmm_paging A pml4) image size v1 mem in
    let (freed, v3) = destroy_address_space A v2 pml4 in
    let (sframe, left) = A.alloc v2.frames in
    let v4 =
      map_page_in A (record v2 { frames = left }) pml4 user_stack_vaddr sframe
        (bit_or page_writable page_user) in
    if entry == 0 then (none, v3, mem1) else (
      some (record { entry = entry; pml4 = pml4; stack_top = user_stack_vaddr + 4096 }),
      v4,
      mem1,
    )
