-- ===== src/Fs/Block.antt =====
-- kernel/drivers/block.h and kernel/drivers/ramdisk.c: sectors by number.
-- A buffer is a function from its index to a byte; a read answers with the buffer afterwards, `none`
-- stands for -1.
use revinix_os.Base.{
  ℕ, zero, suc, ◌+◌, ◌-◌, ◌*◌, ◌/◌, ◌^◌, ◌≤◌, ◌<◌, ◌≡◌, refl, ap, ◌∙◌, ◌⊎◌, inl, inr, ◌||◌, arith,
  Option, none, some, ltb, leb, ◌==◌, if◌then◌else◌, add64, mul64, update, Bool-cases, ==_ne,
  ==_refl, le→ltb,
}

abbrev pub sector_size : ℕ
sector_size = 512

abbrev pub Bytes : Type 0
Bytes = ℕ → ℕ

-- `struct block_device`: `read` may be NULL.
pub record Device : Type 0 where
  pub sectors : ℕ
  pub read : Option (ℕ → ℕ → Bytes → Option Bytes)

-- `block_read`; `dev` may be NULL.
unfoldable pub block_read : Option Device → ℕ → ℕ → Bytes → Option Bytes
block_read none lba count buf = none
block_read (some d) lba count buf = elim d.read [
  | none ↦ none
  | some read ↦
      if (count == 0) || leb d.sectors lba || ltb (d.sectors - lba) count
      then none
      else read lba count buf
]

-- `for (i = i; i < n; i++) dst[off + i] = src[i]`, with the rounds that are left
unfoldable pub copy_bytes : ℕ → ℕ → ℕ → Bytes → Bytes → Bytes
copy_bytes zero i off src dst = dst
copy_bytes (suc left) i off src dst = copy_bytes left (i + 1) off src (update dst (off + i) (src i))

pub ramdisk_read : Bytes → ℕ → ℕ → ℕ → Bytes → Option Bytes
ramdisk_read mem priv lba count buf =
    let src = add64 priv (mul64 lba sector_size) in
    some (copy_bytes (mul64 count sector_size) 0 0 (λ i. mem (add64 src i)) buf)

-- HHDM_OFFSET of vmm.h
abbrev pub ram_offset : ℕ
ram_offset = 0xffff800000000000

-- what `ramdisk_init` fills in
abbrev pub ramdisk_device : Bytes → ℕ → ℕ → Device
ramdisk_device mem phys size = record {
  sectors = size / sector_size;
  read = some (ramdisk_read mem (add64 phys ram_offset));
}

-- `none` for a module that is too small
pub ramdisk_init : Bytes → ℕ → ℕ → Option Device
ramdisk_init mem phys size =
    if ltb size sector_size then none else some (ramdisk_device mem phys size)

pub copy_bytes-below :
    (n i off : ℕ) (src dst : Bytes) (a : ℕ) → a < off + i → copy_bytes n i off src dst a ≡ dst a
unfolding copy_bytes update
copy_bytes-below zero i off src dst a lo = refl
copy_bytes-below (suc n) i off src dst a lo =
    copy_bytes-below n (i + 1) off src (update dst (off + i) (src i)) a (omega arith)
    ∙ rw (==_ne a (off + i) (omega arith)) refl

pub copy_bytes-above :
    (n i off : ℕ) (src dst : Bytes) (a : ℕ) → off + i + n ≤ a → copy_bytes n i off src dst a ≡ dst a
unfolding copy_bytes update
copy_bytes-above zero i off src dst a hi = refl
copy_bytes-above (suc n) i off src dst a hi =
    copy_bytes-above n (i + 1) off src (update dst (off + i) (src i)) a (omega arith)
    ∙ rw (==_ne a (off + i) (omega arith)) refl

pub copy_bytes-at :
    (n i off : ℕ) (src dst : Bytes) (j : ℕ)
    → i ≤ j
    → j < i + n
    → copy_bytes n i off src dst (off + j) ≡ src j
unfolding copy_bytes update
copy_bytes-at zero i off src dst j lo hi = absurd (omega arith)
copy_bytes-at (suc n) i off src dst j lo hi = elim (Bool-cases (i == j)) [
  | inl on ↦
      let same : j ≡ i = ground arith in
      rw same (
        copy_bytes-below n (i + 1) off src (update dst (off + i) (src i)) (off + i) (omega arith)
        ∙ rw (==_refl (off + i)) refl)
  | inr off_ ↦
      copy_bytes-at n (i + 1) off src (update dst (off + i) (src i)) j (ground arith) (omega arith)
]

copy_bytes-first : (n : ℕ) (src dst : Bytes) (j : ℕ) → j < n → copy_bytes n 0 0 src dst j ≡ src j
copy_bytes-first n src dst j lt =
    let e : j ≡ 0 + j = omega arith in
    ap (copy_bytes n 0 0 src dst) e ∙ copy_bytes-at n 0 0 src dst j (omega arith) (omega arith)

-- What a read of a RAM disk over the module at `phys` answers.
pub data RamRead (mem : Bytes) (phys size lba count : ℕ) (buf : Bytes) : Option Bytes → Type 0 where
  refused :
      ((count ≡ 0) ⊎ (size / sector_size < lba + count)) → RamRead mem phys size lba count buf none
  filled :
      {out : Bytes}
      → 0 < count
      → lba + count ≤ size / sector_size
      → ((i : ℕ)
          → i < count * sector_size
          → out i ≡ mem (ram_offset + phys + lba * sector_size + i))
      → ((i : ℕ) → count * sector_size ≤ i → out i ≡ buf i)
      → RamRead mem phys size lba count buf (some out)

ramdisk_read-at :
    (mem : Bytes) (phys size lba count : ℕ) (buf : Bytes) (i : ℕ)
    → phys + size < 2 ^ 46
    → lba + count ≤ size / sector_size
    → i < count * sector_size
    → copy_bytes
        (mul64 count sector_size)
        0
        0
        (λ j. mem (add64 (add64 (add64 phys ram_offset) (mul64 lba sector_size)) j))
        buf
        i
      ≡ mem (ram_offset + phys + lba * sector_size + i)
ramdisk_read-at mem phys size lba count buf i low inside lt =
    let n : mul64 count sector_size ≡ count * sector_size = omega arith in
    let from : add64 (add64 phys ram_offset) (mul64 lba sector_size)
        ≡ ram_offset + phys + lba * sector_size =
      omega arith in
    let at : add64 (ram_offset + phys + lba * sector_size) i
        ≡ ram_offset + phys + lba * sector_size + i =
      omega arith in
    rw (n, from)
      (copy_bytes-first (count * sector_size)
          (λ j. mem (add64 (ram_offset + phys + lba * sector_size) j)) buf i lt
        ∙ ap mem at)

-- For a module of at least a sector at `phys`, that the HHDM reaches without wrapping around,
-- `ramdisk_init` makes a device. A read of sectors that all lie inside it answers with those bytes of
-- the module and leaves the rest of the buffer; every other read fails.
pub ramdisk-RamRead :
    (mem : Bytes) (phys size lba count : ℕ) (buf : Bytes)
    → sector_size ≤ size
    → phys + size < 2 ^ 46
    → count < 2 ^ 32
    → (ramdisk_init mem phys size ≡ some (ramdisk_device mem phys size))
      × RamRead mem phys size lba count buf
          (block_read (some (ramdisk_device mem phys size)) lba count buf)
unfolding ramdisk_init block_read ramdisk_read
ramdisk-RamRead mem phys size lba count buf big low small = (
  rw (le→ltb size sector_size big) refl,
  elim (Bool-cases
      ((count == 0) || leb (size / sector_size) lba || ltb (size / sector_size - lba) count)) [
        | inl on ↦ rw on (refused (ground arith))
        | inr off ↦
            let pos : 0 < count = ground arith in
            let inside : lba + count ≤ size / sector_size = ground arith in
            rw off (
              filled pos inside
                (λ i lt. ramdisk_read-at mem phys size lba count buf i low inside lt)
                (λ i hi.
                  copy_bytes-above (mul64 count sector_size) 0 0
                    (λ j. mem (add64 (add64 (add64 phys ram_offset) (mul64 lba sector_size)) j)) buf
                    i (omega arith)))
      ],
)
