-- ===== src/Ata/Refused.antt =====
-- kernel/drivers/ata.c: the requests that are refused, the blocks of a disk, and the probe.
use revinix_os.Base.{
  ℕ, ◌+◌, ◌-◌, ◌^◌, ◌<◌, ◌≤◌, ◌≡◌, ◌⊎◌, inl, inr, Bool, true, false, ◌||◌, Option, none, some, ltb,
  leb, ◌==◌, Bool-cases, arith,
}
use revinix_os.Ports.{Bus}
use revinix_os.Fs.Block.{Bytes, block_read}
use revinix_os.Ata.{
  Ata, ata_check, ata_read, ata_write, ata_block_read, ata_blockdev, ata_device, block_answer,
}
use revinix_os.Ata.Drive.{Phase, Disk}
use revinix_os.Ata.Transfer.{Filled, Reads, read_chunks-Reads}

-- There is no disk, or the sectors are not all on it.
pub data Outside (a : Ata) (lba count : ℕ) : Type 0 where
  absent : a.present ≡ false → Outside a lba count
  nothing : count ≡ 0 → Outside a lba count
  beyond : a.sectors < lba + count → Outside a lba count

ata_check-Outside : (a : Ata) (lba count : ℕ) → Outside a lba count → ata_check a lba count ≡ false
unfolding ata_check
ata_check-Outside a lba count (absent off) = simp off
ata_check-Outside a lba count (nothing zero_) = ground arith
ata_check-Outside a lba count (beyond far) = ground arith

pub data Request : Type 0 where
  reading : Request
  writing : Request

pub data Refused (a : Ata) (lba count : ℕ) : Request → Type 0 where
  outside : {r : Request} → Outside a lba count → Refused a lba count r
  forbidden : a.writes_ok ≡ false → Refused a lba count writing

-- the result, the buffer and the bus afterwards
abbrev pub answer : {D : Type 0} → Bus D → Ata → ℕ → ℕ → ℕ → Bytes → D → Request → Bool × Bytes × D
answer bus a lba count off buf d reading = ata_read bus a lba count off buf d
answer bus a lba count off buf d writing =
    let (ok, e) = ata_write bus a lba count buf d in (ok, buf, e)

-- On every bus, `ata_read` and `ata_write` fail for a request that is empty or not wholly on the disk,
-- and when there is no disk, and `ata_write` also while writes are not allowed. The buffer stays as it
-- was and no port is read or written.
pub ata_requests-Refused :
    {D : Type 0} (bus : Bus D) (a : Ata) (lba count off : ℕ) (buf : Bytes) (d : D) (r : Request)
    → Refused a lba count r
    → answer bus a lba count off buf d r ≡ (false, buf, d)
unfolding ata_read ata_write
ata_requests-Refused bus a lba count off buf d reading (outside out) =
    simp (ata_read, ata_check-Outside a lba count out)
ata_requests-Refused bus a lba count off buf d writing (forbidden shut) = simp (ata_write, shut)
ata_requests-Refused bus a lba count off buf d writing (outside out) =
    elim (Bool-cases a.writes_ok) [
      | inl on ↦ simp (ata_write, on, ata_check-Outside a lba count out)
      | inr shut ↦ simp (ata_write, shut)
    ]

-- What a read of the blocks of a disk answers.
pub data DiskRead (words : ℕ → ℕ → ℕ) (sectors lba count : ℕ) (buf : Bytes)
    : Option Bytes → Type 0 where
  rejected : ((count ≡ 0) ⊎ (sectors < lba + count)) → DiskRead words sectors lba count buf none
  filled :
      {out : Bytes}
      → 0 < count
      → lba + count ≤ sectors
      → Filled words lba count 0 buf out
      → DiskRead words sectors lba count buf (some out)

block_answer-Filled :
    {D : Type 0} {bus : Bus D} (disk : Disk bus) (a : Ata) (lba count : ℕ) (buf : Bytes) (d : D)
    → 0 < count
    → lba + count ≤ a.sectors
    → (result : Bool × Bytes × D) → Reads disk d lba count 0 buf result
    → DiskRead (disk.words d) a.sectors lba count buf (block_answer bus result)
unfolding block_answer
block_answer-Filled disk a lba count buf d more fits result (out, e, run, whole, _, _) =
    rw run (filled more fits whole)

-- With an idle disk of at most 2^28 sectors that was found, `ata_blockdev` makes a device. A
-- `block_read` of sectors that are all on the disk, however many, succeeds with just their bytes in
-- the buffer, although a command moves at most 255; every other one fails.
pub ata_blockdev-DiskRead :
    {D : Type 0} {bus : Bus D} (disk : Disk bus) (a : Ata) (lba count : ℕ) (buf : Bytes) (d : D)
    → a.present ≡ true
    → a.sectors ≤ 2 ^ 28
    → disk.phase d ≡ Phase.idle
    → (ata_blockdev bus a d ≡ some (ata_device bus a d))
      × DiskRead
          (disk.words d)
          a.sectors
          lba
          count
          buf
          (block_read (some (ata_device bus a d)) lba count buf)
unfolding ata_blockdev block_read ata_block_read
ata_blockdev-DiskRead {bus} disk a lba count buf d on lba28 at = (
  simp on,
  elim (Bool-cases ((count == 0) || leb a.sectors lba || ltb (a.sectors - lba) count)) [
    | inl out ↦ rw out (rejected (ground arith))
    | inr inside ↦
        let more : 0 < count = ground arith in
        let fits : lba + count ≤ a.sectors = ground arith in
        rw inside (
          block_answer-Filled disk a lba count buf d more fits _
            (read_chunks-Reads disk count a lba count 0 buf d on lba28 at (omega arith) fits))
  ],
)

-- What `ata_init` leaves behind.
pub data IsProbed (before after : Ata) : Bool → Type 0 where
  found :
      after.present ≡ true
      → 0 < after.sectors
      → after.writes_ok ≡ before.writes_ok
      → IsProbed before after true
  missing : after.present ≡ false → after.writes_ok ≡ before.writes_ok → IsProbed before after false

module _ {D : Type 0} (bus : Bus D) where
  -- the result and the driver's state afterwards
  abbrev pub Probed : Ata → Bool × Ata × D → Type 0
  Probed before (ok, after, e) = IsProbed before after ok
