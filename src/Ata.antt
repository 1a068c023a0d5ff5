-- ===== src/Ata.antt =====
-- kernel/drivers/ata.c: the disk on the primary ATA bus, LBA28, polled.
-- A result is `false` or `none` for -1. Messages are left out, but not the status that they read.
pub mod Drive
pub mod Transfer
pub mod Refused
pub mod Write
mod Tests
use revinix_os.Base.{
  ℕ, zero, suc, ◌+◌, ◌-◌, ◌*◌, ◌/◌, ◌%◌, ◌^◌, Bool, true, false, not, ◌&&◌, ◌||◌, Option, none,
  some, ltb, leb, ◌==◌, ◌!=◌, if◌then◌else◌, add64, sub32, has_bit,
}
use revinix_os.Fs.Block.{Bytes, Device}
use revinix_os.Ports.{Bus}

abbrev pub data_port : ℕ
data_port = 0x1F0

abbrev pub seccount_port : ℕ
seccount_port = 0x1F2

abbrev pub lba_lo_port : ℕ
lba_lo_port = 0x1F3

abbrev pub lba_mid_port : ℕ
lba_mid_port = 0x1F4

abbrev pub lba_hi_port : ℕ
lba_hi_port = 0x1F5

abbrev pub drive_port : ℕ
drive_port = 0x1F6

abbrev pub status_port : ℕ
status_port = 0x1F7

abbrev pub command_port : ℕ
command_port = 0x1F7

abbrev pub altstatus_port : ℕ
altstatus_port = 0x3F6

abbrev pub cmd_read_sectors : ℕ
cmd_read_sectors = 0x20

abbrev pub cmd_write_sectors : ℕ
cmd_write_sectors = 0x30

abbrev pub cmd_cache_flush : ℕ
cmd_cache_flush = 0xE7

abbrev pub cmd_identify : ℕ
cmd_identify = 0xEC

-- ATA_TIMEOUT
abbrev pub ata_timeout : ℕ
ata_timeout = 1000000

-- the statics of ata.c
pub record Ata : Type 0 where
  pub present : Bool
  pub writes_ok : Bool
  pub sectors : ℕ

pub ata_allow_writes : Ata → Bool → Ata
ata_allow_writes a on = record a { writes_ok = on }

-- `ata_check`
unfoldable pub ata_check : Ata → ℕ → ℕ → Bool
ata_check a lba count =
    if not a.present
    then false
    else not ((count == 0) || leb a.sectors lba || ltb (a.sectors - lba) count)

-- The bytes of 256 words that are stored at `off`.
unfoldable pub store_words : (ℕ → ℕ) → ℕ → Bytes → Bytes
store_words words off buf a =
    if leb off a && ltb a (off + 512)
    then words ((a - off) / 2) / 256 ^ ((a - off) % 2) % 256
    else buf a

-- word `i` of the sector at `off`
unfoldable pub load_word : Bytes → ℕ → ℕ → ℕ
load_word buf off i = buf (off + 2 * i) + 256 * buf (off + 2 * i + 1)

module _ {D : Type 0} (bus : Bus D) where
  pub ata_delay400 : D → D
  ata_delay400 d =
      bus.inb_next
        (bus.inb_next (bus.inb_next (bus.inb_next d altstatus_port) altstatus_port) altstatus_port)
        altstatus_port

  -- The loop of `ata_wait_not_busy`, with the rounds that are left.
  unfoldable pub wait_from : ℕ → D → Option ℕ × D
  wait_from zero d = (none, d)
  wait_from (suc left) d =
      let s = bus.inb d status_port in
      let d1 = bus.inb_next d status_port in
      elim (s == 0xFF) [
        | true ↦ (none, d1)
        | false ↦ elim (has_bit s 7) [ false ↦ (some s, d1) | true ↦ wait_from left d1 ]
      ]

  unfoldable pub ata_wait_not_busy : D → Option ℕ × D
  ata_wait_not_busy d = wait_from ata_timeout d

  -- The loop of `ata_poll`, with the status it holds.
  unfoldable pub poll_from : ℕ → ℕ → D → Bool × D
  poll_from zero s d = (false, d)
  poll_from (suc left) s d = elim (has_bit s 0 || has_bit s 5) [
    | true ↦ (false, d)
    | false ↦ elim (has_bit s 3) [
      | true ↦ (true, d)
      | false ↦ poll_from left (bus.inb d status_port) (bus.inb_next d status_port)
    ]
  ]

  unfoldable pub poll_after : Option ℕ × D → Bool × D
  poll_after (none, d) = (false, d)
  poll_after (some s, d) = poll_from ata_timeout s d

  unfoldable pub ata_poll : D → Bool × D
  ata_poll d = poll_after (ata_wait_not_busy d)

  -- Drive select, sector count and address of a transfer: the bits of 0xE0 and those of the address
  -- are apart, so `|` is a sum.
  unfoldable pub ata_setup : ℕ → ℕ → D → D
  ata_setup lba count d =
      let d1 = bus.outb d drive_port (0xE0 + lba / 2 ^ 24 % 16) in
      let d2 = bus.outb d1 seccount_port count in
      let d3 = bus.outb d2 lba_lo_port (lba % 256) in
      let d4 = bus.outb d3 lba_mid_port (lba / 2 ^ 8 % 256) in
      bus.outb d4 lba_hi_port (lba / 2 ^ 16 % 256)

  -- The sectors that are left, to the bytes from `off`; a failure leaves those that were read.
  unfoldable pub pull_sectors : ℕ → ℕ → Bytes → D → Bool × Bytes × D
  pull_sectors zero off buf d = (true, buf, d)
  pull_sectors (suc left) off buf d =
      let (ready, e) = ata_poll d in
      elim ready [
        | false ↦ (false, buf, bus.inb_next e status_port)
        | true ↦
            pull_sectors left (off + 512) (store_words (bus.insw e data_port) off buf)
              (bus.insw_next e data_port)
      ]

  -- `count` is a uint8_t, as in `ata_setup` and `ata_write`: callers pass numbers below 256.
  unfoldable pub ata_read : Ata → ℕ → ℕ → ℕ → Bytes → D → Bool × Bytes × D
  ata_read a lba count off buf d = elim (ata_check a lba count) [
    | false ↦ (false, buf, d)
    | true ↦
        pull_sectors count off buf (bus.outb (ata_setup lba count d) command_port cmd_read_sectors)
  ]

  unfoldable pub push_sectors : ℕ → ℕ → Bytes → D → Bool × D
  push_sectors zero off buf d = (true, d)
  push_sectors (suc left) off buf d =
      let (ready, e) = ata_poll d in
      elim ready [
        | false ↦ (false, bus.inb_next e status_port)
        | true ↦ push_sectors left (off + 512) buf (bus.outsw e data_port (load_word buf off))
      ]

  -- the flush after the last sector
  unfoldable pub flush_after : Bool × D → Bool × D
  flush_after (false, d) = (false, d)
  flush_after (true, d) =
      let (s, e) = ata_wait_not_busy (bus.outb d command_port cmd_cache_flush) in
      elim s [ none ↦ (false, e) | some _ ↦ (true, e) ]

  unfoldable pub ata_write : Ata → ℕ → ℕ → Bytes → D → Bool × D
  ata_write a lba count buf d = elim a.writes_ok [
    | false ↦ (false, d)
    | true ↦ elim (ata_check a lba count) [
      | false ↦ (false, d)
      | true ↦ flush_after (
          push_sectors count 0 buf
            (bus.outb (ata_setup lba count d) command_port cmd_write_sectors))
    ]
  ]

  -- `ata_block_read`, with the rounds that are left: every round takes a sector, so `count` rounds
  -- are enough.
  unfoldable pub read_chunks : ℕ → Ata → ℕ → ℕ → ℕ → Bytes → D → Bool × Bytes × D
  read_chunks zero a lba count off buf d = (count == 0, buf, d)
  read_chunks (suc fuel) a lba count off buf d = elim (count == 0) [
    | true ↦ (true, buf, d)
    | false ↦
        let n = (if ltb 255 count then 255 else count) % 2 ^ 8 in
        let (ok, buf1, d1) = ata_read a (lba % 2 ^ 32) n off buf d in
        elim ok [
          | false ↦ (false, buf1, d1)
          | true ↦ read_chunks fuel a (add64 lba n) (sub32 count n) (off + n * 512) buf1 d1
        ]
  ]

  unfoldable pub ata_block_read : Ata → ℕ → ℕ → Bytes → D → Bool × Bytes × D
  ata_block_read a lba count buf d = read_chunks count a lba count 0 buf d

  -- What a read of the device answers with the bus in the state `d`.
  unfoldable pub block_answer : Bool × Bytes × D → Option Bytes
  block_answer (false, buf, d) = none
  block_answer (true, buf, d) = some buf

  -- what `ata_blockdev` fills in
  abbrev pub ata_device : Ata → D → Device
  ata_device a d = record {
    sectors = a.sectors;
    read = some (λ lba count buf. block_answer (ata_block_read a lba count buf d));
  }

  unfoldable pub ata_blockdev : Ata → D → Option Device
  ata_blockdev a d = if a.present then some (ata_device a d) else none

  -- the IDENTIFY block of 256 words
  unfoldable pub identified : Ata → (ℕ → ℕ) → D → Bool × Ata × D
  identified a id d = elim (has_bit (id 49) 9) [
    | false ↦ (false, a, d)
    | true ↦
        let sectors = id 60 + 2 ^ 16 * id 61 in
        elim (sectors == 0) [
          | true ↦ (false, record a { sectors = sectors }, d)
          | false ↦ (true, record a { sectors = sectors; present = true }, d)
        ]
  ]

  pub identify_command : D → D
  identify_command d =
      let d1 = ata_delay400 (bus.outb d drive_port 0xA0) in
      let d2 = bus.outb d1 seccount_port 0 in
      let d3 = bus.outb d2 lba_lo_port 0 in
      let d4 = bus.outb d3 lba_mid_port 0 in
      let d5 = bus.outb d4 lba_hi_port 0 in ata_delay400 (bus.outb d5 command_port cmd_identify)

  -- the part of `ata_init` after the last poll
  unfoldable pub identify_after : Ata → Bool × D → Bool × Ata × D
  identify_after a (false, d) = (false, a, bus.inb_next d status_port)
  identify_after a (true, d) = identified a (bus.insw d data_port) (bus.insw_next d data_port)

  -- the part of `ata_init` after the wait for BSY to clear
  unfoldable pub read_signature : Ata → D → Bool × Ata × D
  read_signature a d =
      let d1 = bus.inb_next d lba_mid_port in
      let d2 = bus.inb_next d1 lba_hi_port in
      elim (bus.inb d lba_mid_port != 0) [
        | true ↦ (false, a, d1)
        | false ↦ elim (bus.inb d1 lba_hi_port != 0) [
          | true ↦ (false, a, d2)
          | false ↦ identify_after a (ata_poll d2)
        ]
      ]

  -- the part after the first status, with the result of the wait for BSY to clear
  unfoldable pub signature_after : Ata → Option ℕ × D → Bool × Ata × D
  signature_after a (none, d) = (false, a, d)
  signature_after a (some _, d) = read_signature a d

  unfoldable pub ata_init : Ata → D → Bool × Ata × D
  ata_init before d =
      let a = record before { present = false } in
      let d1 = bus.inb_next d status_port in
      let d2 = identify_command d1 in
      let d3 = bus.inb_next d2 status_port in
      elim (bus.inb d status_port == 0xFF) [
        | true ↦ (false, a, d1)
        | false ↦ elim (bus.inb d2 status_port == 0) [
          | true ↦ (false, a, d3)
          | false ↦ signature_after a (ata_wait_not_busy d3)
        ]
      ]
