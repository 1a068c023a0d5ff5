-- ===== src/Ata/Drive.antt =====
-- kernel/drivers/ata.c: what the driver relies on of an ATA disk, and its commands against it.
-- The behaviour is that of the ATA standard for a polled transfer of sectors by LBA28.
use revinix_os.Base.{
  ℕ, zero, suc, ◌+◌, ◌*◌, ◌/◌, ◌%◌, ◌^◌, ◌<◌, ◌≡◌, ◌≢◌, refl, ap, ◌∙◌, inl, inr, true, false, some,
  ◌==◌, if◌then◌else◌, has_bit, Bool-cases, ==_ne, arith,
}
use revinix_os.Ports.{Bus}
use revinix_os.Ata.{
  ata_timeout, status_port, command_port, drive_port, seccount_port, lba_lo_port, lba_mid_port,
  lba_hi_port, data_port, cmd_read_sectors, cmd_write_sectors, cmd_cache_flush, wait_from,
  ata_wait_not_busy, poll_from, poll_after, ata_poll, ata_setup,
}

pub data Direction : Type 0 where
  input : Direction
  output : Direction

-- what the drive is doing: the next sector of a transfer and how many are left, at least one
pub data Phase : Type 0 where
  idle : Phase
  transfer : Direction → ℕ → ℕ → Phase

unfoldable pub remaining : Direction → ℕ → ℕ → Phase
remaining way lba zero = Phase.idle
remaining way lba (suc left) = Phase.transfer way lba (suc left)

abbrev pub transfer_command : Direction → ℕ
transfer_command Direction.input = cmd_read_sectors
transfer_command Direction.output = cmd_write_sectors

-- the LBA28 address in the registers
abbrev pub address : (ℕ → ℕ) → ℕ
address reg =
    reg lba_lo_port
    + 2 ^ 8 * reg lba_mid_port
    + 2 ^ 16 * reg lba_hi_port
    + 2 ^ 24 * (reg drive_port % 16)

-- A bus with a disk: its phase, the words of its sectors, its registers, which take bytes, and for how
-- many more reads of the status it is busy, each answered in time.
pub record Disk {D : Type 0} (bus : Bus D) : Type 0 where
  pub phase : D → Phase
  pub words : D → ℕ → ℕ → ℕ
  pub reg : D → ℕ → ℕ
  pub busy : D → ℕ
  pub in_time : (d : D) → busy d < ata_timeout
  pub working :
      (d : D)
      → 0 < busy d
      → (bus.inb d status_port ≢ 0xFF)
        × (has_bit (bus.inb d status_port) 7 ≡ true)
        × (busy (bus.inb_next d status_port) < busy d)
  pub settled :
      (d : D)
      → busy d ≡ 0
      → (bus.inb d status_port ≢ 0xFF)
        × (has_bit (bus.inb d status_port) 7 ≡ false)
        × (busy (bus.inb_next d status_port) ≡ 0)
  pub status_read :
      (d : D)
      → (phase (bus.inb_next d status_port) ≡ phase d)
        × (words (bus.inb_next d status_port) ≡ words d)
  pub data_request :
      (d : D) (way : Direction) (lba left : ℕ)
      → busy d ≡ 0
      → phase d ≡ Phase.transfer way lba (suc left)
      → (has_bit (bus.inb d status_port) 0 ≡ false)
        × (has_bit (bus.inb d status_port) 5 ≡ false)
        × (has_bit (bus.inb d status_port) 3 ≡ true)
  pub register :
      (d : D) (p v : ℕ)
      → phase d ≡ Phase.idle
      → p ≢ command_port
      → v < 2 ^ 8
      → (phase (bus.outb d p v) ≡ Phase.idle)
        × (words (bus.outb d p v) ≡ words d)
        × ((q : ℕ) → reg (bus.outb d p v) q ≡ (if q == p then v else reg d q))
  pub command :
      (d : D) (way : Direction)
      → phase d ≡ Phase.idle
      → reg d drive_port / 16 ≡ 14
      → 0 < reg d seccount_port
      → (phase (bus.outb d command_port (transfer_command way))
          ≡ remaining way (address (reg d)) (reg d seccount_port))
        × (words (bus.outb d command_port (transfer_command way)) ≡ words d)
  pub sector_in :
      (d : D) (lba left : ℕ)
      → busy d ≡ 0
      → phase d ≡ Phase.transfer Direction.input lba (suc left)
      → ((i : ℕ) → i < 256 → bus.insw d data_port i ≡ words d lba i)
        × (phase (bus.insw_next d data_port) ≡ remaining Direction.input (suc lba) left)
        × (words (bus.insw_next d data_port) ≡ words d)
  pub sector_out :
      (d : D) (lba left : ℕ) (sent : ℕ → ℕ)
      → busy d ≡ 0
      → phase d ≡ Phase.transfer Direction.output lba (suc left)
      → (phase (bus.outsw d data_port sent) ≡ remaining Direction.output (suc lba) left)
        × ((l i : ℕ)
            → i < 256
            → words (bus.outsw d data_port sent) l i ≡ (if l == lba then sent i else words d l i))
  pub flush :
      (d : D)
      → phase d ≡ Phase.idle
      → (phase (bus.outb d command_port cmd_cache_flush) ≡ Phase.idle)
        × (words (bus.outb d command_port cmd_cache_flush) ≡ words d)

module _ {D : Type 0} {bus : Bus D} (disk : Disk bus) where
  -- the same phase and the same sectors
  abbrev pub Same : D → D → Type 0
  Same d e = (disk.phase e ≡ disk.phase d) × (disk.words e ≡ disk.words d)

  -- The wait ends at a status that says not busy.
  wait_from-settled :
      (left : ℕ) (d : D)
      → disk.busy d < left
      → (e : D) × (disk.busy e ≡ 0)
        × Same d e
        × (wait_from bus left d ≡ (some (bus.inb e status_port), bus.inb_next e status_port))
  unfolding wait_from
  wait_from-settled zero d lt = absurd (omega arith)
  wait_from-settled (suc left) d lt = elim (Bool-cases (disk.busy d == 0)) [
    | inl on ↦
        let still : disk.busy d ≡ 0 = ground arith in
        let (floating, quiet, after) = disk.settled d still in
        (d, still, (refl, refl), rw (wait_from, ==_ne _ _ floating, quiet) refl)
    | inr off ↦
        let (floating, on, down) = disk.working d (ground arith) in
        let (same, kept) = disk.status_read d in
        let (e, still, (same1, kept1), run) =
          wait_from-settled left (bus.inb_next d status_port) (omega arith) in
        (e, still, (same1 ∙ same, kept1 ∙ kept), rw (wait_from, ==_ne _ _ floating, on) run)
  ]

  pub ata_wait_not_busy-settled :
      (d : D)
      → (e : D) × (disk.busy e ≡ 0)
        × Same d e
        × (ata_wait_not_busy bus d ≡ (some (bus.inb e status_port), bus.inb_next e status_port))
  unfolding ata_wait_not_busy
  ata_wait_not_busy-settled d = wait_from-settled ata_timeout d (disk.in_time d)

  poll_from-request :
      (left s : ℕ) (d : D)
      → 0 < left
      → has_bit s 0 ≡ false
      → has_bit s 5 ≡ false
      → has_bit s 3 ≡ true
      → poll_from bus left s d ≡ (true, d)
  unfolding poll_from
  poll_from-request zero s d pos fine no_fault request = absurd (omega arith)
  poll_from-request (suc left) s d pos fine no_fault request =
      rw (poll_from, fine, no_fault, request) refl

  -- The drive is ready to move a sector, and idle otherwise.
  pub ata_poll-ready :
      (d : D) (way : Direction) (lba left : ℕ)
      → disk.phase d ≡ Phase.transfer way lba (suc left)
      → (e : D) × (disk.busy e ≡ 0) × Same d e × (ata_poll bus d ≡ (true, e))
  unfolding ata_poll poll_after
  ata_poll-ready d way lba left at =
      let (e, still, (same, kept), run) = ata_wait_not_busy-settled d in
      let (_, _, after) = disk.settled e still in
      let (phase1, words1) = disk.status_read e in
      let (fine, no_fault, request) = disk.data_request e way lba left still (same ∙ at) in
      (
        bus.inb_next e status_port,
        after,
        (phase1 ∙ same, words1 ∙ kept),
        ap (poll_after bus) run
            ∙ poll_from-request ata_timeout _ _ (omega arith) fine no_fault request,
      )

  -- The setup writes the address and the count to the registers.
  pub ata_setup-address :
      (d : D) (lba count : ℕ)
      → disk.phase d ≡ Phase.idle
      → lba < 2 ^ 28
      → count < 2 ^ 8
      → let e = ata_setup bus lba count d in
        (disk.phase e ≡ Phase.idle)
        × (disk.words e ≡ disk.words d)
        × (address (disk.reg e) ≡ lba)
        × (disk.reg e seccount_port ≡ count)
        × (disk.reg e drive_port / 16 ≡ 14)
  unfolding ata_setup
  ata_setup-address d lba count at low byte =
      let d1 = bus.outb d drive_port (0xE0 + lba / 2 ^ 24 % 16) in
      let d2 = bus.outb d1 seccount_port count in
      let d3 = bus.outb d2 lba_lo_port (lba % 256) in
      let d4 = bus.outb d3 lba_mid_port (lba / 2 ^ 8 % 256) in
      let (p1, w1, r1) =
        disk.register d drive_port (0xE0 + lba / 2 ^ 24 % 16) at (omega arith) (omega arith) in
      let (p2, w2, r2) = disk.register d1 seccount_port count p1 (omega arith) byte in
      let (p3, w3, r3) = disk.register d2 lba_lo_port (lba % 256) p2 (omega arith) (omega arith) in
      let (p4, w4, r4) =
        disk.register d3 lba_mid_port (lba / 2 ^ 8 % 256) p3 (omega arith) (omega arith) in
      let (p5, w5, r5) =
        disk.register d4 lba_hi_port (lba / 2 ^ 16 % 256) p4 (omega arith) (omega arith) in
      let drive : disk.reg (bus.outb d4 lba_hi_port (lba / 2 ^ 16 % 256)) drive_port
          ≡ 0xE0 + lba / 2 ^ 24 % 16 =
        rw (r5, r4, r3, r2, r1) refl in
      let mid : disk.reg (bus.outb d4 lba_hi_port (lba / 2 ^ 16 % 256)) lba_mid_port
          ≡ lba / 2 ^ 8 % 256 =
        rw (r5, r4) refl in
      let lo : disk.reg (bus.outb d4 lba_hi_port (lba / 2 ^ 16 % 256)) lba_lo_port ≡ lba % 256 =
        rw (r5, r4, r3) refl in
      (
        p5,
        w5 ∙ w4 ∙ w3 ∙ w2 ∙ w1,
        rw (drive, mid, lo, r5) (omega arith),
        rw (r5, r4, r3, r2) refl,
        rw drive (omega arith),
      )

  -- A command for sectors that the registers can address starts their transfer.
  pub ata_setup-remaining :
      (d : D) (way : Direction) (lba count : ℕ)
      → disk.phase d ≡ Phase.idle
      → lba < 2 ^ 28
      → 0 < count
      → count < 2 ^ 8
      → let e = bus.outb (ata_setup bus lba count d) command_port (transfer_command way) in
        (disk.phase e ≡ remaining way lba count) × (disk.words e ≡ disk.words d)
  ata_setup-remaining d way lba count at low more byte =
      let (p, w, a, n, master) = ata_setup-address d lba count at low byte in
      let e = ata_setup bus lba count d in
      let (p1, w1) = disk.command e way p master (rw n more) in
      (p1 ∙ ap (remaining way (address (disk.reg e))) n ∙ ap (λ l. remaining way l count) a, w1 ∙ w)
