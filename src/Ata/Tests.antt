-- ===== src/Ata/Tests.antt =====
-- A disk that is busy for one read of the status after every command and every sector.
use revinix_os.Base.{
  ℕ, zero, suc, ◌+◌, ◌*◌, ◌%◌, ◌^◌, ◌<◌, ◌≡◌, ◌≢◌, refl, inl, inr, Bool, true, false, some, ◌==◌,
  if◌then◌else◌, has_bit, Bool-cases, ==_ne, update, arith,
}
use revinix_os.Ports.{Bus}
use revinix_os.Fs.Block.{Bytes, block_read}
use revinix_os.Ata.{
  Ata, status_port, command_port, seccount_port, cmd_read_sectors, cmd_write_sectors, cmd_identify,
  ata_read, ata_write, ata_blockdev, ata_device,
}
use revinix_os.Ata.Drive.{Direction, Phase, remaining, Disk, address, transfer_command}
use revinix_os.Ata.Refused.{
  DiskRead, Request, beyond, outside, answer, ata_requests-Refused, ata_blockdev-DiskRead,
}
use revinix_os.Ata.Write.{ata_read-ata_write}

record Toy : Type 0 where
  phase : Phase
  words : ℕ → ℕ → ℕ
  regs : ℕ → ℕ
  slow : Bool

abbrev ready_status : Phase → ℕ
ready_status Phase.idle = 0x40
ready_status (Phase.transfer way lba left) = 0x48

abbrev status : Toy → ℕ
status d = if d.slow then 0x80 else ready_status d.phase

abbrev start : Toy → Direction → Toy
start d way = record d {
  phase = remaining way (address d.regs) (d.regs seccount_port);
  slow = true;
}

abbrev issue : Toy → ℕ → Toy
issue d code =
    if code == cmd_read_sectors
    then start d Direction.input
    else if code == cmd_write_sectors
    then start d Direction.output
    else if code == cmd_identify
    then record d { phase = Phase.transfer Direction.input 0 1; slow = true }
    else record d { slow = true }

abbrev next_phase : Phase → Phase
next_phase (Phase.transfer way lba (suc left)) = remaining way (suc lba) left
next_phase (Phase.transfer way lba zero) = Phase.idle
next_phase Phase.idle = Phase.idle

abbrev sector_of : Phase → ℕ
sector_of (Phase.transfer way lba left) = lba
sector_of Phase.idle = 0

abbrev toy_bus : Bus Toy
toy_bus = record {
  inb = λ d p. if p == status_port then status d else d.regs p;
  inb_next = λ d p. if p == status_port then record d { slow = false } else d;
  outb = λ d p v. if p == command_port then issue d v else record d { regs = update d.regs p v };
  insw = λ d p i. d.words (sector_of d.phase) i;
  insw_next = λ d p. record d { phase = next_phase d.phase; slow = true };
  outsw = λ d p sent. record d {
    phase = next_phase d.phase;
    words = λ l i. if l == sector_of d.phase then sent i else d.words l i;
    slow = true;
  };
}

abbrev toy_busy : Toy → ℕ
toy_busy d = if d.slow then 1 else 0

toy_working :
    (d : Toy)
    → 0 < toy_busy d
    → (status d ≢ 0xFF)
      × (has_bit (status d) 7 ≡ true)
      × (toy_busy (record d { slow = false }) < toy_busy d)
unfolding has_bit
toy_working d busy = elim (Bool-cases d.slow) [
  | inl on ↦ simp on ((λ e. omega (arith, e)), refl, omega arith)
  | inr off ↦ absurd (ground arith)
]

ready_status_lem : (p : Phase) → (ready_status p ≢ 0xFF) × (has_bit (ready_status p) 7 ≡ false)
unfolding has_bit
ready_status_lem Phase.idle = ((λ e. omega (arith, e)), refl)
ready_status_lem (Phase.transfer way lba left) = ((λ e. omega (arith, e)), refl)

toy_settled :
    (d : Toy)
    → toy_busy d ≡ 0
    → (status d ≢ 0xFF)
      × (has_bit (status d) 7 ≡ false)
      × (toy_busy (record d { slow = false }) ≡ 0)
toy_settled d still = elim (Bool-cases d.slow) [
  | inl on ↦ absurd (ground arith)
  | inr off ↦ let (valid, quiet) = ready_status_lem d.phase in simp off (valid, quiet, refl)
]

toy_request :
    (d : Toy) (way : Direction) (lba left : ℕ)
    → toy_busy d ≡ 0
    → d.phase ≡ Phase.transfer way lba (suc left)
    → (has_bit (status d) 0 ≡ false)
      × (has_bit (status d) 5 ≡ false)
      × (has_bit (status d) 3 ≡ true)
unfolding has_bit
toy_request d way lba left still at = elim (Bool-cases d.slow) [
  | inl on ↦ absurd (ground arith)
  | inr off ↦ simp (off, at) (refl, refl, refl)
]

toy_register :
    (d : Toy) (p v : ℕ)
    → d.phase ≡ Phase.idle
    → p ≢ command_port
    → v < 2 ^ 8
    → ((toy_bus.outb d p v).phase ≡ Phase.idle)
      × ((toy_bus.outb d p v).words ≡ d.words)
      × ((q : ℕ) → (toy_bus.outb d p v).regs q ≡ (if q == p then v else d.regs q))
unfolding update
toy_register d p v at other byte = rw (==_ne p command_port other) (at, refl, λ q. refl)

toy_command :
    (d : Toy) (way : Direction)
    → ((toy_bus.outb d command_port (transfer_command way)).phase
        ≡ remaining way (address d.regs) (d.regs seccount_port))
      × ((toy_bus.outb d command_port (transfer_command way)).words ≡ d.words)
toy_command d Direction.input = (refl, refl)
toy_command d Direction.output = (refl, refl)

toy_disk : Disk toy_bus
toy_disk = record {
  phase = λ d. d.phase;
  words = λ d. d.words;
  reg = λ d. d.regs;
  busy = toy_busy;
  in_time = λ d. ground arith;
  working = toy_working;
  settled = toy_settled;
  status_read = λ d. (refl, refl);
  data_request = toy_request;
  register = toy_register;
  command = λ d way at master more. toy_command d way;
  sector_in = λ d lba left still at. simp at ((λ i lt. refl), refl, refl);
  sector_out = λ d lba left sent still at. simp at (refl, λ l i lt. refl);
  flush = λ d at. (at, refl);
}

-- a disk of 700 sectors that numbers its words
abbrev toy : Toy
toy = record { phase = Phase.idle; words = λ l i. l + i + 512; regs = λ p. 0; slow = false }

abbrev found_disk : Ata
found_disk = record { present = true; writes_ok = true; sectors = 700 }

ata_blockdev-DiskRead_example :
    (ata_blockdev toy_bus found_disk toy ≡ some (ata_device toy_bus found_disk toy))
    × DiskRead
        (λ l i. l + i + 512)
        700
        10
        600
        (λ a. 0)
        (block_read (some (ata_device toy_bus found_disk toy)) 10 600 (λ a. 0))
unfolding toy_disk
ata_blockdev-DiskRead_example =
    ata_blockdev-DiskRead toy_disk found_disk 10 600 (λ a. 0) toy refl (omega arith) refl

ata_read-ata_write_example :
    (e : Toy) × (out : Bytes) × (f : Toy) × (ata_write toy_bus found_disk 10 2 (λ a. a % 256) toy
      ≡ (true, e))
    × (ata_read toy_bus found_disk 10 2 0 (λ a. 0) e ≡ (true, out, f))
    × ((i : ℕ) → i < 2 * 512 → out i ≡ i % 256)
unfolding toy_disk
ata_read-ata_write_example =
    ata_read-ata_write toy_disk found_disk 10 2 (λ a. a % 256) (λ a. 0) toy refl refl (omega arith)
      refl (omega arith) (omega arith) (omega arith) (λ j. omega arith)

ata_requests-Refused_example :
    answer toy_bus found_disk 699 2 0 (λ a. 0) toy Request.writing ≡ (false, (λ a. 0), toy)
ata_requests-Refused_example =
    ata_requests-Refused toy_bus found_disk 699 2 0 (λ a. 0) toy Request.writing
      (outside (beyond (omega arith)))
