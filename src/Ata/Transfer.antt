-- ===== src/Ata/Transfer.antt =====
-- kernel/drivers/ata.c: what ata_read, ata_write and ata_block_read move between the disk and the
-- caller's buffer, and the requests they refuse.
use revinix_os.Base.{
  ℕ, zero, suc, ◌+◌, ◌-◌, ◌*◌, ◌/◌, ◌%◌, ◌^◌, ◌<◌, ◌≤◌, ◌≡◌, refl, sym, ap, ◌∙◌, inl, inr, Bool,
  true, false, ltb, leb, ◌==◌, if◌then◌else◌, Bool-cases, add64, sub32, arith,
}
use revinix_os.Ports.{Bus}
use revinix_os.Fs.Block.{Bytes}
use revinix_os.Ata.{
  Ata, store_words, command_port, data_port, cmd_read_sectors, ata_check, ata_poll, ata_setup,
  pull_sectors, ata_read, read_chunks,
}
use revinix_os.Ata.Drive.{Direction, Phase, remaining, Disk, ata_poll-ready, ata_setup-remaining}

-- byte `i` of the sectors from `lba` on, of a disk of words
abbrev pub sector_byte : (ℕ → ℕ → ℕ) → ℕ → ℕ → ℕ
sector_byte words lba i = words (lba + i / 512) (i % 512 / 2) / 256 ^ (i % 2) % 256

-- `out` is `buf` with `count` sectors at `off`.
pub record Filled (words : ℕ → ℕ → ℕ) (lba count off : ℕ) (buf out : Bytes) : Type 0 where
  pub inside : (i : ℕ) → i < count * 512 → out (off + i) ≡ sector_byte words lba i
  pub below : (a : ℕ) → a < off → out a ≡ buf a
  pub above : (a : ℕ) → off + count * 512 ≤ a → out a ≡ buf a

no_rounds : (words : ℕ → ℕ → ℕ) (lba off : ℕ) (buf : Bytes) → Filled words lba 0 off buf buf
no_rounds words lba off buf = record {
  inside = λ i lt. absurd (omega arith);
  below = λ a lt. refl;
  above = λ a le. refl;
}

sector_byte_later :
    (words : ℕ → ℕ → ℕ) (lba count i : ℕ)
    → count * 512 ≤ i
    → sector_byte words lba i ≡ sector_byte words (lba + count) (i - count * 512)
sector_byte_later words lba count i le =
    let at : lba + i / 512 ≡ lba + count + (i - count * 512) / 512 = omega arith in
    let word : i % 512 / 2 ≡ (i - count * 512) % 512 / 2 = omega arith in
    let half : i % 2 ≡ (i - count * 512) % 2 = omega arith in rw (at, word, half) refl

pub retyped :
    {words words' : ℕ → ℕ → ℕ} {lba lba' count off : ℕ} {buf out : Bytes}
    → words' ≡ words
    → lba' ≡ lba
    → Filled words' lba' count off buf out
    → Filled words lba count off buf out
retyped e f filled = rw (e, f) at filled

-- the sectors of one command, whose number fits in a byte
chunk_of :
    (count : ℕ)
    → 0 < count
    → (n : ℕ) × ((if ltb 255 count then 255 else count) % 2 ^ 8 ≡ n)
      × (0 < n)
      × (n ≤ count)
      × (n < 2 ^ 8)
chunk_of count more =
    ((if ltb 255 count then 255 else count) % 2 ^ 8, refl, ground arith, ground arith, omega arith)

-- Sectors after sectors.
chained :
    {words : ℕ → ℕ → ℕ} {lba n more count off : ℕ} {buf mid out : Bytes}
    → n + more ≡ count
    → Filled words lba n off buf mid
    → Filled words (lba + n) more (off + n * 512) mid out
    → Filled words lba count off buf out
chained {words} {lba} {n} {more} {count} {off} {buf} {mid} {out} total first second = record {
  inside = λ i lt. elim (Bool-cases (ltb i (n * 512))) [
    | inl on ↦ second.below (off + i) (ground arith) ∙ first.inside i (ground arith)
    | inr far ↦
        let e : off + i ≡ off + n * 512 + (i - n * 512) = ground arith in
        ap out e
        ∙ second.inside (i - n * 512) (ground arith)
        ∙ sym (sector_byte_later words lba n i (ground arith))
  ];
  below = λ a lt. second.below a (omega arith) ∙ first.below a lt;
  above = λ a le. second.above a (omega arith) ∙ first.above a (omega arith);
}

store_words-Filled :
    (words : ℕ → ℕ → ℕ) (got : ℕ → ℕ) (lba off : ℕ) (buf : Bytes)
    → ((i : ℕ) → i < 256 → got i ≡ words lba i)
    → Filled words lba 1 off buf (store_words got off buf)
unfolding store_words
store_words-Filled words got lba off buf same = record {
  inside = λ i lt.
      let at : off + i - off ≡ i = omega arith in
      let here : lba + i / 512 ≡ lba = omega arith in
      let word : i % 512 ≡ i = omega arith in
      let lo : leb off (off + i) ≡ true = ground arith in
      let hi : ltb (off + i) (off + 512) ≡ true = ground arith in
      rw (lo, hi, at, here, word, same (i / 2) (omega arith)) refl;
  below = λ a lt. let lo : leb off a ≡ false = ground arith in rw lo refl;
  above = λ a le. let hi : ltb a (off + 512) ≡ false = ground arith in rw hi (ground arith);
}

pub ata_check-inside :
    (a : Ata) (lba count : ℕ)
    → a.present ≡ true
    → 0 < count
    → lba + count ≤ a.sectors
    → ata_check a lba count ≡ true
unfolding ata_check
ata_check-inside a lba count on more fits = simp on (ground arith)

module _ {D : Type 0} {bus : Bus D} (disk : Disk bus) where
  -- The transfer succeeds: the buffer holds the sectors, the disk is idle and still holds them.
  abbrev pub Reads : D → ℕ → ℕ → ℕ → Bytes → Bool × Bytes × D → Type 0
  Reads d lba count off buf result =
      (out : Bytes) × (e : D) × (result ≡ (true, out, e))
      × Filled (disk.words d) lba count off buf out
      × (disk.phase e ≡ Phase.idle)
      × (disk.words e ≡ disk.words d)

  pull_sectors_next :
      (left off : ℕ) (buf : Bytes) (d e : D)
      → ata_poll bus d ≡ (true, e)
      → pull_sectors bus (suc left) off buf d
        ≡ pull_sectors bus left
            (off + 512)
            (store_words (bus.insw e data_port) off buf)
            (bus.insw_next e data_port)
  unfolding pull_sectors
  pull_sectors_next left off buf d e run = simp (pull_sectors, run)

  pull_sectors-Reads :
      (left lba off : ℕ) (buf : Bytes) (d : D)
      → disk.phase d ≡ remaining Direction.input lba left
      → Reads d lba left off buf (pull_sectors bus left off buf d)
  unfolding pull_sectors remaining
  pull_sectors-Reads zero lba off buf d at = (buf, d, refl, no_rounds _ lba off buf, at, refl)
  pull_sectors-Reads (suc left) lba off buf d at =
      let (e, still, (same, kept), run) = ata_poll-ready disk d Direction.input lba left at in
      let (moved, next, words) = disk.sector_in e lba left still (same ∙ at) in
      let mid = store_words (bus.insw e data_port) off buf in
      let (out, f, rest, filled, idle, words2) =
        pull_sectors-Reads left (suc lba) (off + 512) mid (bus.insw_next e data_port) next in
      let words1 : disk.words (bus.insw_next e data_port) ≡ disk.words d = words ∙ kept in
      let first : Filled (disk.words d) lba 1 off buf mid =
        store_words-Filled _ _ lba off buf (λ i lt. moved i lt ∙ ap (λ w. w lba i) kept) in
      (
        out,
        f,
        pull_sectors_next left off buf d e run ∙ rest,
        chained (omega arith) first (retyped words1 (omega arith) filled),
        idle,
        words2 ∙ words1,
      )

  ata_read_start :
      (a : Ata) (lba count off : ℕ) (buf : Bytes) (d : D)
      → ata_check a lba count ≡ true
      → ata_read bus a lba count off buf d
        ≡ pull_sectors bus count off buf
            (bus.outb (ata_setup bus lba count d) command_port cmd_read_sectors)
  unfolding ata_read
  ata_read_start a lba count off buf d inside = simp (ata_read, inside)

  pub ata_read-Reads :
      (a : Ata) (lba count off : ℕ) (buf : Bytes) (d : D)
      → a.present ≡ true
      → a.sectors ≤ 2 ^ 28
      → disk.phase d ≡ Phase.idle
      → 0 < count
      → count < 2 ^ 8
      → lba + count ≤ a.sectors
      → Reads d lba count off buf (ata_read bus a lba count off buf d)
  ata_read-Reads a lba count off buf d on lba28 at more byte fits =
      let (start, words) =
        ata_setup-remaining disk d Direction.input lba count at (omega arith) more byte in
      let (out, e, run, filled, idle, words1) =
        pull_sectors-Reads count lba off buf
          (bus.outb (ata_setup bus lba count d) command_port cmd_read_sectors) start in
      (
        out,
        e,
        ata_read_start a lba count off buf d (ata_check-inside a lba count on more fits) ∙ run,
        retyped words refl filled,
        idle,
        words1 ∙ words,
      )

  read_chunks_next :
      (fuel : ℕ) (a : Ata) (lba count off n : ℕ) (buf mid : Bytes) (d e : D)
      → (if ltb 255 count then 255 else count) % 2 ^ 8 ≡ n
      → lba + n < 2 ^ 32
      → 0 < count
      → n ≤ count
      → count < 2 ^ 32
      → ata_read bus a lba n off buf d ≡ (true, mid, e)
      → read_chunks bus (suc fuel) a lba count off buf d
        ≡ read_chunks bus fuel a (lba + n) (count - n) (off + n * 512) mid e
  unfolding read_chunks
  read_chunks_next fuel a lba count off n buf mid d e chunk far more most small run =
      let nonzero : (count == 0) ≡ false = ground arith in
      let low : lba % 2 ^ 32 ≡ lba = omega arith in
      let on_to : add64 lba n ≡ lba + n = omega arith in
      let left : sub32 count n ≡ count - n = omega arith in
      simp (read_chunks, nonzero, chunk, low, run, on_to, left)

  pub read_chunks-Reads :
      (fuel : ℕ) (a : Ata) (lba count off : ℕ) (buf : Bytes) (d : D)
      → a.present ≡ true
      → a.sectors ≤ 2 ^ 28
      → disk.phase d ≡ Phase.idle
      → count ≤ fuel
      → lba + count ≤ a.sectors
      → Reads d lba count off buf (read_chunks bus fuel a lba count off buf d)
  unfolding read_chunks
  read_chunks-Reads zero a lba count off buf d on lba28 at enough fits =
      let none_left : count ≡ 0 = omega arith in
      rw none_left (buf, d, refl, no_rounds _ lba off buf, at, refl)
  read_chunks-Reads (suc fuel) a lba zero off buf d on lba28 at enough fits =
      (buf, d, refl, no_rounds _ lba off buf, at, refl)
  read_chunks-Reads (suc fuel) a lba (suc count) off buf d on lba28 at enough fits =
      let (n, chunk, more, most, byte) = chunk_of (suc count) (omega arith) in
      let (mid, e, run, first, idle, words) =
        ata_read-Reads a lba n off buf d on lba28 at more byte (omega arith) in
      let (out, f, rest, second, idle1, words1) =
        read_chunks-Reads fuel a (lba + n) (suc count - n) (off + n * 512) mid e on lba28 idle
          (omega arith) (omega arith) in
      (
        out,
        f,
        read_chunks_next fuel a lba (suc count) off n buf mid d e chunk (omega arith) (omega arith)
              most (omega arith) run
            ∙ rest,
        chained (omega arith) first (retyped words refl second),
        idle1,
        words1 ∙ words,
      )
