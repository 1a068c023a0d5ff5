-- ===== src/Ata/Write.antt =====
-- kernel/drivers/ata.c: what ata_write leaves on the disk, and reading it back.
use revinix_os.Base.{
  ℕ, zero, suc, ◌+◌, ◌-◌, ◌*◌, ◌/◌, ◌%◌, ◌^◌, ◌<◌, ◌≤◌, ◌≡◌, refl, sym, ap, ◌∙◌, ◌⊎◌, inl, inr,
  Bool, true, some, ◌==◌, Bool-cases, ==_ne, arith,
}
use revinix_os.Ports.{Bus}
use revinix_os.Fs.Block.{Bytes}
use revinix_os.Ata.{
  Ata, load_word, status_port, command_port, data_port, cmd_write_sectors, cmd_cache_flush,
  ata_check, ata_check, ata_poll, ata_setup, ata_read, push_sectors, flush_after, ata_write,
  ata_wait_not_busy,
}
use revinix_os.Ata.Drive.{
  Direction, Phase, remaining, Disk, Same, ata_poll-ready, ata_setup-remaining,
  ata_wait_not_busy-settled,
}
use revinix_os.Ata.Transfer.{ata_check-inside, ata_read-Reads}

-- `after` is `before` with the bytes from `off` on in `count` sectors from `lba`.
pub record Written (before after : ℕ → ℕ → ℕ) (lba count off : ℕ) (buf : Bytes) : Type 0 where
  pub inside :
      (l i : ℕ)
      → lba ≤ l
      → l < lba + count
      → i < 256
      → after l i ≡ load_word buf (off + (l - lba) * 512) i
  pub outside : (l i : ℕ) → (l < lba) ⊎ (lba + count ≤ l) → i < 256 → after l i ≡ before l i

retyped :
    {before before' after after' : ℕ → ℕ → ℕ} {lba count off : ℕ} {buf : Bytes}
    → before' ≡ before
    → after ≡ after'
    → Written before' after' lba count off buf
    → Written before after lba count off buf
retyped e f written = rw (e, ← f) at written

module _ {D : Type 0} {bus : Bus D} (disk : Disk bus) where
  abbrev Sends : D → ℕ → ℕ → ℕ → Bytes → Bool × D → Type 0
  Sends d lba count off buf result =
      (e : D) × (result ≡ (true, e))
      × Written (disk.words d) (disk.words e) lba count off buf
      × (disk.phase e ≡ Phase.idle)

  push_sectors_next :
      (left off : ℕ) (buf : Bytes) (d e : D)
      → ata_poll bus d ≡ (true, e)
      → push_sectors bus (suc left) off buf d
        ≡ push_sectors bus left (off + 512) buf (bus.outsw e data_port (load_word buf off))
  unfolding push_sectors
  push_sectors_next left off buf d e run = simp (push_sectors, run)

  push_sectors-Sends :
      (left lba off : ℕ) (buf : Bytes) (d : D)
      → disk.phase d ≡ remaining Direction.output lba left
      → Sends d lba left off buf (push_sectors bus left off buf d)
  unfolding push_sectors remaining
  push_sectors-Sends zero lba off buf d at = (
    d,
    refl,
    record { inside = λ l i lo hi small. absurd (omega arith); outside = λ l i out small. refl },
    at,
  )
  push_sectors-Sends (suc left) lba off buf d at =
      let (e, still, (same, kept), run) = ata_poll-ready disk d Direction.output lba left at in
      let sent = load_word buf off in
      let (next, words) = disk.sector_out e lba left sent still (same ∙ at) in
      let (f, rest, written, idle) =
        push_sectors-Sends left (suc lba) (off + 512) buf (bus.outsw e data_port sent) next in
      (
        f,
        push_sectors_next left off buf d e run ∙ rest,
        record {
          inside = λ l i lo hi small. elim (Bool-cases (l == lba)) [
            | inl on ↦
                let here : l ≡ lba = ground arith in
                let start : off + (l - lba) * 512 ≡ off = ground arith in
                written.outside l i (inl (ground arith)) small
                ∙ words l i small
                ∙ rw (on, start) refl
            | inr later ↦
                let start : off + 512 + (l - suc lba) * 512 ≡ off + (l - lba) * 512 =
                  ground arith in
                written.inside l i (ground arith) (omega arith) small ∙ rw start refl
          ];
          outside = λ l i out small.
              written.outside l i (omega arith) small
              ∙ words l i small
              ∙ rw (==_ne l lba (omega arith)) (ap (λ w. w l i) kept);
        },
        idle,
      )

  flush_after_done :
      (s : ℕ) (d e : D)
      → ata_wait_not_busy bus (bus.outb d command_port cmd_cache_flush) ≡ (some s, e)
      → flush_after bus (true, d) ≡ (true, e)
  unfolding flush_after
  flush_after_done s d e run = simp (flush_after, run)

  flush_after-idle :
      (d : D)
      → disk.phase d ≡ Phase.idle
      → (e : D) × (flush_after bus (true, d) ≡ (true, e)) × Same disk d e
  flush_after-idle d at =
      let (quiet, words) = disk.flush d at in
      let (e, still, (same, kept), run) =
        ata_wait_not_busy-settled disk (bus.outb d command_port cmd_cache_flush) in
      let (phase1, words1) = disk.status_read e in
      (
        bus.inb_next e status_port,
        flush_after_done _ d _ run,
        (phase1 ∙ same ∙ quiet ∙ sym at, words1 ∙ kept ∙ words),
      )

  ata_write_start :
      (a : Ata) (lba count : ℕ) (buf : Bytes) (d : D)
      → a.writes_ok ≡ true
      → ata_check a lba count ≡ true
      → ata_write bus a lba count buf d
        ≡ flush_after bus (
            push_sectors bus count 0 buf
              (bus.outb (ata_setup bus lba count d) command_port cmd_write_sectors))
  unfolding ata_write
  ata_write_start a lba count buf d allowed inside = simp (ata_write, allowed, inside)

  -- With an idle disk of at most 2^28 sectors that was found, and with writes allowed, `ata_write` of
  -- at most 255 sectors that are all on the disk succeeds: these sectors hold the words of the buffer, the others
  -- what they held, and the disk is idle.
  pub ata_write-Written :
      (a : Ata) (lba count : ℕ) (buf : Bytes) (d : D)
      → a.present ≡ true
      → a.writes_ok ≡ true
      → a.sectors ≤ 2 ^ 28
      → disk.phase d ≡ Phase.idle
      → 0 < count
      → count < 2 ^ 8
      → lba + count ≤ a.sectors
      → Sends d lba count 0 buf (ata_write bus a lba count buf d)
  ata_write-Written a lba count buf d on allowed lba28 at more byte fits =
      let (start, words) =
        ata_setup-remaining disk d Direction.output lba count at (omega arith) more byte in
      let (e, run, written, idle) =
        push_sectors-Sends count lba 0 buf
          (bus.outb (ata_setup bus lba count d) command_port cmd_write_sectors) start in
      let (f, flushed, (same, kept)) = flush_after-idle e idle in
      (
        f,
        ata_write_start a lba count buf d allowed (ata_check-inside a lba count on more fits)
            ∙ ap (flush_after bus) run
            ∙ flushed,
        retyped words kept written,
        same ∙ idle,
      )

  load_word_store :
      (buf : Bytes) (i : ℕ)
      → ((j : ℕ) → buf j < 256)
      → load_word buf (i / 512 * 512) (i % 512 / 2) / 256 ^ (i % 2) % 256 ≡ buf i
  unfolding load_word
  load_word_store buf i bytes = elim (Bool-cases (i % 2 == 0)) [
    | inl even ↦
        let e : i % 2 ≡ 0 = ground arith in
        let at : i / 512 * 512 + 2 * (i % 512 / 2) ≡ i = ground arith in
        let small = bytes i in let small1 = bytes (i + 1) in rw (at, e) (omega arith)
    | inr odd ↦
        let e : i % 2 ≡ 1 = ground arith in
        let at : i / 512 * 512 + 2 * (i % 512 / 2) + 1 ≡ i = ground arith in
        let small = bytes i in
        let small1 = bytes (i / 512 * 512 + 2 * (i % 512 / 2)) in rw (at, e) (omega arith)
  ]

  -- With an idle disk of at most 2^28 sectors that was found, and with writes allowed, what `ata_write`
  -- puts in sectors of the disk, as many as its byte can count, is what `ata_read` of these sectors then reads, byte by byte.
  pub ata_read-ata_write :
      (a : Ata) (lba count : ℕ) (buf old : Bytes) (d : D)
      → a.present ≡ true
      → a.writes_ok ≡ true
      → a.sectors ≤ 2 ^ 28
      → disk.phase d ≡ Phase.idle
      → 0 < count
      → count < 2 ^ 8
      → lba + count ≤ a.sectors
      → ((j : ℕ) → buf j < 256)
      → (e : D) × (out : Bytes) × (f : D) × (ata_write bus a lba count buf d ≡ (true, e))
        × (ata_read bus a lba count 0 old e ≡ (true, out, f))
        × ((i : ℕ) → i < count * 512 → out i ≡ buf i)
  ata_read-ata_write a lba count buf old d on allowed lba28 at more byte fits bytes =
      let (e, sent, written, idle) =
        ata_write-Written a lba count buf d on allowed lba28 at more byte fits in
      let (out, f, run, filled, _, _) =
        ata_read-Reads disk a lba count 0 old e on lba28 idle more byte fits in
      (
        e,
        out,
        f,
        sent,
        run,
        λ i lt.
            let from : 0 + (lba + i / 512 - lba) * 512 ≡ i / 512 * 512 = omega arith in
            let word =
              written.inside (lba + i / 512) (i % 512 / 2) (omega arith) (omega arith)
                (omega arith) in
            let start : i ≡ 0 + i = omega arith in
            ap out start
            ∙ filled.inside i lt
            ∙ ap (λ (w : ℕ). w / 256 ^ (i % 2) % 256)
                (word ∙ ap (λ at. load_word buf at (i % 512 / 2)) from)
            ∙ load_word_store buf i bytes,
      )
