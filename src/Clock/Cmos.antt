-- ===== src/Clock/Cmos.antt =====
-- kernel/drivers/rtc.c: the reads of the CMOS chip, over a bus.
use revinix_os.Base.{ℕ, zero, suc, Bool, true, false, bit_or, has_bit}
use revinix_os.Ports.{Bus}
use revinix_os.Clock.{RtcTime}

abbrev pub cmos_addr : ℕ
cmos_addr = 0x70

abbrev pub cmos_data : ℕ
cmos_data = 0x71

module _ {D : Type 0} (bus : Bus D) where
  -- the register's value, and the bus
  unfoldable pub cmos_read : ℕ → D → ℕ × D
  cmos_read reg d =
      let d1 = bus.outb d cmos_addr (bit_or 0x80 reg) in
      (bus.inb d1 cmos_data, bus.inb_next d1 cmos_data)

  pub update_in_progress : D → Bool × D
  update_in_progress d = let (a, d1) = cmos_read 0x0A d in (has_bit a 7, d1)

  -- the loop that waits for an update to end, with the rounds that are left
  unfoldable pub wait_update : ℕ → D → D
  wait_update zero d = d
  wait_update (suc left) d =
      let (busy, d1) = update_in_progress d in elim busy [ false ↦ d1 | true ↦ wait_update left d1 ]

  pub read_raw : D → RtcTime × D
  read_raw d =
      let (second, d1) = cmos_read 0x00 (wait_update 100000 d) in
      let (minute, d2) = cmos_read 0x02 d1 in
      let (hour, d3) = cmos_read 0x04 d2 in
      let (day, d4) = cmos_read 0x07 d3 in
      let (month, d5) = cmos_read 0x08 d4 in
      let (year, d6) = cmos_read 0x09 d5 in
      (
        record {
          second = second;
          minute = minute;
          hour = hour;
          day = day;
          month = month;
          year = year;
        },
        d6,
      )
