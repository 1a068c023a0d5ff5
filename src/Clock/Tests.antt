-- ===== src/Clock/Tests.antt =====
-- The clock at a concrete time.
use revinix_os.Base.{ℕ, zero, suc, ◌+◌, ◌<◌, ◌≡◌, refl, false, some, arith, ◌==◌, if◌then◌else◌}
use revinix_os.Clock.{RtcTime, rtc_read, same_time}
use revinix_os.Clock.Decode.{IsTime, registers, stored, stored_hour, rtc_read-registers}

-- half past eleven at night
abbrev late : RtcTime
late = record { second = 59; minute = 30; hour = 23; day = 31; month = 12; year = 2026 }

late-IsTime : IsTime late
late-IsTime = record {
  seconds = omega arith;
  minutes = omega arith;
  hours = omega arith;
  days = omega arith;
  months = omega arith;
  since = omega arith;
  until = omega arith;
}

-- the first read came in the second before
abbrev reads : ℕ → RtcTime
reads i =
    if i == 0
    then record (registers false false late) { second = 0x58 }
    else registers false false late

ticked : (k : ℕ) → k < 1 → same_time (reads k) (reads (k + 1)) ≡ false
unfolding same_time registers stored stored_hour
ticked zero lt = refl
ticked (suc k) lt = absurd (omega arith)

rtc_read-registers_example : rtc_read 2 reads false false ≡ some late
rtc_read-registers_example =
    rtc_read-registers false false late 1 reads late-IsTime ticked refl refl
