-- ===== src/Clock.antt =====
-- kernel/drivers/rtc.c: the date and time of the CMOS clock.
-- The registers that successive reads of the chip give are a sequence, an argument of the model.
pub mod Decode
pub mod Cmos
mod Tests
use revinix_os.Base.{
  ℕ, zero, suc, ◌+◌, ◌*◌, ◌/◌, ◌%◌, Bool, true, false, not, ◌&&◌, Option, none, some, ◌==◌,
  if◌then◌else◌,
}

-- `struct rtc_time`
pub record RtcTime : Type 0 where
  pub second : ℕ
  pub minute : ℕ
  pub hour : ℕ
  pub day : ℕ
  pub month : ℕ
  pub year : ℕ

pub bcd_to_bin : ℕ → ℕ
bcd_to_bin v = (v % 16 + v / 16 * 10) % 256

pub same_time : RtcTime → RtcTime → Bool
same_time a b =
    (a.second == b.second)
    && (a.minute == b.minute)
    && (a.hour == b.hour)
    && (a.day == b.day)
    && (a.month == b.month)
    && (a.year == b.year)

-- The loop that reads until two reads agree, after the read `i`; `none` stands for more reads than
-- the fuel.
pub read_stable : ℕ → (ℕ → RtcTime) → ℕ → Option RtcTime
read_stable zero reads i = none
read_stable (suc fuel) reads i =
    let rest = read_stable fuel reads (i + 1) in
    if same_time (reads i) (reads (i + 1)) then some (reads (i + 1)) else rest

-- bit 2 of register B says binary, bit 1 says 24 hours
pub decode_fields : Bool → RtcTime → RtcTime
decode_fields binary b = if binary then b else record {
  second = bcd_to_bin b.second;
  minute = bcd_to_bin b.minute;
  hour = bcd_to_bin b.hour;
  day = bcd_to_bin b.day;
  month = bcd_to_bin b.month;
  year = bcd_to_bin (b.year % 256);
}

pub decode_hour : Bool → Bool → ℕ → ℕ
decode_hour full_day pm hour =
    if not full_day && pm
    then (hour % 12 + 12) % 256
    else if not full_day && (hour == 12)
    then 0
    else hour

-- what `rtc_read` does with the registers, by the two bits of register B
pub decode : Bool → Bool → RtcTime → RtcTime
decode binary full_day raw =
    let pm = raw.hour / 128 % 2 == 1 in
    let b = decode_fields binary (record raw { hour = raw.hour % 128 }) in
    record b { hour = decode_hour full_day pm b.hour; year = (b.year + 2000) % 65536 }

pub rtc_read : ℕ → (ℕ → RtcTime) → Bool → Bool → Option RtcTime
rtc_read fuel reads binary full_day = elim (read_stable fuel reads 0) [
  | none ↦ none
  | some raw ↦ some (decode binary full_day raw)
]
