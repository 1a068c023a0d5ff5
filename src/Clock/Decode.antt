-- ===== src/Clock/Decode.antt =====
-- The clock's registers decoded: what the chip encodes is what `rtc_read` answers.
use revinix_os.Base.{
  ℕ, zero, suc, ◌+◌, ◌-◌, ◌*◌, ◌/◌, ◌%◌, ◌≤◌, ◌<◌, ◌≡◌, refl, sym, ap, ◌∙◌, Bool, true, false, not,
  ◌&&◌, some, arith, leb, ◌==◌, if◌then◌else◌,
}
use revinix_os.Clock.{
  RtcTime, bcd_to_bin, same_time, read_stable, decode_fields, decode_hour, decode, rtc_read,
}

-- how the chip stores a number, and an hour
unfoldable pub stored : Bool → ℕ → ℕ
stored binary v = if binary then v else v / 10 * 16 + v % 10

unfoldable pub stored_hour : Bool → Bool → ℕ → ℕ
stored_hour binary full_day h =
    if full_day
    then stored binary h
    else stored binary (if h % 12 == 0 then 12 else h % 12) + (if leb 12 h then 128 else 0)

-- the registers of the time `t` of this century
unfoldable pub registers : Bool → Bool → RtcTime → RtcTime
registers binary full_day t = record {
  second = stored binary t.second;
  minute = stored binary t.minute;
  hour = stored_hour binary full_day t.hour;
  day = stored binary t.day;
  month = stored binary t.month;
  year = stored binary (t.year - 2000);
}

-- a time of the years 2000 to 2099
pub record IsTime (t : RtcTime) : Type 0 where
  pub seconds : t.second < 60
  pub minutes : t.minute < 60
  pub hours : t.hour < 24
  pub days : t.day < 32
  pub months : t.month < 13
  pub since : 2000 ≤ t.year
  pub until : t.year < 2100

bcd-stored : (v : ℕ) → v < 100 → bcd_to_bin (v / 10 * 16 + v % 10) ≡ v
unfolding bcd_to_bin
bcd-stored v lt = omega arith

hour-pm :
    (binary full_day : Bool) (h : ℕ)
    → h < 24
    → (stored_hour binary full_day h / 128 % 2 == 1) ≡ (not full_day && leb 12 h)
unfolding stored_hour stored
hour-pm true true h lt = ground arith
hour-pm true false h lt = ground arith
hour-pm false true h lt = ground arith
hour-pm false false h lt = ground arith

-- the hour of the day on a 12-hour clock, or as it is
abbrev clock_hour : Bool → ℕ → ℕ
clock_hour full_day h = if full_day then h else if h % 12 == 0 then 12 else h % 12

hour-low :
    (binary full_day : Bool) (h : ℕ)
    → h < 24
    → stored_hour binary full_day h % 128 ≡ stored binary (clock_hour full_day h)
unfolding stored_hour stored
hour-low true true h lt = ground arith
hour-low true false h lt = ground arith
hour-low false true h lt = ground arith
hour-low false false h lt = ground arith

hour-decoded :
    (full_day : Bool) (h : ℕ)
    → h < 24
    → decode_hour full_day (not full_day && leb 12 h) (clock_hour full_day h) ≡ h
unfolding decode_hour
hour-decoded true h lt = ground arith
hour-decoded false h lt = ground arith

field :
    (binary : Bool) (v : ℕ)
    → v < 100
    → (if binary then stored binary v else bcd_to_bin (stored binary v)) ≡ v
unfolding stored
field true v lt = refl
field false v lt = bcd-stored v lt

century : (y : ℕ) → 2000 ≤ y → y < 2100 → (y - 2000 + 2000) % 65536 ≡ y
century y lo hi = omega arith

clock_hour-lt : (full_day : Bool) (h : ℕ) → h < 24 → clock_hour full_day h < 100
clock_hour-lt true h lt = omega arith
clock_hour-lt false h lt = ground arith

year_byte :
    (y : ℕ)
    → 2000 ≤ y
    → y < 2100
    → ((y - 2000) / 10 * 16 + (y - 2000) % 10) % 256 ≡ (y - 2000) / 10 * 16 + (y - 2000) % 10
year_byte y lo hi = omega arith

decode-registers :
    (binary full_day : Bool) (t : RtcTime)
    → IsTime t
    → decode binary full_day (registers binary full_day t) ≡ t
unfolding decode registers decode_fields stored
decode-registers true full_day t is =
    rw
      (
        hour-pm true full_day t.hour is.hours,
        hour-low true full_day t.hour is.hours,
        hour-decoded full_day t.hour is.hours,
        century t.year is.since is.until,
      )
      refl
decode-registers false full_day t is =
    rw (hour-pm false full_day t.hour is.hours, hour-low false full_day t.hour is.hours)
      (rw
        (
          bcd-stored (clock_hour full_day t.hour) (clock_hour-lt full_day t.hour is.hours),
          bcd-stored t.second (omega (arith, is.seconds)),
          bcd-stored t.minute (omega (arith, is.minutes)),
          bcd-stored t.day (omega (arith, is.days)),
          bcd-stored t.month (omega (arith, is.months)),
          year_byte t.year is.since is.until,
          bcd-stored (t.year - 2000) (omega (arith, is.until)),
          hour-decoded full_day t.hour is.hours,
          century t.year is.since is.until,
        )
        refl)

same_time_refl : (a : RtcTime) → same_time a a ≡ true
unfolding same_time
same_time_refl a = ground arith

settles :
    (n fuel : ℕ) (reads : ℕ → RtcTime) (i : ℕ) (raw : RtcTime)
    → n < fuel
    → ((k : ℕ) → k < n → same_time (reads (i + k)) (reads (i + k + 1)) ≡ false)
    → reads (i + n) ≡ raw
    → reads (i + n + 1) ≡ raw
    → read_stable fuel reads i ≡ some raw
unfolding read_stable
settles n zero reads i raw enough moving e e' = absurd (omega arith)
settles zero (suc fuel) reads i raw enough moving e e' =
    let at : i + 0 ≡ i = omega arith in
    let a : reads i ≡ raw = ap reads (sym at) ∙ e in
    let b : reads (i + 1) ≡ raw = ap (λ j. reads (j + 1)) (sym at) ∙ e' in
    rw (a, b, same_time_refl raw) refl
settles (suc n) (suc fuel) reads i raw enough moving e e' =
    let at : i + 0 ≡ i = omega arith in
    let off : same_time (reads i) (reads (i + 1)) ≡ false =
      ap (λ j. same_time (reads j) (reads (j + 1))) (sym at) ∙ moving 0 (omega arith) in
    let shift : (k : ℕ) → i + 1 + k ≡ i + suc k = λ k. omega arith in
    rw off (
      settles n fuel reads (i + 1) raw (omega arith)
        (λ k lt.
          ap (λ j. same_time (reads j) (reads (j + 1))) (shift k) ∙ moving (suc k) (omega arith))
        (ap reads (shift n) ∙ e) (ap (λ j. reads (j + 1)) (shift n) ∙ e'))

answers :
    (fuel : ℕ) (reads : ℕ → RtcTime) (binary full_day : Bool) (raw : RtcTime)
    → read_stable fuel reads 0 ≡ some raw
    → rtc_read fuel reads binary full_day ≡ some (decode binary full_day raw)
unfolding rtc_read
answers fuel reads binary full_day raw found = rw (rtc_read, found) refl

-- In each of the four modes of the chip (binary or BCD, 24 or 12 hours): if the reads `n` and
-- `n + 1` are the first two in a row that agree, and they are the registers of a time of the years
-- 2000 to 2099, then `rtc_read` ends after them and answers that time.
pub rtc_read-registers :
    (binary full_day : Bool) (t : RtcTime) (n : ℕ) (reads : ℕ → RtcTime)
    → IsTime t
    → ((k : ℕ) → k < n → same_time (reads k) (reads (k + 1)) ≡ false)
    → reads n ≡ registers binary full_day t
    → reads (n + 1) ≡ registers binary full_day t
    → rtc_read (suc n) reads binary full_day ≡ some t
rtc_read-registers binary full_day t n reads is moving e e' =
    let at : (k : ℕ) → 0 + k ≡ k = λ k. omega arith in
    let found : read_stable (suc n) reads 0 ≡ some (registers binary full_day t) =
      settles n (suc n) reads 0 (registers binary full_day t) (omega arith)
        (λ k lt. ap (λ j. same_time (reads j) (reads (j + 1))) (at k) ∙ moving k lt)
        (ap reads (at n) ∙ e) (ap (λ j. reads (j + 1)) (at n) ∙ e') in
    answers (suc n) reads binary full_day (registers binary full_day t) found
    ∙ ap some (decode-registers binary full_day t is)
