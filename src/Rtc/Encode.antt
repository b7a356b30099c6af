-- ===== src/Rtc/Encode.antt =====
-- How the clock stores a date, and that arch/x86/drivers/cmos/rtc.c reads it back.
use cobra_os.Base.{
  ℕ, ◌+◌, ◌*◌, ◌/◌, ◌%◌, ◌<◌, ◌≤◌, ◌≡◌, Bool, true, false, ltb, ◌==◌, if◌then◌else◌, arith,
}
use cobra_os.Rtc.{Datetime, bcd_to_bin, decode_hour, decode_year, read_datetime}

-- two decimal digits, one to a half-byte
abbrev pub to_bcd : ℕ → ℕ
to_bcd n = n / 10 * 16 + n % 10

-- 12, 1, …, 11, with bit 7 set from noon on
abbrev pub twelve_hour : ℕ → ℕ
twelve_hour h = (if h % 12 == 0 then to_bcd 12 else to_bcd (h % 12)) + (if ltb h 12 then 0 else 128)

-- the registers of a clock at `d`, in 12-hour or 24-hour mode
abbrev pub registers : Bool → Datetime → ℕ → ℕ
registers twelve d r =
    if r == 0x00
    then to_bcd d.second
    else if r == 0x02
    then to_bcd d.minute
    else if r == 0x04
    then (if twelve then twelve_hour d.hour else to_bcd d.hour)
    else if r == 0x07
    then to_bcd d.day
    else if r == 0x08
    then to_bcd d.month
    else if r == 0x09
    then to_bcd (d.year % 100)
    else if r == 0x0B
    then (if twelve then 2 else 0)
    else if r == 0x32
    then to_bcd (d.year / 100)
    else 0

pub record IsDatetime (d : Datetime) : Type 0 where
  pub second : d.second < 60
  pub minute : d.minute < 60
  pub hour : d.hour < 24
  pub day : d.day < 32
  pub month : d.month < 13
  pub after_100 : 100 ≤ d.year
  pub before_10000 : d.year < 10000

bcd_to_bin-to_bcd : (n : ℕ) → n < 100 → bcd_to_bin (to_bcd n) ≡ n
unfolding bcd_to_bin
bcd_to_bin-to_bcd n h = omega arith

decode_hour-registers :
    (twelve : Bool) (h : ℕ)
    → h < 24
    → decode_hour (if twelve then twelve_hour h else to_bcd h) (if twelve then 2 else 0) ≡ h
unfolding decode_hour
decode_hour-registers true h lt = ground arith
decode_hour-registers false h lt = ground arith

decode_year-registers :
    (y : ℕ) → 100 ≤ y → y < 10000 → decode_year (to_bcd (y % 100)) (to_bcd (y / 100)) ≡ y
unfolding decode_year
decode_year-registers y lo hi = ground arith

-- In either hour mode, reading the registers of a clock that keeps a date of the years 100 to 9999
-- in BCD, with its century register in use, gives that date.
pub read_datetime-registers :
    (twelve : Bool) (d : Datetime) → IsDatetime d → read_datetime (registers twelve d) ≡ d
unfolding read_datetime
read_datetime-registers twelve d v =
    let second = bcd_to_bin-to_bcd d.second (omega (arith, v.second)) in
    let minute = bcd_to_bin-to_bcd d.minute (omega (arith, v.minute)) in
    let day = bcd_to_bin-to_bcd d.day (omega (arith, v.day)) in
    let month = bcd_to_bin-to_bcd d.month (omega (arith, v.month)) in
    let hour = decode_hour-registers twelve d.hour v.hour in
    let year = decode_year-registers d.year v.after_100 v.before_10000 in
    λ i. record {
      second = second i;
      minute = minute i;
      hour = hour i;
      day = day i;
      month = month i;
      year = year i;
    }
