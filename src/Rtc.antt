-- ===== src/Rtc.antt =====
-- The real-time clock, arch/x86/drivers/cmos/rtc.c: what rtc_read_datetime makes of the clock's
-- registers. The registers are a function of their number, read while no update is going on; the
-- protocol of the ports and the wait for the end of an update are left out. A mask of low bits is
-- written `%`, a shift `/`.
pub mod Encode
mod Examples
use cobra_os.Base.{ℕ, ◌+◌, ◌*◌, ◌/◌, ◌%◌, ◌^◌, Bool, not, ◌&&◌, ltb, ◌==◌, if◌then◌else◌}

-- struct rtc_datetime
pub record Datetime : Type 0 where
  pub second : ℕ
  pub minute : ℕ
  pub hour : ℕ
  pub day : ℕ
  pub month : ℕ
  pub year : ℕ

unfoldable pub bcd_to_bin : ℕ → ℕ
bcd_to_bin bcd = (bcd / 16 % 16 * 10 + bcd % 16) % 2 ^ 8

-- the hour, from register 0x04 and status register B
unfoldable pub decode_hour : ℕ → ℕ → ℕ
unfolding bcd_to_bin
decode_hour hour_raw status_b =
    if not (status_b / 2 % 2 == 0)
    then (let hour12 = bcd_to_bin (hour_raw % 128) in
        if not (hour_raw / 128 % 2 == 0)
        then (if hour12 == 12 then 12 else (hour12 + 12) % 2 ^ 8)
        else if hour12 == 12
        then 0
        else hour12)
    else bcd_to_bin (hour_raw % 64)

-- the year, from registers 0x09 and 0x32
unfoldable pub decode_year : ℕ → ℕ → ℕ
unfolding bcd_to_bin
decode_year year_raw century_raw =
    let year = bcd_to_bin year_raw in
    if not (century_raw == 0xFF) && not (century_raw == 0x00)
    then (year + bcd_to_bin century_raw * 100) % 2 ^ 16
    else if ltb year 80
    then (year + 2000) % 2 ^ 16
    else (year + 1900) % 2 ^ 16

unfoldable pub read_datetime : (ℕ → ℕ) → Datetime
read_datetime reg = record {
  second = bcd_to_bin (reg 0x00);
  minute = bcd_to_bin (reg 0x02);
  hour = decode_hour (reg 0x04) (reg 0x0B);
  day = bcd_to_bin (reg 0x07);
  month = bcd_to_bin (reg 0x08);
  year = decode_year (reg 0x09) (reg 0x32);
}
