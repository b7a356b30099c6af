-- ===== src/Rtc/Examples.antt =====
-- The clock of arch/x86/drivers/cmos/rtc.c at one date.
use cobra_os.Base.{◌≡◌, true, arith}
use cobra_os.Rtc.{Datetime, read_datetime}
use cobra_os.Rtc.Encode.{registers, read_datetime-registers}

-- 2024-12-31 23:59:58
abbrev new_year : Datetime
new_year = record { second = 58; minute = 59; hour = 23; day = 31; month = 12; year = 2024 }

read_datetime-registers_example : read_datetime (registers true new_year) ≡ new_year
read_datetime-registers_example = read_datetime-registers true new_year (omega arith)
