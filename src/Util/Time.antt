-- ===== src/Util/Time.antt =====
-- src/util.cpp: dates and times, and `uuid4`.
pub mod Civil
pub mod Parse
use Prim.Native.Nat.{bit_and, bit_or, bit_xor}
use haiku_mgmt_agent.Prelude.{
  ℕ, zero, suc, ◌+◌, ◌-◌, ◌*◌, ◌/◌, ◌%◌, ◌^◌, Bool, true, false, ◌&&◌, Option, none, some, List, [],
  ◌∷◌, ◌++◌, if◌then◌else◌, leb, ltb, ◌==◌, length, take, drop, get_or,
}
use haiku_mgmt_agent.Prelude.Int.{ℤ, pos, negsuc, sub_ℕ, decrement}
use haiku_mgmt_agent.Prelude.Text.{Bytes, codes, starts_with, bytes_eq, find_byte}
use haiku_mgmt_agent.Util.Codec.{to_hex}
use haiku_mgmt_agent.Util.Number.{skip_spaces, is_space, take_sign, digit_value}

-- `struct tm`, with the year and the month as they are printed.
pub record Tm : Type 0 where
  pub year : ℕ
  pub month : ℕ
  pub day : ℕ
  pub hour : ℕ
  pub minute : ℕ
  pub second : ℕ

abbrev pub digit : ℕ → ℕ
digit n = 48 + n % 10

-- `%02d`, `%03d` and `%04d` of a number that has no more digits.
abbrev pub two : ℕ → Bytes
two n = digit (n / 10) ∷ digit n ∷ []

abbrev pub three : ℕ → Bytes
three n = digit (n / 100) ∷ two n

abbrev pub four : ℕ → Bytes
four n = digit (n / 1000) ∷ three n

unfoldable pub date_part : Tm → Bytes
date_part t = four t.year ++ (b'-' ∷ (two t.month ++ (b'-' ∷ (two t.day ++ (b'T' ∷ [])))))

unfoldable pub time_part : ℕ → Tm → Bytes
time_part sep t = two t.hour ++ (sep ∷ (two t.minute ++ (sep ∷ two t.second)))

-- `gmtime` stands for `gmt`, which calls `gmtime_r`. Times are counted from 1970 on, in seconds or
-- milliseconds.
module _ (gmtime : ℕ → Tm) where
  unfoldable pub amz_date : ℕ → Bytes
  amz_date epoch =
      let t = gmtime epoch in
      four t.year
      ++ (two t.month
          ++ (two t.day
              ++ (b'T' ∷ (two t.hour ++ (two t.minute ++ (two t.second ++ (b'Z' ∷ [])))))))

  unfoldable pub amz_datestamp : ℕ → Bytes
  amz_datestamp epoch = let t = gmtime epoch in four t.year ++ (two t.month ++ two t.day)

  unfoldable pub iso8601 : ℕ → Bytes
  unfolding date_part time_part
  iso8601 epoch_ms =
      let t = gmtime (epoch_ms / 1000) in
      date_part t ++ (time_part b':' t ++ (b'.' ∷ (three (epoch_ms % 1000) ++ (b'Z' ∷ []))))

  unfoldable pub iso8601_seconds : ℕ → Bytes
  unfolding date_part time_part
  iso8601_seconds epoch = let t = gmtime epoch in date_part t ++ (time_part b':' t ++ (b'Z' ∷ []))

  unfoldable pub iso_dash : ℕ → Bytes
  unfolding date_part time_part
  iso_dash epoch_ms =
      let t = gmtime (epoch_ms / 1000) in
      date_part t ++ (time_part b'-' t ++ (b'.' ∷ (three (epoch_ms % 1000) ++ (b'Z' ∷ []))))

-- `days_from_civil` on a year that is an `int`, in unsigned 32-bit arithmetic where the code uses it.
abbrev pub u32 : ℕ → ℕ
u32 n = n % 2 ^ 32

unfoldable pub era_of : ℤ → ℤ
era_of (pos y) = pos (y / 400)
era_of (negsuc y) = negsuc (y / 400)

unfoldable pub year_of_era : ℤ → ℕ
year_of_era (pos y) = y - y / 400 * 400
year_of_era (negsuc y) = (y / 400 + 1) * 400 - (y + 1)

unfoldable pub day_of_year : ℕ → ℕ → ℕ
day_of_year m d =
    let shifted = if ltb 2 m then u32 (m + (2 ^ 32 - 3)) else u32 (m + 9) in
    u32 (u32 (153 * shifted + 2) / 5 + d + (2 ^ 32 - 1))

unfoldable pub day_of_era : ℕ → ℕ → ℕ
day_of_era yoe doy = u32 (yoe * 365 + yoe / 4 - yoe / 100 + doy)

unfoldable pub era_day : ℤ → ℕ → ℤ
era_day (pos era) doe = sub_ℕ (era * 146097 + doe) 719468
era_day (negsuc era) doe = sub_ℕ doe ((era + 1) * 146097 + 719468)

unfoldable pub days_from_civil : ℤ → ℕ → ℕ → ℤ
unfolding era_of year_of_era day_of_year day_of_era era_day
days_from_civil year m d =
    let y = if leb m 2 then decrement year else year in
    era_day (era_of y) (day_of_era (year_of_era y) (day_of_year m d))
