-- ===== src/Base/Clock.antt =====
-- Instants of package time as the fields that the layouts of the source show, and those layouts.
use Prim.Native.Nat.{ℕ, zero, suc, ◌+◌, ◌/◌, ◌%◌}
use mathlib.Core.List.{[], ◌∷◌, ◌++◌}
use go_pec.Base.Tests.{◌==◌, if◌then◌else◌}
use go_pec.Base.Strings.{Text, utf8}

-- `day_name` and `month_name` are the English names of three letters, `zone` the abbreviation,
-- `offset` the four digits of the zone with their sign, `offset_colon` those of RFC 3339, and
-- `unix` and `unix_nano` the seconds and the nanoseconds since 1970.
pub record Time : Type 0 where
  pub year : ℕ
  pub month : ℕ
  pub day : ℕ
  pub hour : ℕ
  pub minute : ℕ
  pub second : ℕ
  pub unix : ℕ
  pub unix_nano : ℕ
  pub day_name : Text
  pub month_name : Text
  pub zone : Text
  pub offset : Text
  pub offset_colon : Text

unfoldable pub two_digits : ℕ → Text
two_digits n = (b'0' + n / 10 % 10) ∷ (b'0' + n % 10) ∷ []

unfoldable pub four_digits : ℕ → Text
unfolding two_digits
four_digits n = two_digits (n / 100) ++ two_digits (n % 100)

decimal_from : ℕ → ℕ → Text → Text
decimal_from zero n digits = digits
decimal_from (suc f) n digits =
    let longer = decimal_from f (n / 10) ((b'0' + n % 10) ∷ digits) in
    if n / 10 == 0 then (b'0' + n % 10) ∷ digits else longer

-- `%d`: a number has fewer digits than its value and one.
unfoldable pub decimal : ℕ → Text
unfolding decimal_from
decimal n = decimal_from (suc n) n []

-- "02/01/2006"
unfoldable pub date_slashes : Time → Text
date_slashes t =
    two_digits t.day ++ utf8 "/" ++ two_digits t.month ++ utf8 "/" ++ four_digits t.year

-- "15:04:05"
unfoldable pub clock_time : Time → Text
clock_time t =
    two_digits t.hour ++ utf8 ":" ++ two_digits t.minute ++ utf8 ":" ++ two_digits t.second

-- time.RFC1123Z: "Mon, 02 Jan 2006 15:04:05 -0700"
unfoldable pub rfc1123z : Time → Text
rfc1123z t =
    t.day_name
    ++ utf8 ", "
    ++ two_digits t.day
    ++ utf8 " "
    ++ t.month_name
    ++ utf8 " "
    ++ four_digits t.year
    ++ utf8 " "
    ++ clock_time t
    ++ utf8 " "
    ++ t.offset

-- time.RFC822: "02 Jan 06 15:04 MST"
unfoldable pub rfc822 : Time → Text
rfc822 t =
    two_digits t.day
    ++ utf8 " "
    ++ t.month_name
    ++ utf8 " "
    ++ two_digits (t.year % 100)
    ++ utf8 " "
    ++ two_digits t.hour
    ++ utf8 ":"
    ++ two_digits t.minute
    ++ utf8 " "
    ++ t.zone

-- time.RFC3339: "2006-01-02T15:04:05Z07:00"
unfoldable pub rfc3339 : Time → Text
rfc3339 t =
    four_digits t.year
    ++ utf8 "-"
    ++ two_digits t.month
    ++ utf8 "-"
    ++ two_digits t.day
    ++ utf8 "T"
    ++ clock_time t
    ++ t.offset_colon

-- The zero value of time.Time: 1 January of the year 1, in UTC.
abbrev pub zero_time : Time
zero_time = record {
  year = 1;
  month = 1;
  day = 1;
  hour = 0;
  minute = 0;
  second = 0;
  unix = 0;
  unix_nano = 0;
  day_name = utf8 "Mon";
  month_name = utf8 "Jan";
  zone = utf8 "UTC";
  offset = utf8 "+0000";
  offset_colon = utf8 "Z";
}
