-- ===== src/Domain/Clock.antt =====
-- Go's `time` package as the program uses it: instants, durations, zones and the civil calendar.
-- Instants are nanoseconds, and seconds of local time are seconds, from the start of -0400-03-01;
-- no instant before year 0 is modelled. A location answers, for an instant, with the offset of the
-- zone in force and the range in which it stays in force; the zone database itself is data.
use service_scheduler.Prelude.{
  ℕ, ◌+◌, ◌-◌, ◌*◌, ◌/◌, ◌%◌, String, Bool, ◌||◌, ltb, leb, if◌then◌else◌,
}
use service_scheduler.Prelude.Int.{ℤ, pos, shift, unshift, sub_ℕ, quot_ℤ, eqb_ℤ}

-- `time.Duration`, in nanoseconds.
abbrev pub Duration : Type 0
Duration = ℤ

abbrev pub ns_per_second : ℕ
ns_per_second = 1_000_000_000

abbrev pub ns_per_minute : ℕ
ns_per_minute = 60_000_000_000

abbrev pub seconds_per_day : ℕ
seconds_per_day = 86_400

-- The zone in force at an instant: its offset in seconds east of UTC, on [from, until).
pub record Zone : Type 0 where
  pub offset : ℤ
  pub from : ℕ
  pub until : ℕ

-- `*time.Location`.
pub record Location : Type 0 where
  pub name : String
  pub zone_at : ℕ → Zone

-- `time.Time`.
pub record Time : Type 0 where
  pub ns : ℕ
  pub location : Location

unfoldable pub before : Time → Time → Bool
before t u = ltb t.ns u.ns

unfoldable pub after : Time → Time → Bool
after t u = ltb u.ns t.ns

-- `t.Add(d)`.
unfoldable pub add : Time → Duration → Time
add t d = record t { ns = shift t.ns d }

-- `t.Sub(u)`.
unfoldable pub sub : Time → Time → Duration
sub t u = sub_ℕ t.ns u.ns

-- `t.In(loc)`.
unfoldable pub in_location : Time → Location → Time
in_location t loc = record t { location = loc }

-- `int(d.Minutes())`. The float is exact to the minute below 2 ^ 17 minutes.
unfoldable pub whole_minutes : Duration → ℤ
whole_minutes d = quot_ℤ d ns_per_minute

-- Days from -0400-03-01 to a civil date; a day past the month's end runs on into the next.
unfoldable pub days_of_civil : ℕ → ℕ → ℕ → ℕ
days_of_civil year month day =
    let y = if leb month 2 then year + 399 else year + 400 in
    365 * y + y / 4 - y / 100 + y / 400 + (153 * ((month + 9) % 12) + 2) / 5 + day - 1

-- The year that began on the 1 March before the day, within its 400 years; the day within the year.
abbrev pub year_of_era : ℕ → ℕ
year_of_era doe = (doe - doe / 1460 + doe / 36524 - doe / 146096) / 365

abbrev pub day_of_year : ℕ → ℕ
day_of_year doe = let yoe = year_of_era doe in doe - (365 * yoe + yoe / 4 - yoe / 100)

abbrev pub month_of_year : ℕ → ℕ
month_of_year doy = (5 * doy + 2) / 153

unfoldable pub civil_month : ℕ → ℕ
civil_month days =
    let mp = month_of_year (day_of_year (days % 146_097)) in if ltb mp 10 then mp + 3 else mp - 9

unfoldable pub civil_day : ℕ → ℕ
civil_day days =
    let doy = day_of_year (days % 146_097) in doy - (153 * month_of_year doy + 2) / 5 + 1

unfoldable pub civil_year : ℕ → ℕ
unfolding civil_month
civil_year days =
    let y = year_of_era (days % 146_097) + days / 146_097 * 400 in
    if leb (civil_month days) 2 then y + 1 - 400 else y - 400

-- 0 is Sunday.
unfoldable pub weekday_of_days : ℕ → ℕ
weekday_of_days days = (days + 3) % 7

-- The instant of a local clock reading, in seconds: the offset is looked up as if the reading
-- were UTC, and once more if the zone found there is not in force at the result.
unfoldable pub utc_of_local : Location → ℕ → ℕ
utc_of_local loc local =
    let zone = loc.zone_at local in
    let utc = unshift local zone.offset in
    if eqb_ℤ zone.offset (pos 0)
    then local
    else if ltb utc zone.from || leb zone.until utc
    then unshift local (loc.zone_at utc).offset
    else utc

-- `time.Date(year, month, day, 0, minute, 0, 0, loc)`.
unfoldable pub date_time : ℕ → ℕ → ℕ → ℕ → Location → Time
unfolding days_of_civil utc_of_local
date_time year month day minute loc = record {
  ns =
      utc_of_local loc (days_of_civil year month day * seconds_per_day + minute * 60)
      * ns_per_second;
  location = loc;
}

-- The local day of an instant.
unfoldable pub local_days : Time → Location → ℕ
local_days t loc =
    let utc = t.ns / ns_per_second in shift utc (loc.zone_at utc).offset / seconds_per_day
