-- ===== src/Domain/Date/Calendar.antt =====
-- The civil calendar: the date of a day counts back to the day, and the bounds of an instant's date
-- hold the instant where the zone's offset is fixed.
use service_scheduler.Prelude.{
  ℕ, suc, ◌+◌, ◌-◌, ◌*◌, ◌/◌, ◌%◌, ◌≤◌, ◌<◌, ◌≡◌, ◌∙◌, arith, ltb, leb, if◌then◌else◌,
}
use service_scheduler.Prelude.Int.{ℤ, pos, negsuc, shift, unshift}
use service_scheduler.Domain.Clock.{
  Location, Time, utc_of_local, local_days, date_time, seconds_per_day, ns_per_second, year_of_era,
  day_of_year, month_of_year, civil_year, civil_month, civil_day, days_of_civil,
}
use service_scheduler.Domain.Date.{Date, date_of, bounds}

day_of_year_bounds :
    (doe : ℕ)
    → doe < 146097
    → let yoe = year_of_era doe in
      (yoe < 400) × (365 * yoe + yoe / 4 - yoe / 100 ≤ doe) × (day_of_year doe ≤ 365)
day_of_year_bounds doe h = omega arith

-- The month number of the civil calendar, from the month counted from March.
month_back : (mp : ℕ) → mp < 12 → ((if ltb mp 10 then mp + 3 else mp - 9) + 9) % 12 ≡ mp
month_back mp h = ground arith

year_back :
    (y mp : ℕ)
    → 400 ≤ y
    → mp < 12
    → let m = if ltb mp 10 then mp + 3 else mp - 9 in
      let year = if leb m 2 then y + 1 - 400 else y - 400 in
      (if leb m 2 then year + 399 else year + 400) ≡ y
year_back y mp e m = ground arith

year_days :
    (yoe era : ℕ)
    → yoe < 400
    → let y = yoe + era * 400 in
      365 * y + y / 4 - y / 100 + y / 400 ≡ 365 * yoe + yoe / 4 - yoe / 100 + era * 146097
year_days yoe era h = omega arith

month_of_year-lt :
    (doy : ℕ) → doy ≤ 365 → (month_of_year doy < 12) × ((153 * month_of_year doy + 2) / 5 ≤ doy)
month_of_year-lt doy h = omega arith

-- The count of a date whose year, month and day come from a year of the era and a day of the year.
count_back :
    (yoe era mp doy : ℕ)
    → yoe < 400
    → 1 ≤ era
    → mp < 12
    → (153 * mp + 2) / 5 ≤ doy
    → let m = if ltb mp 10 then mp + 3 else mp - 9 in
      let y = yoe + era * 400 in
      days_of_civil (if leb m 2 then y + 1 - 400 else y - 400) m (doy - (153 * mp + 2) / 5 + 1)
      ≡ 365 * yoe + yoe / 4 - yoe / 100 + doy + era * 146097
unfolding days_of_civil
count_back yoe era mp doy h e m d =
    rw (month_back mp m, year_back (yoe + era * 400) mp (omega arith) m, year_days yoe era h)
      (omega arith)

days_of_civil-civil :
    (days : ℕ)
    → 146097 ≤ days
    → days_of_civil (civil_year days) (civil_month days) (civil_day days) ≡ days
unfolding days_of_civil civil_year civil_month civil_day
days_of_civil-civil days h =
    let doe = days % 146097 in
    let doy = day_of_year doe in
    let yoe = year_of_era doe in
    let (yoe_lt, fits, doy_le) = day_of_year_bounds doe (omega arith) in
    let (mp_lt, month_fits) = month_of_year-lt doy doy_le in
    count_back yoe (days / 146097) (month_of_year doy) doy yoe_lt (omega arith) mp_lt month_fits
    ∙ omega arith

-- The offset is the same at every instant.
abbrev pub IsFixed : Location → ℤ → Type 0
IsFixed loc o = (s : ℕ) → (loc.zone_at s).offset ≡ o

pub utc_of_local-fixed :
    (loc : Location) (o : ℤ) (local : ℕ) → IsFixed loc o → utc_of_local loc local ≡ unshift local o
unfolding utc_of_local
utc_of_local-fixed loc (pos n) local f = ground (arith, f local, f (local - n))
utc_of_local-fixed loc (negsuc n) local f = ground (arith, f local, f (local + suc n))

-- The date of an instant counts back to its local day.
pub date_of-days :
    (t : Time) (loc : Location)
    → 146097 ≤ local_days t loc
    → let d = date_of t loc in days_of_civil d.year d.month d.day ≡ local_days t loc
unfolding date_of
date_of-days t loc h = days_of_civil-civil (local_days t loc) h

day_after : (y m d : ℕ) → 1 ≤ d → days_of_civil y m (d + 1) ≡ days_of_civil y m d + 1
unfolding days_of_civil
day_after y m d h = omega arith

local_days-fixed :
    (t : Time) (loc : Location) (o : ℤ)
    → IsFixed loc o
    → local_days t loc ≡ shift (t.ns / ns_per_second) o / seconds_per_day
unfolding local_days
local_days-fixed t loc o f = rw (f (t.ns / ns_per_second))

day_start :
    (d : Date) (loc : Location) (o : ℤ)
    → IsFixed loc o
    → (bounds d loc).start.ns
      ≡ unshift (days_of_civil d.year d.month d.day * seconds_per_day + 0) o * ns_per_second
unfolding bounds date_time
day_start d loc o f = rw (utc_of_local-fixed loc o _ f)

day_end :
    (d : Date) (loc : Location) (o : ℤ)
    → IsFixed loc o
    → 1 ≤ d.day
    → (bounds d loc).end.ns
      ≡ unshift ((days_of_civil d.year d.month d.day + 1) * seconds_per_day + 0) o * ns_per_second
unfolding bounds date_time
day_end d loc o f h = rw (utc_of_local-fixed loc o _ f, day_after d.year d.month d.day h)

date_of-day-pos : (t : Time) (loc : Location) → 1 ≤ (date_of t loc).day
unfolding date_of civil_day
date_of-day-pos t loc = omega arith

-- The instants of a day, whose local time is `o` ahead.
day_holds :
    (ns days : ℕ) (o : ℤ)
    → 146097 ≤ days
    → days ≡ shift (ns / ns_per_second) o / seconds_per_day
    → let from = unshift (days * seconds_per_day + 0) o * ns_per_second in
      let until = unshift ((days + 1) * seconds_per_day + 0) o * ns_per_second in
      (from ≤ ns) × (ns < until)
day_holds ns days (pos n) h e = omega arith
day_holds ns days (negsuc n) h e = omega arith

-- In a zone of one offset the bounds of an instant's local date hold the instant. (The calendar's
-- count begins 400 years before year 0.)
pub date_of-bounds :
    (t : Time) (loc : Location) (o : ℤ)
    → IsFixed loc o
    → 146097 ≤ local_days t loc
    → let day = bounds (date_of t loc) loc in (day.start.ns ≤ t.ns) × (t.ns < day.end.ns)
date_of-bounds t loc o f h =
    rw
      (
        day_start (date_of t loc) loc o f,
        day_end (date_of t loc) loc o f (date_of-day-pos t loc),
        date_of-days t loc h,
      )
      (day_holds t.ns (local_days t loc) o h (local_days-fixed t loc o f))
