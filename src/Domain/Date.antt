-- ===== src/Domain/Date.antt =====
-- internal/domain/hours.go: the civil date, its text, its weekday and its bounds.
pub mod Format
pub mod Calendar
pub mod Rfc3339
use Prim.Native.Char.{Char, code}
use Prim.Native.Nat.{◌^◌}
use Prim.Native.String.{◌++◌ as ◌<>◌}
use service_scheduler.Prelude.{
  ℕ, zero, suc, ◌+◌, ◌-◌, ◌*◌, ◌/◌, ◌%◌, String, Bool, true, false, ◌&&◌, ◌||◌, List, [], ◌∷◌,
  Option, none, some, leb, ◌==◌, if◌then◌else◌,
}
use service_scheduler.Prelude.Int.{ℤ, pos, negsuc, eqb_ℤ, quot_ℤ, shift}
use service_scheduler.Domain.Clock.{
  Location, Time, civil_year, civil_month, civil_day, days_of_civil, weekday_of_days, local_days,
  date_time, ns_per_second, seconds_per_day,
}
use service_scheduler.Domain.Interval.{Interval}

pub record Date : Type 0 where
  pub year : ℕ
  pub month : ℕ
  pub day : ℕ

unfoldable pub is_leap : ℕ → Bool
is_leap y = (y % 4 == 0) && ((if y % 100 == 0 then false else true) || (y % 400 == 0))

unfoldable pub days_in_month : ℕ → ℕ → ℕ
unfolding is_leap
days_in_month year month =
    if month == 2
    then (if is_leap year then 29 else 28)
    else if (month == 4) || (month == 6) || (month == 9) || (month == 11)
    then 30
    else 31

-- The code points of a text.
abbrev codes : String → List ℕ
codes String.[] = []
codes (String.◌∷◌ c s) = code c ∷ codes s

is_digit : ℕ → Bool
is_digit c = leb 48 c && leb c 57

-- The value of two digits.
abbrev two_digits : ℕ → ℕ → ℕ
two_digits a b = (a - 48) * 10 + (b - 48)

-- The range checks of `time.Parse`, once the text has its digits and dashes.
in_range : Date → Bool
unfolding days_in_month
in_range d =
    leb 1 d.month && leb d.month 12 && leb 1 d.day && leb d.day (days_in_month d.year d.month)

-- Layout "2006-01-02" takes exactly ten characters.
parse_codes : List ℕ → Option Date
unfolding is_digit in_range
parse_codes (a ∷ b ∷ c ∷ d ∷ p ∷ e ∷ f ∷ q ∷ g ∷ h ∷ []) =
    let date : Date = record {
      year = two_digits a b * 100 + two_digits c d;
      month = two_digits e f;
      day = two_digits g h;
    } in
    if is_digit a
      && is_digit b
      && is_digit c
      && is_digit d
      && is_digit e
      && is_digit f
      && is_digit g
      && is_digit h
      && (p == 45)
      && (q == 45)
      && in_range date
    then some date
    else none
parse_codes _ = none

unfoldable pub parse_date : String → Option Date
unfolding parse_codes
parse_date s = parse_codes (codes s)

unfoldable pub date_of : Time → Location → Date
unfolding local_days civil_year civil_month civil_day
date_of t loc =
    let days = local_days t loc in
    record { year = civil_year days; month = civil_month days; day = civil_day days }

unfoldable pub digit : ℕ → Char
digit zero = "0"
digit (suc zero) = "1"
digit (suc (suc zero)) = "2"
digit (suc (suc (suc zero))) = "3"
digit (suc (suc (suc (suc zero)))) = "4"
digit (suc (suc (suc (suc (suc zero))))) = "5"
digit (suc (suc (suc (suc (suc (suc zero)))))) = "6"
digit (suc (suc (suc (suc (suc (suc (suc zero))))))) = "7"
digit (suc (suc (suc (suc (suc (suc (suc (suc zero)))))))) = "8"
digit (suc (suc (suc (suc (suc (suc (suc (suc (suc n))))))))) = "9"

-- Two digits, with leading zeros, and a text after them.
abbrev pub put_two : ℕ → String → String
put_two n rest = String.◌∷◌ (digit (n / 10 % 10)) (String.◌∷◌ (digit (n % 10)) rest)

-- `%04d-%02d-%02d`, for years of at most four digits, and a text after it.
abbrev pub put_date : Date → String → String
put_date d rest =
    put_two (d.year / 100)
      (put_two d.year (String.◌∷◌ "-" (put_two d.month (String.◌∷◌ "-" (put_two d.day rest)))))

-- `Date.String`.
unfoldable pub date_string : Date → String
date_string d = put_date d String.[]

unfoldable pub weekday : Date → ℕ
unfolding days_of_civil weekday_of_days
weekday d = weekday_of_days (days_of_civil d.year d.month d.day)

-- [midnight, next midnight) of the date, where the day after the last of a month is normalised.
unfoldable pub bounds : Date → Location → Interval
unfolding date_time
bounds d loc = record {
  start = date_time d.year d.month d.day 0 loc;
  end = date_time d.year d.month (d.day + 1) 0 loc;
}

-- "Z07:00": the offset in whole minutes, rounded towards zero.
zone_minutes : ℤ → String
zone_minutes (pos m) =
    String.◌∷◌ "+" (put_two (m / 60) (String.◌∷◌ ":" (put_two (m % 60) String.[])))
zone_minutes (negsuc m) =
    String.◌∷◌ "-" (put_two (suc m / 60) (String.◌∷◌ ":" (put_two (suc m % 60) String.[])))

zone_text : ℤ → String
unfolding zone_minutes
zone_text offset =
    if eqb_ℤ offset (pos 0) then String.◌∷◌ "Z" String.[] else zone_minutes (quot_ℤ offset 60)

-- "15:04:05" of the seconds since midnight, and a text after it.
abbrev put_clock : ℕ → String → String
put_clock clock rest =
    put_two (clock / 3600)
      (String.◌∷◌ ":" (put_two (clock / 60 % 60) (String.◌∷◌ ":" (put_two (clock % 60) rest))))

-- `t.Format(time.RFC3339)`.
unfoldable pub rfc3339 : Time → String
unfolding zone_text
rfc3339 t =
    let utc = t.ns / ns_per_second in
    let offset = (t.location.zone_at utc).offset in
    put_date (date_of t t.location)
      (String.◌∷◌ "T" (put_clock (shift utc offset % seconds_per_day) (zone_text offset)))

-- The digits of a fraction, with its trailing zeros cut.
fraction : ℕ → ℕ → String
fraction zero n = ""
fraction (suc left) n =
    let rest = fraction left (n % 10 ^ left) in
    if n == 0 then "" else String.◌∷◌ (digit (n / 10 ^ left % 10)) rest

-- `t.UTC().Format(time.RFC3339Nano)`.
unfoldable pub utc_text : Time → String
unfolding fraction civil_year civil_month civil_day
utc_text t =
    let seconds = t.ns / ns_per_second in
    let days = seconds / seconds_per_day in
    let rest = t.ns % ns_per_second in
    put_date (record { year = civil_year days; month = civil_month days; day = civil_day days })
      (String.◌∷◌ "T" (
        put_clock (seconds % seconds_per_day)
          ((if rest == 0 then "" else "." <> fraction 9 rest) <> "Z")))
