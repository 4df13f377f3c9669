-- ===== src/Domain/Date/Rfc3339.antt =====
-- The RFC 3339 text of an instant, read back by the places of its digits.
use Prim.Native.Char.{code}
use service_scheduler.Prelude.{
  ℕ, suc, ◌+◌, ◌-◌, ◌*◌, ◌/◌, ◌%◌, ◌≤◌, ◌<◌, ◌≡◌, ap, ◌∙◌, String, false, ◌&&◌, List, [], ◌∷◌,
  Option, none, some, arith, if◌then◌else◌, ◌==◌, leb, inl, inr, Bool-cases,
}
use service_scheduler.Prelude.Int.{ℤ, pos, negsuc, eqb_ℤ, shift, sub_ℕ, unshift}
use service_scheduler.Domain.Clock.{
  Location, Time, civil_day, civil_month, days_of_civil, local_days, ns_per_second, seconds_per_day,
}
use service_scheduler.Domain.Date.{
  codes, date_of, digit, rfc3339, two_digits, zone_minutes, zone_text,
}
use service_scheduler.Domain.Date.Format.{two_digits-digit}
use service_scheduler.Domain.Date.Calendar.{date_of-days}

-- The instant of a local clock reading, in seconds, by the text of its offset.
read_zone : ℕ → List ℕ → Option ℕ
read_zone local (z ∷ []) = if z == 90 then some local else none
read_zone local (sign ∷ a ∷ b ∷ colon ∷ c ∷ d ∷ []) =
    let offset = two_digits a b * 3600 + two_digits c d * 60 in
    if (sign == 43) && (colon == 58)
    then some (local - offset)
    else if (sign == 45) && (colon == 58)
    then some (local + offset)
    else none
read_zone local _ = none

-- The local clock reading of a date and a time of day, in seconds.
abbrev clock_of : ℕ → ℕ → ℕ → ℕ → ℕ → ℕ → ℕ
clock_of year month day hour minute second =
    days_of_civil year month day * seconds_per_day + hour * 3600 + minute * 60 + second

-- "2006-01-02T15:04:05" and an offset.
read_codes : List ℕ → Option ℕ
unfolding read_zone
read_codes (a ∷ b ∷ c ∷ d ∷ p ∷ e ∷ f ∷ q ∷ g ∷ h ∷ t ∷ i ∷ j ∷ r ∷ k ∷ l ∷ u ∷ m ∷ n ∷ zone) =
    if (p == 45) && (q == 45) && (t == 84) && (r == 58) && (u == 58)
    then read_zone
        (clock_of (two_digits a b * 100 + two_digits c d) (two_digits e f) (two_digits g h)
          (two_digits i j) (two_digits k l) (two_digits m n))
        zone
    else none
read_codes _ = none

-- The seconds of the calendar's count that an RFC 3339 text without a fraction says.
unfoldable pub read_rfc3339 : String → Option ℕ
unfolding read_codes
read_rfc3339 text = read_codes (codes text)

-- An offset of whole minutes within a day.
abbrev pub IsWhole : ℤ → Type 0
IsWhole (pos n) = (n % 60 ≡ 0) × (n < 86400)
IsWhole (negsuc n) = (suc n % 60 ≡ 0) × (suc n < 86400)

-- Two digits that were put are read back.
two_read : (n : ℕ) → n < 100 → two_digits (code (digit (n / 10 % 10))) (code (digit (n % 10))) ≡ n
two_read n h = omega (arith, two_digits-digit (n / 10) n)

read_west :
    (local k : ℕ)
    → 1 ≤ k
    → k < 1440
    → read_zone local (codes (zone_minutes (sub_ℕ 0 k))) ≡ some (local + k * 60)
unfolding read_zone zone_minutes
read_west local k h small = elim (Bool-cases (leb k 0)) [
  | inl y ↦ absurd (ground arith)
  | inr n ↦
      let m = suc (k - 0 - 1) in
      rw n
        (ap some (omega (arith, two_read (m / 60) (omega arith), two_read (m % 60) (omega arith))))
]

read_zone-zone_text :
    (local : ℕ) (o : ℤ) → IsWhole o → read_zone local (codes (zone_text o)) ≡ some (unshift local o)
unfolding read_zone zone_text zone_minutes
read_zone-zone_text local (pos n) (whole, small) = elim (Bool-cases (eqb_ℤ (pos n) (pos 0))) [
  | inl y ↦ rw (y, zone_text) (ap some (ground arith))
  | inr f ↦
      let m = n / 60 in
      rw (f, zone_text)
        (ap some (omega (arith, two_read (m / 60) (omega arith), two_read (m % 60) (omega arith))))
]
read_zone-zone_text local (negsuc n) (whole, small) =
    let not_utc : eqb_ℤ (negsuc n) (pos 0) ≡ false = ground arith in
    rw (not_utc, zone_text)
      (read_west local (suc n / 60) (omega arith) (omega arith) ∙ ap some (omega arith))

date_of-small :
    (t : Time) (loc : Location) → ((date_of t loc).month < 100) × ((date_of t loc).day < 100)
unfolding date_of civil_month civil_day
date_of-small t loc = (ground arith, omega arith)

year_read :
    (y : ℕ)
    → y < 10000
    → two_digits (code (digit (y / 100 / 10 % 10))) (code (digit (y / 100 % 10))) * 100
        + two_digits (code (digit (y / 10 % 10))) (code (digit (y % 10)))
      ≡ y
year_read y h =
    omega (arith, two_digits-digit (y / 100 / 10) (y / 100), two_digits-digit (y / 10) y)

-- The date and the time of day of an instant are its local clock reading.
clock_back :
    (t : Time)
    → 146097 ≤ local_days t t.location
    → let utc = t.ns / ns_per_second in
      let local = shift utc (t.location.zone_at utc).offset in
      let d = date_of t t.location in
      let clock = local % seconds_per_day in
      clock_of d.year d.month d.day (clock / 3600) (clock / 60 % 60) (clock % 60) ≡ local
unfolding local_days
clock_back t late = omega (arith, date_of-days t t.location late)

unshift-shift :
    (utc : ℕ) (o : ℤ) → 146097 ≤ shift utc o / seconds_per_day → unshift (shift utc o) o ≡ utc
unshift-shift utc (pos n) h = omega arith
unshift-shift utc (negsuc n) h = omega arith

-- An instant printed as RFC 3339 reads back to itself, to the second, where the offset in force is
-- whole minutes within a day and the local year has four digits. (The calendar's count begins 400
-- years before year 0.)
pub read_rfc3339-rfc3339 :
    (t : Time)
    → let utc = t.ns / ns_per_second in
      IsWhole (t.location.zone_at utc).offset
      → 146097 ≤ local_days t t.location
      → (date_of t t.location).year < 10000
      → read_rfc3339 (rfc3339 t) ≡ some utc
unfolding read_rfc3339 rfc3339 read_codes local_days
read_rfc3339-rfc3339 t whole late early =
    let d = date_of t t.location in
    let utc = t.ns / ns_per_second in
    let offset = (t.location.zone_at utc).offset in
    let clock = shift utc offset % seconds_per_day in
    let (month, day) = date_of-small t t.location in
    rw
      (
        year_read d.year early,
        two_read d.month month,
        two_read d.day day,
        two_read (clock / 3600) (omega arith),
        two_read (clock / 60 % 60) (omega arith),
        two_read (clock % 60) (omega arith),
        read_zone-zone_text
            (clock_of d.year d.month d.day (clock / 3600) (clock / 60 % 60) (clock % 60)) offset
            whole,
        clock_back t late,
      )
      (ap some (unshift-shift utc offset late))
