-- ===== src/Domain/Date/Format.antt =====
-- The text of a date, read back.
use Prim.Native.Char.{code}
use service_scheduler.Prelude.{
  ℕ, zero, suc, ◌+◌, ◌*◌, ◌/◌, ◌%◌, ◌≤◌, ◌<◌, ◌≡◌, refl, true, none, some, arith, if◌then◌else◌,
}
use service_scheduler.Domain.Date.{
  Date, digit, is_digit, two_digits, days_in_month, in_range, parse_date, date_string,
}

-- A date of the calendar whose year has at most four digits.
pub record IsDate (d : Date) : Type 0 where
  pub year_digits : d.year < 10000
  pub month_in : (1 ≤ d.month) × (d.month ≤ 12)
  pub day_in : (1 ≤ d.day) × (d.day ≤ days_in_month d.year d.month)

code-digit : (n : ℕ) → n < 10 → code (digit n) ≡ 48 + n
unfolding digit
code-digit zero h = refl
code-digit (suc zero) h = refl
code-digit (suc (suc zero)) h = refl
code-digit (suc (suc (suc zero))) h = refl
code-digit (suc (suc (suc (suc zero)))) h = refl
code-digit (suc (suc (suc (suc (suc zero))))) h = refl
code-digit (suc (suc (suc (suc (suc (suc zero)))))) h = refl
code-digit (suc (suc (suc (suc (suc (suc (suc zero))))))) h = refl
code-digit (suc (suc (suc (suc (suc (suc (suc (suc zero)))))))) h = refl
code-digit (suc (suc (suc (suc (suc (suc (suc (suc (suc n))))))))) h = omega arith

is_digit-digit : (n : ℕ) → is_digit (code (digit (n % 10))) ≡ true
unfolding is_digit
is_digit-digit n = ground (arith, code-digit (n % 10) (omega arith))

-- The value of two printed digits.
pub two_digits-digit :
    (n m : ℕ) → two_digits (code (digit (n % 10))) (code (digit (m % 10))) ≡ n % 10 * 10 + m % 10
two_digits-digit n m =
    omega (arith, code-digit (n % 10) (omega arith), code-digit (m % 10) (omega arith))

days_in_month-le : (y m : ℕ) → days_in_month y m ≤ 31
unfolding days_in_month
days_in_month-le y m = ground arith

in_range-IsDate : (d : Date) → IsDate d → in_range d ≡ true
unfolding in_range
in_range-IsDate d v = ground arith

read_date :
    (d : Date) (y m n : ℕ)
    → y ≡ d.year
    → m ≡ d.month
    → n ≡ d.day
    → ◌≡◌ {A = Date} (record { year = y; month = m; day = n }) d
read_date d y m n p q r = ground arith

accept : (x d : Date) → x ≡ d → in_range d ≡ true → (if in_range x then some x else none) ≡ some d
accept x d e h = rw (e, h)

-- A date printed as YYYY-MM-DD parses back to itself.
pub parse_date-date_string : (d : Date) → IsDate d → parse_date (date_string d) ≡ some d
unfolding parse_date date_string
parse_date-date_string d v =
    rw
      (
        is_digit-digit (d.year / 100 / 10),
        is_digit-digit (d.year / 100),
        is_digit-digit (d.year / 10),
        is_digit-digit (d.year),
        is_digit-digit (d.month / 10),
        is_digit-digit (d.month),
        is_digit-digit (d.day / 10),
        is_digit-digit (d.day),
      )
      (accept _ d printed (in_range-IsDate d v))
  where
    printed :
        ◌≡◌ {A = Date}
          (record {
            year =
                two_digits
                    (code (digit (d.year / 100 / 10 % 10)))
                    (code (digit (d.year / 100 % 10)))
                  * 100
                + two_digits (code (digit (d.year / 10 % 10))) (code (digit (d.year % 10)));
            month = two_digits (code (digit (d.month / 10 % 10))) (code (digit (d.month % 10)));
            day = two_digits (code (digit (d.day / 10 % 10))) (code (digit (d.day % 10)));
          })
          d
    printed =
        read_date d _ _ _
          (omega (
            arith,
            two_digits-digit (d.year / 100 / 10) (d.year / 100),
            two_digits-digit (d.year / 10) (d.year),
          ))
          (omega (arith, two_digits-digit (d.month / 10) (d.month)))
          (omega (arith, two_digits-digit (d.day / 10) (d.day), days_in_month-le d.year d.month))
