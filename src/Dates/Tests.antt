-- ===== src/Dates/Tests.antt =====
-- Runs of `strptime` and of the calendar, and the theorem on written dates at a leap day.
use nano_tick.Base.{◌≡◌, refl, [], ◌∷◌, ok, raise, Error}
use nano_tick.Base.Text.{is_space}
use nano_tick.Data.{is_digit, digits_value}
use nano_tick.Dates.{
  Fields, ymd, is_leap, days_in_month, days_before_month, to_ordinal, span_digits, number,
  skip_spaces, day_number, match_one, is_date, match_all, strptime, date_of,
}

program : Unit {0}
unfolding is_leap days_in_month days_before_month to_ordinal span_digits number skip_spaces
    day_number match_one is_date match_all strptime is_digit is_space digits_value
program = tt

-- 1970-01-01
to_ordinal_test : to_ordinal 1970 1 1 ≡ 719_163
unfolding program
to_ordinal_test = refl

abbrev leap_day : Fields
leap_day = record { year = 2024; month = 2; day = 29; hour = 13; minute = 5; second = 0 }

abbrev leap_date : Fields
leap_date = record { year = 2024; month = 2; day = 29; hour = 0; minute = 0; second = 0 }

-- "2024-2-29" and "2023-02-29"
short_month_test :
    strptime (ymd 45) (50 ∷ 48 ∷ 50 ∷ 52 ∷ 45 ∷ 50 ∷ 45 ∷ 50 ∷ 57 ∷ []) ≡ ok leap_date
unfolding program
short_month_test = refl

no_date_test :
    strptime (ymd 45) (50 ∷ 48 ∷ 50 ∷ 51 ∷ 45 ∷ 48 ∷ 50 ∷ 45 ∷ 50 ∷ 57 ∷ [])
    ≡ raise Error.value_error
unfolding program
no_date_test = refl

ordinal_test : date_of leap_date ≡ 738_945
unfolding program
ordinal_test = refl
