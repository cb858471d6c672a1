-- ===== src/Dates.antt =====
-- What resources/reader.py, resources/dashboard.py and resources/backfill.py use of Python's
-- `datetime`: dates by their ordinals (1 is the first of January of the year 1), and `strptime`
-- for formats of numeric directives, on ASCII texts.
pub mod Digits
pub mod Print
mod Tests
use nano_tick.Base.{
  ℕ, zero, suc, ◌+◌, ◌-◌, ◌*◌, ◌/◌, ◌%◌, Bool, true, false, ◌&&◌, ◌||◌, not, List, [], ◌∷◌, length,
  ltb, leb, ◌==◌, if◌then◌else◌, Result, ok, raise, ◌>>=◌, Error,
}
use nano_tick.Base.Text.{Text, is_space}
use nano_tick.Data.{is_digit, digits_value}

-- the fields of a parsed text; `datetime.strptime` starts from the defaults 1900-01-01 00:00:00
pub record Fields : Type 0 where
  pub year : ℕ
  pub month : ℕ
  pub day : ℕ
  pub hour : ℕ
  pub minute : ℕ
  pub second : ℕ

unfoldable pub is_leap : ℕ → Bool
is_leap y = (y % 4 == 0) && (not (y % 100 == 0) || (y % 400 == 0))

-- the days of the month, and those of the year before it
unfoldable pub days_in_month : ℕ → ℕ → ℕ
unfolding is_leap
days_in_month y m =
    if m == 2
    then (if is_leap y then 29 else 28)
    else if (m == 4) || ((m == 6) || ((m == 9) || (m == 11)))
    then 30
    else 31

unfoldable pub days_before_month : ℕ → ℕ → ℕ
unfolding days_in_month
days_before_month y zero = 0
days_before_month y (suc zero) = 0
days_before_month y (suc (suc m)) = days_before_month y (suc m) + days_in_month y (suc m)

-- `date.toordinal()`
unfoldable pub to_ordinal : ℕ → ℕ → ℕ → ℕ
unfolding days_before_month
to_ordinal y m d =
    let before = y - 1 in
    before * 365 + before / 4 - before / 100 + before / 400 + days_before_month y m + d

-- the digits that a text starts with, and what follows
unfoldable pub span_digits : Text → Text × Text
unfolding is_digit
span_digits [] = ([], [])
span_digits (c ∷ cs) =
    let (ds, rest) = span_digits cs in if is_digit c then (c ∷ ds, rest) else ([], c ∷ cs)

-- a number of so many digits, within bounds
unfoldable pub number : (min_digits max_digits lo hi : ℕ) → Text → Result (ℕ × Text)
unfolding span_digits digits_value
number min_digits max_digits lo hi cs =
    let (ds, rest) = span_digits cs in
    let n = digits_value 0 ds in
    if (leb min_digits (length ds) && leb (length ds) max_digits) && (leb lo n && leb n hi)
    then ok (n, rest)
    else raise Error.value_error

pub data Directive : Type 0 where
  year_4 month_2 day_2 hour_2 minute_2 second_2 : Directive
  -- a character of the format, and a space of it, which matches any white space
  literal : ℕ → Directive
  spaces : Directive

unfoldable pub skip_spaces : Text → Text
unfolding is_space
skip_spaces [] = []
skip_spaces (c ∷ cs) = let rest = skip_spaces cs in if is_space c then rest else c ∷ cs

-- `%d` also matches a space and one digit
unfoldable pub day_number : Text → Result (ℕ × Text)
unfolding number
day_number [] = raise Error.value_error
day_number (c ∷ cs) = if c == 32 then number 1 1 1 9 cs else number 1 2 1 31 (c ∷ cs)

unfoldable pub match_one : Directive → Text → Fields → Result (Fields × Text)
unfolding number day_number skip_spaces
match_one Directive.year_4 cs f = do
  (n, rest) ← number 4 4 0 9999 cs
  ok (record f { year = n }, rest)
match_one Directive.month_2 cs f = do
  (n, rest) ← number 1 2 1 12 cs
  ok (record f { month = n }, rest)
match_one Directive.day_2 cs f = do (n, rest) ← day_number cs; ok (record f { day = n }, rest)
match_one Directive.hour_2 cs f = do
  (n, rest) ← number 1 2 0 23 cs
  ok (record f { hour = n }, rest)
match_one Directive.minute_2 cs f = do
  (n, rest) ← number 1 2 0 59 cs
  ok (record f { minute = n }, rest)
match_one Directive.second_2 cs f = do
  (n, rest) ← number 1 2 0 59 cs
  ok (record f { second = n }, rest)
match_one (Directive.literal l) [] f = raise Error.value_error
match_one (Directive.literal l) (c ∷ cs) f = if c == l then ok (f, cs) else raise Error.value_error
match_one Directive.spaces [] f = raise Error.value_error
match_one Directive.spaces (c ∷ cs) f =
    if is_space c then ok (f, skip_spaces cs) else raise Error.value_error

-- a date of the calendar
unfoldable pub is_date : Fields → Bool
unfolding days_in_month
is_date f = leb 1 f.year && leb f.day (days_in_month f.year f.month)

-- the whole text has to match
unfoldable pub match_all : List Directive → Text → Fields → Result Fields
unfolding match_one is_date
match_all [] [] f = if is_date f then ok f else raise Error.value_error
match_all [] (c ∷ cs) f = raise Error.value_error
match_all (d ∷ ds) cs f = do (f', rest) ← match_one d cs f; match_all ds rest f'

-- `datetime.strptime`
unfoldable pub strptime : List Directive → Text → Result Fields
unfolding match_all
strptime format text =
    match_all format text
      (record { year = 1900; month = 1; day = 1; hour = 0; minute = 0; second = 0 })

-- the date of the fields
abbrev pub date_of : Fields → ℕ
date_of f = to_ordinal f.year f.month f.day

-- `%Y`, `%m` and `%d` with a separator
abbrev pub ymd : ℕ → List Directive
ymd sep =
    Directive.year_4
    ∷ Directive.literal sep
    ∷ Directive.month_2
    ∷ Directive.literal sep
    ∷ Directive.day_2
    ∷ []
