-- ===== src/Dashboard/Tests.antt =====
-- Runs of resources/dashboard.py, and its theorems at concrete inputs. A bar is its time.
use nano_tick.Base.{ℕ, ◌≡◌, refl, List, [], ◌∷◌, Result, ok, raise, Error, arith, inl}
use nano_tick.Base.Int.{ℤ, pos, negsuc, ◌+ℤ◌, ◌-ℤ◌}
use nano_tick.Base.Text.{is_space, lstrip, rstrip, cons_stripped}
use nano_tick.Data.{is_digit, digits_value, all_digits, isdigit}
use nano_tick.Dates.{
  Fields, is_leap, days_in_month, days_before_month, to_ordinal, span_digits, number, skip_spaces,
  day_number, match_one, is_date, match_all, strptime,
}
use nano_tick.Dates.Print.{print}
use nano_tick.Experiment.{add_frame, frames_of, load_frames}
use nano_tick.Experiment.Days.{rows_of}
use nano_tick.Dashboard.{
  normalised, instant_of, try_formats, epoch_ms, parse_instant, window_bounds, day_of, window_days,
  filter_window, or_empty, window_bars, escape, starts_with, replace,
}
use nano_tick.Dashboard.Escape.{NoClosing, escape-NoClosing}
use nano_tick.Dashboard.Instant.{Precision, format_of, parse_instant-print}
use nano_tick.Dashboard.Window.{day_at, on_day, Serves, window_bars-filter_window}

program : Unit {0}
unfolding is_leap days_in_month days_before_month to_ordinal span_digits number skip_spaces
    day_number match_one is_date match_all strptime is_digit is_space digits_value all_digits
    isdigit lstrip rstrip cons_stripped add_frame frames_of load_frames normalised instant_of
    try_formats epoch_ms parse_instant window_bounds day_of window_days filter_window window_bars
    escape starts_with replace ◌+ℤ◌ ◌-ℤ◌ on_day
program = tt

-- "1970-01-02T00:01Z"
instant_test :
    parse_instant
      (49 ∷ 57 ∷ 55 ∷ 48 ∷ 45 ∷ 48 ∷ 49 ∷ 45 ∷ 48 ∷ 50 ∷ 84 ∷ 48 ∷ 48 ∷ 58 ∷ 48 ∷ 49 ∷ 90 ∷ [])
    ≡ ok (pos 86_460_000)
unfolding program
instant_test = refl

-- "12" is a number of seconds
seconds_test : parse_instant (49 ∷ 50 ∷ []) ≡ ok (pos 12_000)
unfolding program
seconds_test = refl

no_instant_test : parse_instant (110 ∷ 111 ∷ 119 ∷ []) ≡ raise Error.value_error
unfolding program
no_instant_test = refl

-- a window over midnight
days_test : window_days (negsuc 59_999) (pos 60_000) ≡ 719_162 ∷ 719_163 ∷ []
unfolding program
days_test = refl

abbrev archive : List ℤ
archive = negsuc 89_999 ∷ negsuc 29_999 ∷ pos 0 ∷ pos 60_000 ∷ pos 90_000 ∷ []

abbrev some_bars : List ℤ → Result (List ℤ)
some_bars [] = raise Error.os_error
some_bars (b ∷ bars) = ok (b ∷ bars)

abbrev read : ℕ → Result (List ℤ)
read d = some_bars (on_day (day_at (λ b. b)) d archive)

window_test :
    window_bars (λ b. b) read (pos 0) (pos 1) ≡ ok (negsuc 29_999 ∷ pos 0 ∷ pos 60_000 ∷ [])
unfolding program
window_test = refl

escape_test : escape (60 ∷ 60 ∷ 47 ∷ 62 ∷ []) ≡ 60 ∷ 60 ∷ 92 ∷ 47 ∷ 62 ∷ []
unfolding program
escape_test = refl

replace_test : replace (97 ∷ 98 ∷ []) (120 ∷ []) 0 (97 ∷ 97 ∷ 98 ∷ 98 ∷ []) ≡ 97 ∷ 120 ∷ 98 ∷ []
unfolding program
replace_test = refl

serves : Serves (day_at (λ b. b)) archive read
serves d = rows (on_day (day_at (λ b. b)) d archive)
  where
    rows : (bars : List ℤ) → rows_of (some_bars bars) ≡ bars
    rows [] = refl
    rows (b ∷ bars) = refl

window_bars-filter_window_example :
    window_bars (λ b. b) read (pos 0) (pos 1)
    ≡ or_empty (λ b. b) (filter_window (λ b. b) (pos 0 -ℤ pos 60_000) (pos 0 +ℤ pos 60_000) archive)
unfolding program
window_bars-filter_window_example =
    window_bars-filter_window (λ b. b) archive read (pos 0) 1 (ground arith) serves (ground arith)

abbrev leap_minute : Fields
leap_minute = record { year = 2024; month = 2; day = 29; hour = 13; minute = 5; second = 0 }

parse_instant-print_example :
    parse_instant (print (format_of 45 Precision.by_minute) leap_minute)
    ≡ ok (instant_of leap_minute)
unfolding program
parse_instant-print_example =
    parse_instant-print 45 Precision.by_minute leap_minute (inl refl) (ground arith) refl

escape-NoClosing_example :
    NoClosing (escape (60 ∷ 47 ∷ [])) × (escape (escape (60 ∷ 47 ∷ [])) ≡ escape (60 ∷ 47 ∷ []))
escape-NoClosing_example = escape-NoClosing (60 ∷ 47 ∷ [])
