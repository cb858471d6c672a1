-- ===== src/Reader/Tests.antt =====
-- Runs of resources/reader.py, and its theorems at concrete inputs. The floats are numbers of
-- milliseconds.
use nano_tick.Base.{
  ℕ, ◌*◌, ◌≡◌, refl, true, Option, none, some, [], ◌∷◌, Result, ok, raise, Error, arith,
}
use nano_tick.Base.Int.{ℤ, pos}
use nano_tick.Base.Text.{Text, is_space, lstrip, rstrip, cons_stripped}
use nano_tick.Data.{is_digit, digits_value, all_digits, isdigit, unsigned, int}
use nano_tick.Dates.{
  Fields, ymd, is_leap, days_in_month, days_before_month, to_ordinal, span_digits, number,
  skip_spaces, day_number, match_one, is_date, match_all, strptime, date_of,
}
use nano_tick.Dates.Print.{print}
use nano_tick.Reader.{
  BarSize, DateLike, Variable, ReaderConfig, Query, bar_ns, to_bar_ns, dotted, coerce_date,
  from_env, default_size, config_default, open_reader, read_bars, read_features,
}
use nano_tick.Reader.Coerce.{coerce_date-print}

program : Unit {0}
unfolding is_leap days_in_month days_before_month to_ordinal span_digits number skip_spaces
    day_number match_one is_date match_all strptime is_digit is_space digits_value all_digits
    isdigit unsigned int lstrip rstrip cons_stripped bar_ns to_bar_ns dotted coerce_date from_env
    default_size config_default open_reader read_bars read_features
program = tt

abbrev round_ns : ℕ → Result ℤ
round_ns ms = ok (pos (ms * 1_000_000))

size_test : to_bar_ns round_ns (BarSize.float_size 500) ≡ ok (pos 500_000_000)
unfolding program
size_test = refl

zero_size_test : to_bar_ns round_ns (BarSize.int_size (pos 0)) ≡ raise Error.value_error
unfolding program
zero_size_test = refl

bool_size_test : to_bar_ns round_ns (BarSize.bool_size true) ≡ raise Error.type_error
unfolding program
bool_size_test = refl

-- " 2026-8-18"
text_test :
    coerce_date (DateLike.of_str (32 ∷ 50 ∷ 48 ∷ 50 ∷ 54 ∷ 45 ∷ 56 ∷ 45 ∷ 49 ∷ 56 ∷ []))
    ≡ ok (to_ordinal 2026 8 18)
unfolding program
text_test = refl

abbrev config : ReaderConfig ℕ
config = record {
  symbol = 66 ∷ [];
  hdb_path = 104 ∷ [];
  analytics_q = 97 ∷ [];
  bar_seconds = pos 30;
  horizon = pos 2;
  window = pos 10;
  cost = 5;
}

-- a number of seconds that is no number stops the configuration
abbrev environ : Variable → Option Text
environ Variable.env_bar_seconds = some (120 ∷ [])
environ _ = none

from_env_test :
    from_env {F = ℕ} (97 ∷ []) (104 ∷ []) (λ s. s) (λ s. ok 5) environ ≡ raise Error.value_error
unfolding program
from_env_test = refl

features_test :
    read_features round_ns
      (λ q. ok q)
      (record { config = some config })
      7
      (66 ∷ [])
      (DateLike.of_date 9)
      none
      none
      (some (pos 4))
      none
    ≡ ok (Query.ask_features (66 ∷ []) 9 (pos 30_000_000_000) (pos 2) (pos 4) 5)
unfolding program
features_test = refl

abbrev leap_day : Fields
leap_day = record { year = 2024; month = 2; day = 29; hour = 0; minute = 0; second = 0 }

coerce_date-print_example :
    (coerce_date (DateLike.of_str (print (ymd 45) leap_day)) ≡ ok (date_of leap_day))
    × (coerce_date (DateLike.of_str (print (ymd 46) leap_day)) ≡ ok (date_of leap_day))
unfolding program
coerce_date-print_example = coerce_date-print leap_day (ground arith) refl
