-- ===== src/Store/Tests.antt =====
-- The directories of a store (resources/backfill.py), and the theorem on the latest of them, beside the
-- file "sym" and a directory "tmp".
use nano_tick.Base.{
  inl, inr, Error, Option, ℕ, ◌≡◌, refl, Bool, true, false, none, some, List, [], ◌∷◌, ◌⊎◌, arith,
}
use nano_tick.Dates.{Fields, ymd, date_of, to_ordinal, is_date, strptime, match_all, day_number}
use nano_tick.Data.{digits_value, is_digit}
use nano_tick.Base.Text.{is_space}
use nano_tick.Dates.Print.{print, InBounds}
use nano_tick.Store.Partitions.{
  TableName, Entry, entries_of, holding, latest_partition_dir, existing_partition_dates, IsNewest,
  latest_partition_dir-IsNewest,
}

abbrev first : Fields
first = record { year = 2024; month = 2; day = 29; hour = 0; minute = 0; second = 0 }

abbrev second : Fields
second = record { year = 2024; month = 3; day = 1; hour = 0; minute = 0; second = 0 }

abbrev has : Bool → Bool → TableName → Bool
has trades quotes TableName.trade_table = trades
has trades quotes TableName.quote_table = quotes

abbrev dirs : List (Option Fields × Entry)
dirs =
    (
      some second,
      record { name = print (ymd 46) second; is_dir = true; has_table = has false true },
    )
    ∷ (none, record { name = 115 ∷ 121 ∷ 109 ∷ []; is_dir = false; has_table = has false false })
    ∷ (none, record { name = 116 ∷ 109 ∷ 112 ∷ []; is_dir = true; has_table = has true true })
    ∷ (some first, record { name = print (ymd 46) first; is_dir = true; has_table = has true true })
    ∷ []

program : Unit {0}
unfolding existing_partition_dates latest_partition_dir to_ordinal is_date strptime match_all
    day_number digits_value is_space is_digit
program = tt

latest_partition_dir_test :
    (existing_partition_dates (entries_of dirs) ≡ date_of first ∷ [])
    × (latest_partition_dir TableName.trade_table (entries_of dirs)
        ≡ some (record { name = print (ymd 46) first; is_dir = true; has_table = has true true }))
unfolding program
latest_partition_dir_test = (refl, refl)

first-InBounds : InBounds first
first-InBounds = record {
  year_below = omega arith;
  month_from = omega arith;
  month_to = omega arith;
  day_from = omega arith;
  day_to = omega arith;
  hour_to = omega arith;
  minute_to = omega arith;
  second_to = omega arith;
}

second-InBounds : InBounds second
second-InBounds = record {
  year_below = omega arith;
  month_from = omega arith;
  month_to = omega arith;
  day_from = omega arith;
  day_to = omega arith;
  hour_to = omega arith;
  minute_to = omega arith;
  second_to = omega arith;
}

latest_partition_dir-IsNewest_example :
    ((holding TableName.quote_table dirs ≡ [])
      × (latest_partition_dir TableName.quote_table (entries_of dirs) ≡ none))
    ⊎ ((p : ℕ × Entry) × (latest_partition_dir TableName.quote_table (entries_of dirs) ≡ some p.1)
        × IsNewest (holding TableName.quote_table dirs) p)
unfolding program
latest_partition_dir-IsNewest_example = latest_partition_dir-IsNewest TableName.quote_table dirs (
  (refl, refl, second-InBounds, refl),
  (inl refl, (inr (Error.value_error, refl), ((refl, refl, first-InBounds, refl), tt))),
)
