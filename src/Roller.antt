-- ===== src/Roller.antt =====
-- `RdbRoller` of resources/backfill.py: the day boundary of the live path, over the store. A row
-- shows its time in epoch milliseconds, and a day is a number of days since 1970-01-01.
pub mod Days
mod Tests
use nano_tick.Base.{
  ℕ, ◌/◌, Bool, Option, none, some, List, [], ◌∷◌, length, last?, ltb, if◌then◌else◌, Result, ok,
  raise, Error,
}
use nano_tick.Store.{Table, Store, insert, insert_quote, savedown}

-- `_utc_date`
unfoldable pub utc_date : ℕ → ℕ
utc_date ms = ms / 86_400_000

-- the roller beside the store of its writer
pub record Roller (R Q : Type 0) : Type 0 where
  pub store : Store R Q
  pub current_day : Option ℕ

-- what `feed` returns
pub record Fed : Type 0 where
  pub inserted : ℕ
  pub day : Option ℕ
  pub rolled : Option ℕ

module _ {R Q : Type 0} where
  unfoldable pub roll_from : Option ℕ → ℕ → Roller R Q → Roller R Q × Option ℕ
  roll_from none day r = (record r { current_day = some day }, none)
  roll_from (some current) day r =
      if ltb current day
      then (record { store = savedown current r.store; current_day = some day }, some current)
      else (r, none)

  -- `_roll`
  unfoldable pub roll : ℕ → Roller R Q → Roller R Q × Option ℕ
  unfolding roll_from
  roll day r = roll_from r.current_day day r

  unfoldable pub fed_trades : List R → Roller R Q × Option ℕ → Roller R Q × Fed
  fed_trades rows (r, rolled) =
      let (s, n) = insert rows r.store in
      (record r { store = s }, record { inserted = n; day = r.current_day; rolled = rolled })

  unfoldable pub fed_quotes : List Q → Roller R Q × Option ℕ → Roller R Q × Fed
  fed_quotes rows (r, rolled) =
      let (s, n) = insert_quote rows r.store in
      (record r { store = s }, record { inserted = n; day = r.current_day; rolled = rolled })

  -- `cols["time"][-1]` of an empty chunk is an `IndexError`
  unfoldable pub feed : (R → ℕ) → List R → Roller R Q → Result (Roller R Q × Fed)
  unfolding roll fed_trades
  feed time rows r = elim (last? rows) [
    | none ↦ raise Error.index_error
    | some row ↦ ok (fed_trades rows (roll (utc_date (time row)) r))
  ]

  unfoldable pub feed_quote : (Q → ℕ) → List Q → Roller R Q → Result (Roller R Q × Fed)
  unfolding roll fed_quotes
  feed_quote time rows r = elim (last? rows) [
    | none ↦ raise Error.index_error
    | some row ↦ ok (fed_quotes rows (roll (utc_date (time row)) r))
  ]

  unfoldable pub flush_day : Option ℕ → Roller R Q → Roller R Q × Option ℕ
  flush_day none r = (r, none)
  flush_day (some day) r = (record { store = savedown day r.store; current_day = none }, some day)

  unfoldable pub flush : Roller R Q → Roller R Q × Option ℕ
  unfolding flush_day
  flush r = flush_day r.current_day r
