-- ===== src/Store.antt =====
-- The kdb store as `HdbWriter` (resources/backfill.py) and the write verbs of platform/schema.q use
-- it: for each table the rows in memory (the RDB) and the date partitions on disk (the HDB). Rows
-- are any type; a date is its day number. The order that .Q.dpft gives to the rows of a partition,
-- the materialised bars and the column types are left out.
pub mod Parts
pub mod Partitions
mod Tests
pub mod Rows
use nano_tick.Base.{
  ℕ, ◌+◌, Bool, true, false, Option, none, some, List, [], ◌∷◌, ◌++◌, map, length, if◌then◌else◌,
  ltb, ◌==◌, max,
}
use mathlib.Core.Logic.{ite}

-- a table: `rdb` in memory, and a partition for each date on disk, in the order of their writing
pub record Table (R : Type 0) : Type 0 where
  pub rdb : List R
  pub parts : List (ℕ × List R)

-- the two tables that the writer fills
pub record Store (R Q : Type 0) : Type 0 where
  pub trade : Table R
  pub quote : Table Q

module _ {R : Type 0} where
  -- .Q.dpft: the partition of a date is written anew
  unfoldable pub write_part : ℕ → List R → List (ℕ × List R) → List (ℕ × List R)
  write_part day rows [] = (day, rows) ∷ []
  write_part day rows ((d, old) ∷ parts) =
      let rest = write_part day rows parts in
      if d == day then (d, rows) ∷ parts else (d, old) ∷ rest

  -- `saveTable`: nothing to do for an empty table; else write the partition and clear
  unfoldable pub save_rows : ℕ → List R → Table R → Table R
  save_rows day [] t = t
  save_rows day (r ∷ rows) t = record { rdb = []; parts = write_part day (r ∷ rows) t.parts }

  unfoldable pub save_table : ℕ → Table R → Table R
  unfolding save_rows
  save_table day t = save_rows day t.rdb t

  -- `insertRaw`: append the rows, and count them
  unfoldable pub insert_raw : List R → Table R → Table R × ℕ
  insert_raw rows t = (record t { rdb = t.rdb ++ rows }, length rows)

  -- the newest date partition, by `max` over the (date, directory) pairs
  unfoldable pub newest : List (ℕ × List R) → Option (ℕ × List R)
  newest [] = none
  newest ((d, rows) ∷ parts) = elim (newest parts) [
    | none ↦ some (d, rows)
    | some (e, others) ↦ if ltb d e then some (e, others) else some (d, rows)
  ]

  module _ {K : Type 0} (dec : Discrete K) (sym : R → K) (id : R → ℕ) where
    -- the largest id among the rows of a symbol
    unfoldable pub max_id_of : K → List R → Option ℕ
    max_id_of s [] = none
    max_id_of s (r ∷ rows) =
        let rest = max_id_of s rows in
        ite (dec (sym r) s) (elim rest [ none ↦ some (id r) | some m ↦ some (max (id r) m) ]) rest

    -- `_max_id`: of the RDB, or of the newest partition if the RDB has no row of the symbol
    unfoldable pub max_stored : K → Table R → Option ℕ
    max_stored s t = elim (max_id_of s t.rdb) [
      | some m ↦ some m
      | none ↦ elim (newest t.parts) [ none ↦ none | some (d, rows) ↦ max_id_of s rows ]
    ]

module _ {R Q : Type 0} where
  -- `HdbWriter.insert`, `insert_quote` and `savedown`
  unfoldable pub insert : List R → Store R Q → Store R Q × ℕ
  unfolding insert_raw
  insert rows s = (record s { trade = (insert_raw rows s.trade).0 }, (insert_raw rows s.trade).1)

  unfoldable pub insert_quote : List Q → Store R Q → Store R Q × ℕ
  unfolding insert_raw
  insert_quote rows s =
      (record s { quote = (insert_raw rows s.quote).0 }, (insert_raw rows s.quote).1)

  unfoldable pub savedown : ℕ → Store R Q → Store R Q
  unfolding save_table
  savedown day s = record { trade = save_table day s.trade; quote = save_table day s.quote }
