-- ===== src/Bridge.antt =====
-- `bridge` of resources/backfill.py: page the trades of a symbol from the REST API into the store,
-- from the last stored id up to the first id of the live stream. The API is a parameter: `fetch`
-- takes the first id and the page size, and may raise.
pub mod Pages
pub mod Gapless
mod Tests
use nano_tick.Base.{
  ℕ, zero, suc, ◌+◌, Bool, true, Option, none, some, List, [], ◌∷◌, ◌++◌, map, length, ltb,
  if◌then◌else◌, Result, ok, raise,
}
use nano_tick.Store.{Table, insert_raw}

-- `target_id is None or start < target_id`
unfoldable pub below_target : Option ℕ → ℕ → Bool
below_target none start = true
below_target (some target) start = ltb start target

-- What the bridge returns, beside the table that it leaves.
pub record Bridged (R : Type 0) : Type 0 where
  pub table : Table R
  pub inserted : ℕ
  pub from_id : Option ℕ

-- `none` when the fuel runs out
abbrev pub Out : Type 0 → Type 0
Out R = Option (Result (Table R × ℕ))

-- A trade `T` shows its id.
module _ {T : Type 0} (id : T → ℕ) where
  -- `[t for t in trades if int(t["id"]) < target_id]`
  unfoldable pub keep_below : Option ℕ → List T → List T
  keep_below target [] = []
  keep_below target (t ∷ ts) =
      let rest = keep_below target ts in if below_target target (id t) then t ∷ rest else rest

  -- `int(trades[-1]["id"])` of a list that is not empty
  unfoldable pub last_id : T → List T → ℕ
  last_id t [] = id t
  last_id t (u ∷ us) = last_id u us

-- It becomes a row `R` of the table.
module _ {T R : Type 0} (id : T → ℕ) (row : T → R) (fetch : ℕ → ℕ → Result (List T))
    (page : ℕ) where
  -- the rest of the loop body once the trades are filtered; `go` is the next round
  unfoldable pub insert_page : (ℕ → ℕ → Table R → Out R) → List T → ℕ → Table R → Out R
  unfolding last_id
  insert_page go [] inserted table = some (ok (table, inserted))
  insert_page go (t ∷ ts) inserted table =
      let (after, n) = insert_raw (map row (t ∷ ts)) table in
      let rest = go (last_id id t ts + 1) (inserted + n) after in
      if ltb (length (t ∷ ts)) page then some (ok (after, inserted + n)) else rest

  -- the loop body after the fetch
  unfoldable pub after_fetch :
      (ℕ → ℕ → Table R → Out R) → Option ℕ → Result (List T) → ℕ → Table R → Out R
  unfolding insert_page
  after_fetch go target (raise e) inserted table = some (raise e)
  after_fetch go target (ok []) inserted table = some (ok (table, inserted))
  after_fetch go target (ok (t ∷ ts)) inserted table =
      insert_page go (keep_below id target (t ∷ ts)) inserted table

  -- `while target_id is None or start < target_id`
  unfoldable pub bridge_loop : ℕ → Option ℕ → ℕ → ℕ → Table R → Out R
  unfolding after_fetch
  bridge_loop zero target start inserted table = none
  bridge_loop (suc fuel) target start inserted table =
      let round = after_fetch (bridge_loop fuel target) target (fetch start page) inserted table in
      if below_target target start then round else some (ok (table, inserted))

  unfoldable pub finish : ℕ → Out R → Option (Result (Bridged R))
  finish from none = none
  finish from (some (raise e)) = some (raise e)
  finish from (some (ok (table, n))) =
      some (ok (record { table = table; inserted = n; from_id = some from }))

  -- `bridge`, given what `max_stored_id` answers
  unfoldable pub bridge : ℕ → Option ℕ → Option ℕ → Table R → Option (Result (Bridged R))
  unfolding finish
  bridge fuel target none table = some (ok (record { table = table; inserted = 0; from_id = none }))
  bridge fuel target (some floor) table =
      finish (floor + 1) (bridge_loop fuel target (floor + 1) 0 table)
