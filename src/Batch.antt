-- ===== src/Batch.antt =====
-- `_dedup` and `_by_symbol` of resources/feedhandler.py, on the records of one batch. A record is any
-- type that shows its id, a number as the normalisers publish it, and its symbol, if it has one.
pub mod Dedup
pub mod Fresh
pub mod Groups
mod Tests
use nano_tick.Base.{
  ℕ, ◌+◌, Bool, true, false, Option, none, some, List, [], ◌∷◌, ◌++◌, leb, ltb, if◌then◌else◌,
  Result, ok, raise, ◌>>=◌,
}
use mathlib.Core.Logic.{ite}

module _ {T : Type 0} (id : T → ℕ) where
  -- `sorted(items, key=...)`, which is stable: an item goes before the later ones of its id
  unfoldable pub insert_sorted : T → List T → List T
  insert_sorted x [] = x ∷ []
  insert_sorted x (y ∷ ys) =
      let rest = insert_sorted x ys in if leb (id x) (id y) then x ∷ y ∷ ys else y ∷ rest

  unfoldable pub sorted : List T → List T
  unfolding insert_sorted
  sorted [] = []
  sorted (x ∷ xs) = insert_sorted x (sorted xs)

  -- `last is None or it[key] > last`
  unfoldable pub is_new : Option ℕ → T → Bool
  is_new none x = true
  is_new (some last) x = ltb last (id x)

  -- the loop, on the sorted items
  unfoldable pub fresh_loop : Option ℕ → List T → List T × Option ℕ
  unfolding is_new
  fresh_loop last [] = ([], last)
  fresh_loop last (x ∷ xs) =
      let taken = fresh_loop (some (id x)) xs in
      let passed = fresh_loop last xs in if is_new last x then (x ∷ taken.0, taken.1) else passed

  -- `_dedup`
  unfoldable pub dedup : List T → Option ℕ → List T × Option ℕ
  unfolding fresh_loop sorted
  dedup items last = fresh_loop last (sorted items)

module _ {K T : Type 0} (dec : Discrete K) where
  -- `groups.setdefault(k, []).append(it)`
  unfoldable pub add_to_group : K → T → List (K × List T) → List (K × List T)
  add_to_group k x [] = (k, x ∷ []) ∷ []
  add_to_group k x ((j, g) ∷ groups) =
      ite (dec j k) ((j, g ++ x ∷ []) ∷ groups) ((j, g) ∷ add_to_group k x groups)

  module _ (symbol : T → Result K) where
    unfoldable pub group_from : List (K × List T) → List T → Result (List (K × List T))
    unfolding add_to_group
    group_from groups [] = ok groups
    group_from groups (x ∷ xs) = do k ← symbol x; group_from (add_to_group k x groups) xs

    -- `_by_symbol`, where `it["symbol"]` may raise
    unfoldable pub by_symbol : List T → Result (List (K × List T))
    unfolding group_from
    by_symbol items = group_from [] items
