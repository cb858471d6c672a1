-- ===== src/Batch/Tests.antt =====
-- Runs of `_dedup` and `_by_symbol` (resources/feedhandler.py), and the theorem on the first at a concrete
-- batch. A record is a pair of a symbol and an id.
use nano_tick.Base.{
  ℕ, ◌≡◌, refl, some, List, [], ◌∷◌, ◌++◌, ◌==◌, if◌then◌else◌, Result, ok, raise, Error,
}
use native.Mathlib.Decide.{ℕ_discrete}
use nano_tick.Batch.{dedup, by_symbol}
use nano_tick.Batch.Fresh.{IsFresh, dedup-IsFresh, dedup_all}
use nano_tick.Batch.Groups.{of_symbol, group_of}

program : Unit {0}
unfolding dedup by_symbol ℕ_discrete of_symbol group_of dedup_all
program = tt

abbrev Tick : Type 0
Tick = ℕ × ℕ

abbrev symbol : Tick → Result ℕ
symbol t = if t.0 == 0 then raise Error.key_error else ok t.0

abbrev id : Tick → ℕ
id t = t.1

abbrev batch : List Tick
batch = (1, 12) ∷ (2, 5) ∷ (1, 10) ∷ (1, 12) ∷ (2, 4) ∷ []

dedup_test : dedup id batch (some 5) ≡ ((1, 10) ∷ (1, 12) ∷ [], some 12)
unfolding program
dedup_test = refl

by_symbol_test :
    (by_symbol ℕ_discrete symbol batch
      ≡ ok ((1, (1, 12) ∷ (1, 10) ∷ (1, 12) ∷ []) ∷ (2, (2, 5) ∷ (2, 4) ∷ []) ∷ []))
    × (by_symbol ℕ_discrete symbol (batch ++ (0, 3) ∷ []) ≡ raise Error.key_error)
unfolding program
by_symbol_test = (refl, refl)

dedup-IsFresh_example : IsFresh id (some 5) batch (dedup id batch (some 5))
dedup-IsFresh_example = dedup-IsFresh id batch (some 5)
