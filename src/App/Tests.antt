-- ===== src/App/Tests.antt =====
-- A start of platform/app.py, and its theorem there. A row is a number; a symbol's archive has one row
-- per day. The day changes between the backfill and the pruning, and a date has quotes only.
use nano_tick.Base.{ℕ, ◌≡◌, refl, none, some, [], ◌∷◌, ok}
use nano_tick.Base.Int.{pos}
use nano_tick.Store.{Store, write_part}
use nano_tick.Backfill.{Fetch, run, prune}
use nano_tick.App.{startup}

program : Unit {0}
unfolding startup run prune write_part
program = tt

abbrev fetch : Fetch ℕ ℕ
fetch k day = ok (some (record { yields = (k ∷ day ∷ []) ∷ []; stops = none }))

abbrev stored : Store ℕ ℕ
stored = record {
  trade = record { rdb = []; parts = (98, 1 ∷ []) ∷ (101, 2 ∷ []) ∷ [] };
  quote = record { rdb = []; parts = (90, 4 ∷ []) ∷ (98, 3 ∷ []) ∷ [] };
}

startup_test :
    startup 103 104 (pos 2) (7 ∷ []) fetch stored
    ≡ ok (record {
      trade = record { rdb = []; parts = (102, 7 ∷ 102 ∷ []) ∷ [] };
      quote = record { rdb = []; parts = (90, 4 ∷ []) ∷ [] };
    })
unfolding program
startup_test = refl
