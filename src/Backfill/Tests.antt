-- ===== src/Backfill/Tests.antt =====
-- Runs of the archive backfill (resources/backfill.py), and its theorems at concrete inputs. A row is
-- a number, and symbol 7 is not published on day 102.
use nano_tick.Base.{
  ℕ, ◌≡◌, refl, Option, none, some, List, [], ◌∷◌, ◌++◌, length, ◌==◌, if◌then◌else◌, Result, ok,
  raise, Error,
}
use nano_tick.Base.Int.{pos}
use nano_tick.Store.{Store, write_part}
use nano_tick.Backfill.{Chunks, Fetch, run_backfill, run, prune, make_fetch_day}
use nano_tick.Backfill.Fill.{filled, run_backfill-filled}
use nano_tick.Store.Parts.{part_of}
use nano_tick.Backfill.Leak.{partial_day_leaks}

program : Unit {0}
unfolding run prune make_fetch_day write_part
program = tt

abbrev whole : List (List ℕ) → Result (Option (Chunks ℕ))
whole l = ok (some (record { yields = l; stops = none }))

abbrev fetch : Fetch ℕ ℕ
fetch k day =
    if k == 7
    then (if day == 102 then ok none else whole ((day ∷ []) ∷ (day ∷ []) ∷ []))
    else whole ((k ∷ []) ∷ [])

abbrev stored : Store ℕ ℕ
stored = record {
  trade = record { rdb = []; parts = (100, 1 ∷ []) ∷ (99, 2 ∷ []) ∷ [] };
  quote = record { rdb = []; parts = (98, 3 ∷ []) ∷ (99, 4 ∷ []) ∷ [] };
}

run_test :
    run 103 (pos 3) (7 ∷ 8 ∷ []) fetch stored
    ≡ ok (
      record {
        trade = record {
          rdb = [];
          parts = (100, 1 ∷ []) ∷ (99, 2 ∷ []) ∷ (101, 101 ∷ 101 ∷ 8 ∷ []) ∷ (102, 8 ∷ []) ∷ [];
        };
        quote = stored.quote;
      },
      record { written = 2; rows = 4; skipped = 1; missing = 1; failed = 0 },
    )
unfolding program
run_test = refl

prune_test :
    prune 103 (pos 3) stored
    ≡ ok (
      record {
        trade = record { rdb = []; parts = (100, 1 ∷ []) ∷ [] };
        quote = record { rdb = []; parts = (98, 3 ∷ []) ∷ [] };
      },
      1,
      100,
    )
unfolding program
prune_test = refl

mismatch_test :
    make_fetch_day {B = ℕ}
      (λ k d. ok (some d))
      (λ k d. ok (some k))
      (λ zip sum. ok (zip == sum))
      (λ k zip. record { yields = (zip ∷ []) ∷ []; stops = none })
      7
      102
    ≡ raise Error.value_error
unfolding program
mismatch_test = refl

abbrev always : Fetch ℕ ℕ
always k day = whole ((k ∷ day ∷ []) ∷ (k ∷ []) ∷ [])

run_backfill-filled_example :
    ((run_backfill (100 ∷ 101 ∷ []) (100 ∷ 99 ∷ []) (7 ∷ 8 ∷ []) always stored).0.trade.rdb ≡ [])
    × ((run_backfill (100 ∷ 101 ∷ []) (100 ∷ 99 ∷ []) (7 ∷ 8 ∷ []) always stored).0.quote
        ≡ stored.quote)
    × ((d : ℕ)
        → part_of d
            (run_backfill (100 ∷ 101 ∷ []) (100 ∷ 99 ∷ []) (7 ∷ 8 ∷ []) always stored).0.trade.parts
          ≡ filled always
              (100 ∷ 99 ∷ [])
              (7 ∷ 8 ∷ [])
              (100 ∷ 101 ∷ [])
              d
              (part_of d stored.trade.parts))
run_backfill-filled_example =
    run_backfill-filled always (100 ∷ 99 ∷ []) (7 ∷ 8 ∷ []) (100 ∷ 101 ∷ []) stored (λ k day. refl)
      refl refl

-- the download of day 101 breaks off after one row
abbrev broken : Fetch ℕ ℕ
broken k day =
    if day == 101
    then ok (some (record { yields = (5 ∷ []) ∷ []; stops = some Error.value_error }))
    else ok (some (record { yields = (6 ∷ []) ∷ []; stops = none }))

partial_day_leaks_example :
    (part_of 102 (run_backfill (101 ∷ 102 ∷ []) [] (7 ∷ []) broken stored).0.trade.parts
      ≡ some ((5 ∷ []) ++ (6 ∷ [])))
    × ((run_backfill (101 ∷ 102 ∷ []) [] (7 ∷ []) broken stored).1 ≡ record {
      written = 1;
      rows = length {A = ℕ} (6 ∷ []);
      skipped = 0;
      missing = 0;
      failed = 1;
    })
partial_day_leaks_example =
    partial_day_leaks broken 7 101 102 5 6 [] [] Error.value_error stored refl refl refl
