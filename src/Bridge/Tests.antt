-- ===== src/Bridge/Tests.antt =====
-- A run of `bridge` (resources/backfill.py) against a served archive, and its theorem there. A trade
-- is its id, and a row too.
use nano_tick.Base.{ℕ, ◌≡◌, refl, none, some, List, [], ◌∷◌, take, arith, Result, ok, raise, Error}
use nano_tick.Store.{Table, insert_raw}
use nano_tick.Bridge.{below_target, keep_below, bridge_loop, bridge}
use nano_tick.Bridge.Pages.{from_start}
use nano_tick.Bridge.Gapless.{bridge-gapless}

program : Unit {0}
unfolding bridge bridge_loop insert_raw below_target keep_below from_start
program = tt

abbrev id : ℕ → ℕ
id t = t

abbrev archive : List ℕ
archive = 3 ∷ 4 ∷ 5 ∷ 6 ∷ 7 ∷ 9 ∷ []

abbrev fetch : ℕ → ℕ → Result (List ℕ)
fetch start page = ok (take page (from_start id start archive))

abbrev stored : Table ℕ
stored = record { rdb = 3 ∷ []; parts = [] }

bridge_test :
    bridge id id fetch 2 6 (some 7) (some 3) stored
    ≡ some (
        ok (record {
          table = record { rdb = 3 ∷ 4 ∷ 5 ∷ 6 ∷ []; parts = [] };
          inserted = 3;
          from_id = some 4;
        }))
unfolding program
bridge_test = refl

bridge_fails_test :
    bridge {T = ℕ} id id (λ start page. raise Error.runtime_error) 2 6 none (some 3) stored
    ≡ some (raise Error.runtime_error)
unfolding program
bridge_fails_test = refl

bridge-gapless_example :
    bridge id id fetch 2 6 (some 7) (some 3) stored
    ≡ some (
        ok (record {
          table = record { rdb = 3 ∷ 4 ∷ 5 ∷ 6 ∷ []; parts = [] };
          inserted = 3;
          from_id = some 4;
        }))
unfolding program
bridge-gapless_example =
    bridge-gapless id id fetch 1 archive (omega arith) (λ s. refl) 6 (some 7) 3 stored (omega arith)
