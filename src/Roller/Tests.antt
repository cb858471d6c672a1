-- ===== src/Roller/Tests.antt =====
-- Runs of the rollover of resources/backfill.py, and its theorems at concrete inputs. A row is its
-- time in milliseconds.
use nano_tick.Base.{ℕ, ◌≤◌, ◌≡◌, refl, some, List, [], ◌∷◌, ◌++◌, arith, ok, ◌>>=◌}
use nano_tick.Store.{insert, insert_quote, savedown, write_part}
use nano_tick.Store.Rows.{all_rows}
use nano_tick.Roller.{Roller, utc_date, roll, fed_trades, fed_quotes, feed, feed_quote, flush}
use nano_tick.Roller.Days.{
  Chunk, Keeps, feed_all, trade_rows_of, quote_rows_of, feed_all-Keeps, restart_overwrites,
}

program : Unit {0}
unfolding feed_all feed feed_quote fed_trades fed_quotes flush roll insert insert_quote savedown
    write_part utc_date
program = tt

abbrev time : ℕ → ℕ
time t = t

-- on day 20000, with one earlier partition
abbrev start : Roller ℕ ℕ
start = record {
  store = record {
    trade = record { rdb = 1_728_000_000_001 ∷ []; parts = (19_999, 5 ∷ []) ∷ [] };
    quote = record { rdb = []; parts = [] };
  };
  current_day = some 20_000;
}

abbrev chunks : List (Chunk ℕ ℕ)
chunks =
    Chunk.trades 1_728_000_000_002 []
    ∷ Chunk.quotes 1_728_086_400_000 []
    ∷ Chunk.trades 1_728_000_000_003 (1_728_086_400_001 ∷ [])
    ∷ []

abbrev after_chunks : Roller ℕ ℕ
after_chunks = record {
  store = record {
    trade = record {
      rdb = 1_728_000_000_003 ∷ 1_728_086_400_001 ∷ [];
      parts = (19_999, 5 ∷ []) ∷ (20_000, 1_728_000_000_001 ∷ 1_728_000_000_002 ∷ []) ∷ [];
    };
    quote = record { rdb = 1_728_086_400_000 ∷ []; parts = [] };
  };
  current_day = some 20_001;
}

feed_all_test : feed_all time time chunks start ≡ ok after_chunks
unfolding program
feed_all_test = refl

start-Keeps : Keeps start 20_000 (5 ∷ 1_728_000_000_001 ∷ []) []
start-Keeps = record {
  on_day = refl;
  trade_before = (omega arith, tt);
  quote_before = tt;
  trade_rows = refl;
  quote_rows = refl;
}

feed_all-Keeps_example :
    (r : Roller ℕ ℕ) × (day : ℕ) × (feed_all time time chunks start ≡ ok r)
    × (20_000 ≤ day)
    × Keeps r day
        ((5 ∷ 1_728_000_000_001 ∷ []) ++ trade_rows_of {R = ℕ} {Q = ℕ} time time chunks)
        ([] ++ quote_rows_of {R = ℕ} {Q = ℕ} time time chunks)
feed_all-Keeps_example =
    feed_all-Keeps time time chunks 20_000 start (5 ∷ 1_728_000_000_001 ∷ []) [] start-Keeps

restart_overwrites_example :
    (r : Roller ℕ ℕ) × ((do
      (again, _) ← feed time (1_728_000_000_009 ∷ []) (flush start).0
      ok (flush again).0)
      ≡ ok r)
    × (all_rows r.store.trade ≡ 5 ∷ 1_728_000_000_009 ∷ [])
unfolding utc_date
restart_overwrites_example =
    restart_overwrites time time start 1_728_000_000_001 1_728_000_000_009 1_728_000_000_009 [] []
      refl refl (omega arith, tt) refl
