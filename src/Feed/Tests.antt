-- ===== src/Feed/Tests.antt =====
-- Runs of the feedhandler (resources/feedhandler.py), and its theorems at concrete inputs. A trade
-- and its row are a symbol, an id and a time; so are a quote and its row.
use nano_tick.Base.{
  Option, Error, raise, if◌then◌else◌, ◌==◌, Result, take, none, ℕ, ◌≡◌, refl, true, false, some,
  List, [], ◌∷◌, ◌++◌, ok, arith,
}
use native.Mathlib.Decide.{ℕ_discrete}
use nano_tick.Base.Dict.{lookup, insert}
use nano_tick.Store.{
  Table, Store, max_stored, newest, max_id_of, write_part, savedown, insert_quote,
}
use nano_tick.Store
use nano_tick.Roller.{Roller, utc_date, feed, feed_quote}
use nano_tick.Batch.{dedup, by_symbol}
use nano_tick.Batch.Groups.{of_symbol}
use nano_tick.Feed.{
  trades_of, quotes_of, is_pending, first_new, discard, Handler, Record, Wire, Bridging, on_connect,
  on_message, drain, apply_trades, maybe_rebridge, round, start, shutdown, last_of, request_stop,
}
use nano_tick.Feed.Run.{Event, run_events}
use nano_tick.Feed.Wiring.{View}
use nano_tick.Bridge.{bridge, bridge_loop, keep_below, below_target}
use nano_tick.Bridge.Pages.{from_start, Ascending}
use nano_tick.Feed.Gap.{bridging, after_first, maybe_rebridge-bridging}
use nano_tick.Feed.Queue.{IsFirstNew}

program : Unit {0}
unfolding on_connect on_message round start shutdown maybe_rebridge apply_trades lookup insert
    max_stored newest max_id_of write_part savedown ℕ_discrete utc_date of_symbol dedup by_symbol
    trades_of quotes_of drain is_pending first_new last_of feed feed_quote Store.insert insert_quote
    discard
program = tt

abbrev Tick : Type 0
Tick = ℕ × ℕ × ℕ

abbrev symbol : Tick → ℕ
symbol t = t.0

-- A payload has no symbol if that is 0, and no row if its time is 0.
abbrev read_symbol : Tick → Result ℕ
read_symbol t = if t.0 == 0 then raise Error.key_error else ok t.0

abbrev id : Tick → ℕ
id t = t.1

abbrev time : Tick → ℕ
time t = t.2

abbrev row : Tick → Tick
row t = t

abbrev read_row : Tick → Result Tick
read_row t = if t.2 == 0 then raise Error.key_error else ok t

abbrev view : View ℕ Tick Tick Tick Tick
view = record { symbol = symbol; row = row; quote_symbol = symbol; quote_row = row }

abbrev wire : Wire ℕ Tick Tick Tick Tick
wire = record {
  symbol = read_symbol;
  id = id;
  row = read_row;
  quote_symbol = read_symbol;
  quote_id = id;
  quote_row = read_row;
  row_symbol = symbol;
  row_id = id;
  row_time = time;
  quote_row_symbol = symbol;
  quote_row_id = id;
  quote_row_time = time;
}

-- an API that has one trade of each symbol, with id 8
abbrev one_trade : Bridging ℕ Tick
one_trade k target t = ok (record t { rdb = t.rdb ++ (k, 8, 1) ∷ [] })

abbrev handler : Handler ℕ Tick Tick Tick Tick
handler = record {
  roller = record {
    store = record {
      trade = record { rdb = []; parts = [] };
      quote = record { rdb = []; parts = [] };
    };
    current_day = some 0;
  };
  queue = [];
  last_id = (1, some 5) ∷ [];
  last_quote_id = [];
  pending_rebridge = [];
  dropped = 0;
  stop = false;
  connected_once = true;
}

-- Trade 9 of symbol 1 comes after a gap: the bridge fetches trade 8, and then trade 9 is fed.
round_test :
    round ℕ_discrete wire one_trade (record handler {
      queue = Record.trade (1, 9, 3) ∷ Record.quote (1, 4, 3) ∷ Record.trade (1, 5, 2) ∷ [];
      pending_rebridge = 1 ∷ 2 ∷ [];
    })
    ≡ ok (record handler {
      roller = record {
        store = record {
          trade = record { rdb = (1, 8, 1) ∷ (1, 9, 3) ∷ []; parts = [] };
          quote = record { rdb = (1, 4, 3) ∷ []; parts = [] };
        };
        current_day = some 0;
      };
      last_id = (1, some 9) ∷ [];
      last_quote_id = (1, some 4) ∷ [];
      pending_rebridge = 2 ∷ [];
    })
unfolding program
round_test = refl

abbrev trades : List Tick
trades = (1, 7, 3) ∷ (2, 4, 3) ∷ (1, 6, 2) ∷ (1, 5, 1) ∷ []

trades_test :
    (apply_trades ℕ_discrete wire one_trade (trades ++ (0, 8, 3) ∷ []) handler
      ≡ raise Error.key_error)
    × (apply_trades ℕ_discrete wire one_trade (trades ++ (1, 8, 0) ∷ []) handler
        ≡ raise Error.key_error)
unfolding program
trades_test = (refl, refl)

abbrev archive : List ℕ
archive = 4 ∷ 5 ∷ 6 ∷ 7 ∷ 8 ∷ 9 ∷ []

abbrev rest_row : ℕ → ℕ → Tick
rest_row k n = (k, n, 1)

abbrev fetch : ℕ → ℕ → ℕ → Result (List ℕ)
fetch k start page = ok (take page (from_start (λ n. n) start archive))

abbrev at_five : Handler ℕ Tick Tick Tick Tick
at_five = record handler {
  roller = record {
    store = record {
      trade = record { rdb = (1, 5, 1) ∷ []; parts = [] };
      quote = record { rdb = []; parts = [] };
    };
    current_day = some 0;
  };
  pending_rebridge = 1 ∷ [];
}

rebridge_test :
    let table = record at_five.roller.store.trade {
      rdb = (1, 5, 1) ∷ (1, 6, 1) ∷ (1, 7, 1) ∷ (1, 8, 1) ∷ [];
    } in
    maybe_rebridge ℕ_discrete wire
      (bridging ℕ_discrete wire (λ n. n) rest_row fetch 1 5)
      1
      ((1, 10, 3) ∷ (1, 9, 3) ∷ (1, 4, 2) ∷ [])
      at_five
    ≡ ok (record at_five {
      roller = record at_five.roller { store = record at_five.roller.store { trade = table } };
      last_id = insert ℕ_discrete 1 (some 8) at_five.last_id;
      pending_rebridge = [];
    })
unfolding program from_start keep_below below_target bridging bridge bridge_loop
rebridge_test = refl

archive-Ascending : Ascending (λ n. n) 0 archive
archive-Ascending = omega arith

abbrev gap_batch : List Tick
gap_batch = (1, 10, 3) ∷ (1, 9, 3) ∷ (1, 4, 2) ∷ []

maybe_rebridge-bridging_example :
    (first : Option ℕ) × IsFirstNew id (some 5) gap_batch first
    × (maybe_rebridge ℕ_discrete wire
          (bridging ℕ_discrete wire (λ n. n) rest_row fetch 1 5)
          1
          gap_batch
          at_five
        ≡ ok (
            after_first ℕ_discrete wire
              (λ n. n)
              rest_row
              fetch
              1
              5
              1
              archive
              archive-Ascending
              (λ s. refl)
              5
              5
              at_five
              first))
unfolding program from_start
maybe_rebridge-bridging_example =
    maybe_rebridge-bridging ℕ_discrete wire (λ n. n) rest_row fetch 1 5 1 archive archive-Ascending
      (λ s. refl) 5 5 gap_batch at_five refl refl (omega arith)

-- a reconnect, a trade after a gap, a quote of the next day, a signal, and a round that comes late
abbrev events : List (Event Tick Tick)
events =
    Event.connected
    ∷ Event.received (some (Record.trade (1, 9, 3)))
    ∷ Event.looped
    ∷ Event.received none
    ∷ Event.received (some (Record.quote (1, 4, 86_400_000)))
    ∷ Event.looped
    ∷ Event.signalled
    ∷ Event.received (some (Record.trade (1, 10, 4)))
    ∷ Event.looped
    ∷ []

events_test :
    run_events ℕ_discrete wire one_trade (1 ∷ 2 ∷ []) events handler
    ≡ ok (record handler {
      roller = record {
        store = record {
          trade = record { rdb = []; parts = (0, (1, 8, 1) ∷ (1, 9, 3) ∷ []) ∷ [] };
          quote = record { rdb = (1, 4, 86_400_000) ∷ []; parts = [] };
        };
        current_day = some 1;
      };
      queue = Record.trade (1, 10, 4) ∷ [];
      last_id = (1, some 9) ∷ [];
      last_quote_id = (1, some 4) ∷ [];
      pending_rebridge = 2 ∷ [];
      stop = true;
    })
unfolding program run_events request_stop
events_test = refl

abbrev waiting : Handler ℕ Tick Tick Tick Tick
waiting = record handler { queue = Record.trade (1, 6, 3) ∷ Record.quote (1, 4, 3) ∷ [] }

abbrev spoilt : Handler ℕ Tick Tick Tick Tick
spoilt = record handler { queue = Record.trade (1, 6, 3) ∷ Record.trade (0, 7, 3) ∷ [] }
