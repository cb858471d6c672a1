-- ===== src/Data/LiveTests.antt =====
-- Live trades and quotes (resources/binance.py), and the theorems on their columns. A JSON value is a
-- number, which is an integer unless it is 13.
use nano_tick.Base.{
  read_all, ℕ, ◌≡◌, refl, false, some, none, List, [], ◌∷◌, map, ok, raise, ◌>>=◌, Error, ◌==◌,
  if◌then◌else◌,
}
use nano_tick.Base.Int.{pos}
use nano_tick.Ingest.{Field, Message, Normalised, normalize_trade}
use nano_tick.Data.{to_millis}
use nano_tick.Data.Live.{
  Key, Object, Builtins, parse_live_ticks, parse_live_quotes, parse_rest_trades, read_tick,
  read_rest, read_quote,
}
use nano_tick.Data.Rows.{tick_columns, quote_columns, parsers_lem}
use nano_tick.Data.Pipeline.{Raw, row_of, object_of, parse_live_ticks-normalize_trade}

program : Unit {0}
unfolding parse_live_ticks parse_rest_trades to_millis
program = tt

abbrev py : Builtins ℕ ℕ
py = record {
  int = λ n. if n == 13 then raise Error.value_error else ok (pos n);
  float = λ n. ok n;
  bool = λ n. n == 1;
}

-- every key but "recv_ts"
abbrev object : Object ℕ
object Key.recv_ts = none
object Key.trade_ts = some 300_000_000_000_000
object Key.venue = some 5
object _ = some 7

parse_live_ticks_test :
    parse_live_ticks py (object ∷ [])
    ≡ ok (record {
      times = pos 300_000_000_000 ∷ [];
      syms = 7 ∷ [];
      venues = 5 ∷ [];
      trade_ids = pos 7 ∷ [];
      prices = 7 ∷ [];
      qtys = 7 ∷ [];
      event_times = pos 7 ∷ [];
      buyer_makers = false ∷ [];
    })
unfolding program
parse_live_ticks_test = refl

abbrev btc : ℕ
btc = 3

abbrev binance : ℕ
binance = 4

parsers_lem_example :
    (parse_rest_trades py (object ∷ object ∷ []) btc binance ≡ (do
      rows ← read_all (read_rest py) (object ∷ object ∷ [])
      ok (tick_columns (map (λ t. (btc, binance, t)) rows))))
    × (parse_live_ticks py (object ∷ object ∷ [])
        ≡ (do rows ← read_all (read_tick py) (object ∷ object ∷ []); ok (tick_columns rows)))
    × (parse_live_quotes py (object ∷ object ∷ [])
        ≡ (do rows ← read_all (read_quote py) (object ∷ object ∷ []); ok (quote_columns rows)))
parsers_lem_example = parsers_lem py (object ∷ object ∷ []) btc binance

abbrev raw : Raw ℕ ℕ
raw = record {
  symbol = 2;
  id = 40;
  price_text = 7;
  qty_text = 8;
  event = 1001;
  traded = 1000;
  maker = 1;
  price = 7;
  qty = 8;
}

abbrev message : Message ℕ
message Field.s = some 2
message Field.t = some 40
message Field.p = some 7
message Field.q = some 8
message Field.e_event = some 1001
message Field.t_trade = some 1000
message Field.m = some 1
message _ = none

parse_live_ticks-normalize_trade_example :
    (ns : List (Normalised ℕ ℕ)) × (read_all (normalize_trade py.float) (message ∷ []) ≡ ok ns)
    × (parse_live_ticks py (map (object_of py 5 (λ p. p) (λ n. n)) ns)
        ≡ (do rows ← read_all (row_of py 5 (λ p. p) (λ n. n)) (raw ∷ []); ok (tick_columns rows)))
parse_live_ticks-normalize_trade_example =
    parse_live_ticks-normalize_trade py 5 (λ p. p) (λ n. n) (λ p. refl) ((raw, message) ∷ [])
      ((refl, refl, refl, refl, refl, refl, refl, refl, refl), tt)
