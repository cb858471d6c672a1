-- ===== src/Data/Live.antt =====
-- resources/binance.py: the JSON objects of the REST API and of the live feed as column chunks. A JSON
-- value is any type, with what Python's `int`, `float` and `bool` make of it.
use nano_tick.Base.{Bool, Option, none, some, List, [], ◌∷◌, ◌++◌, Result, ok, raise, ◌>>=◌, Error}
use nano_tick.Base.Int.{ℤ}
use nano_tick.Data.{Trade, Columns, to_millis_ℤ, empty_cols, append_trade}

-- the keys that the three functions read
pub data Key : Type 0 where
  time id price qty is_buyer_maker_rest : Key
  trade_ts event_ts symbol venue trade_id is_buyer_maker : Key
  recv_ts update_id bid bid_qty ask ask_qty : Key

pub record Builtins (V P : Type 0) : Type 0 where
  pub int : V → Result ℤ
  pub float : V → Result P
  pub bool : V → Bool

abbrev pub Object : Type 0 → Type 0
Object V = Key → Option V

-- `t[...]`
abbrev pub at_key : {V : Type 0} → Object V → Key → Result V
at_key t k = elim (t k) [ none ↦ raise Error.key_error | some v ↦ ok v ]

-- one quote in the layout of the schema
pub record Quote (V P : Type 0) : Type 0 where
  pub time : ℤ
  pub sym : V
  pub venue : V
  pub update_id : ℤ
  pub bid : P
  pub bid_size : P
  pub ask : P
  pub ask_size : P

-- the column chunk of quotes
pub record QuoteColumns (V P : Type 0) : Type 0 where
  pub times : List ℤ
  pub syms : List V
  pub venues : List V
  pub update_ids : List ℤ
  pub bids : List P
  pub bid_sizes : List P
  pub asks : List P
  pub ask_sizes : List P

abbrev pub empty_quotes : {V P : Type 0} → QuoteColumns V P
empty_quotes = record {
  times = [];
  syms = [];
  venues = [];
  update_ids = [];
  bids = [];
  bid_sizes = [];
  asks = [];
  ask_sizes = [];
}

unfoldable pub append_quote : {V P : Type 0} → Quote V P → QuoteColumns V P → QuoteColumns V P
append_quote q c = record {
  times = c.times ++ q.time ∷ [];
  syms = c.syms ++ q.sym ∷ [];
  venues = c.venues ++ q.venue ∷ [];
  update_ids = c.update_ids ++ q.update_id ∷ [];
  bids = c.bids ++ q.bid ∷ [];
  bid_sizes = c.bid_sizes ++ q.bid_size ∷ [];
  asks = c.asks ++ q.ask ∷ [];
  ask_sizes = c.ask_sizes ++ q.ask_size ∷ [];
}

-- a loop that reads each object and appends it to the columns
unfoldable pub append_all : {A B C : Type 0} → (A → Result B) → (B → C → C) → List A → C → Result C
append_all read append [] cols = ok cols
append_all read append (t ∷ ts) cols = do row ← read t; append_all read append ts (append row cols)

-- the `append`s of `parse_live_ticks`
unfoldable pub append_tick : {V P : Type 0} → V × V × Trade P → Columns P V → Columns P V
unfolding append_trade
append_tick (symbol_, venue_, row) cols = append_trade symbol_ venue_ row cols

module _ {V P : Type 0} (py : Builtins V P) where
  -- the loop body of `parse_rest_trades`, before its `append`s
  unfoldable pub read_rest : Object V → Result (Trade P)
  unfolding to_millis_ℤ
  read_rest t = do
    time_value ← at_key t Key.time
    time_ ← py.int time_value
    id_value ← at_key t Key.id
    id_ ← py.int id_value
    price_value ← at_key t Key.price
    price_ ← py.float price_value
    qty_value ← at_key t Key.qty
    qty_ ← py.float qty_value
    maker ← at_key t Key.is_buyer_maker_rest
    ok (record {
      time = to_millis_ℤ time_;
      trade_id = id_;
      price = price_;
      qty = qty_;
      event_time = to_millis_ℤ time_;
      buyer_maker = py.bool maker;
    })

  unfoldable pub parse_rest_trades : {S : Type 0} → List (Object V) → S → S → Result (Columns P S)
  unfolding append_all read_rest append_trade
  parse_rest_trades trades symbol_ venue_ =
      append_all read_rest (append_trade symbol_ venue_) trades empty_cols

  -- the loop body of `parse_live_ticks`: the symbol, the venue and the rest of the row
  unfoldable pub read_tick : Object V → Result (V × V × Trade P)
  unfolding to_millis_ℤ
  read_tick t = do
    time_value ← at_key t Key.trade_ts
    time_ ← py.int time_value
    event_value ← at_key t Key.event_ts
    event ← py.int event_value
    symbol_ ← at_key t Key.symbol
    venue_ ← at_key t Key.venue
    id_value ← at_key t Key.trade_id
    id_ ← py.int id_value
    price_value ← at_key t Key.price
    price_ ← py.float price_value
    qty_value ← at_key t Key.qty
    qty_ ← py.float qty_value
    maker ← at_key t Key.is_buyer_maker
    let row : Trade P = record {
      time = to_millis_ℤ time_;
      trade_id = id_;
      price = price_;
      qty = qty_;
      event_time = to_millis_ℤ event;
      buyer_maker = py.bool maker;
    }
    ok (symbol_, venue_, row)

  unfoldable pub parse_live_ticks : List (Object V) → Result (Columns P V)
  unfolding append_all read_tick append_tick
  parse_live_ticks ticks = append_all read_tick append_tick ticks empty_cols

  -- the loop body of `parse_live_quotes`
  unfoldable pub read_quote : Object V → Result (Quote V P)
  unfolding to_millis_ℤ
  read_quote q = do
    time_value ← at_key q Key.recv_ts
    time_ ← py.int time_value
    symbol_ ← at_key q Key.symbol
    venue_ ← at_key q Key.venue
    id_value ← at_key q Key.update_id
    id_ ← py.int id_value
    bid_value ← at_key q Key.bid
    bid_ ← py.float bid_value
    bid_size_value ← at_key q Key.bid_qty
    bid_size_ ← py.float bid_size_value
    ask_value ← at_key q Key.ask
    ask_ ← py.float ask_value
    ask_size_value ← at_key q Key.ask_qty
    ask_size_ ← py.float ask_size_value
    ok (record {
      time = to_millis_ℤ time_;
      sym = symbol_;
      venue = venue_;
      update_id = id_;
      bid = bid_;
      bid_size = bid_size_;
      ask = ask_;
      ask_size = ask_size_;
    })

  unfoldable pub parse_live_quotes : List (Object V) → Result (QuoteColumns V P)
  unfolding append_all read_quote append_quote
  parse_live_quotes quotes = append_all read_quote append_quote quotes empty_quotes
