-- ===== src/Data/Rows.antt =====
-- The column chunks of resources/binance.py, row by row.
use nano_tick.Base.{
  read_all, ◌≡◌, refl, sym, ap, ◌∙◌, List, [], ◌∷◌, ◌++◌, map, append-nil, append_assoc, Result, ok,
  raise, ◌>>=◌,
}
use nano_tick.Data.{Trade, Columns, empty_cols, append_trade}
use nano_tick.Data.Live.{
  Object, Builtins, Quote, QuoteColumns, empty_quotes, append_quote, append_all, append_tick,
  read_tick, read_quote, parse_live_ticks, parse_live_quotes, read_rest, parse_rest_trades,
}

-- the columns of rows, each column on its own
abbrev pub tick_columns : {V P : Type 0} → List (V × V × Trade P) → Columns P V
tick_columns rows = record {
  times = map (λ r. r.2.time) rows;
  syms = map (λ r. r.0) rows;
  venues = map (λ r. r.1) rows;
  trade_ids = map (λ r. r.2.trade_id) rows;
  prices = map (λ r. r.2.price) rows;
  qtys = map (λ r. r.2.qty) rows;
  event_times = map (λ r. r.2.event_time) rows;
  buyer_makers = map (λ r. r.2.buyer_maker) rows;
}

abbrev pub quote_columns : {V P : Type 0} → List (Quote V P) → QuoteColumns V P
quote_columns rows = record {
  times = map (λ r. r.time) rows;
  syms = map (λ r. r.sym) rows;
  venues = map (λ r. r.venue) rows;
  update_ids = map (λ r. r.update_id) rows;
  bids = map (λ r. r.bid) rows;
  bid_sizes = map (λ r. r.bid_size) rows;
  asks = map (λ r. r.ask) rows;
  ask_sizes = map (λ r. r.ask_size) rows;
}

append_row-read_all :
    {B C : Type 0} (append : B → C → C) (join : C → List B → C)
    → ((b : B) (c : C) (rows : List B) → join (append b c) rows ≡ join c (b ∷ rows))
    → (first : Result B) (others : Result (List B)) (loop : C → Result C) (c : C)
    → ((c' : C) → loop c' ≡ (do rows ← others; ok (join c' rows)))
    → (do row ← first; loop (append row c))
      ≡ (do rows ← (do row ← first; others' ← others; ok (row ∷ others')); ok (join c rows))
append_row-read_all append join cons (raise e) others loop c h = refl
append_row-read_all append join cons (ok row) (raise e) loop c h = h (append row c)
append_row-read_all append join cons (ok row) (ok rows) loop c h =
    h (append row c) ∙ ap ok (cons row c rows)

-- A loop that appends each row could read all rows first.
append_all-read_all :
    {A B C : Type 0} (read : A → Result B) (append : B → C → C) (join : C → List B → C)
    → ((c : C) → join c [] ≡ c)
    → ((b : B) (c : C) (rows : List B) → join (append b c) rows ≡ join c (b ∷ rows))
    → (ts : List A) (c : C)
    → append_all read append ts c ≡ (do rows ← read_all read ts; ok (join c rows))
unfolding append_all
append_all-read_all read append join nil cons [] c = ap ok (sym (nil c))
append_all-read_all read append join nil cons (t ∷ ts) c =
    append_row-read_all append join cons (read t) (read_all read ts) (append_all read append ts) c
      (append_all-read_all read append join nil cons ts)

module _ {V P : Type 0} where
  abbrev join_ticks : Columns P V → Columns P V → Columns P V
  join_ticks c d = record {
    times = c.times ++ d.times;
    syms = c.syms ++ d.syms;
    venues = c.venues ++ d.venues;
    trade_ids = c.trade_ids ++ d.trade_ids;
    prices = c.prices ++ d.prices;
    qtys = c.qtys ++ d.qtys;
    event_times = c.event_times ++ d.event_times;
    buyer_makers = c.buyer_makers ++ d.buyer_makers;
  }

  append_tick-join :
      (c : Columns P V) (row : V × V × Trade P) (rows : List (V × V × Trade P))
      → join_ticks (append_tick row c) (tick_columns rows)
        ≡ join_ticks c (tick_columns (row ∷ rows))
  unfolding append_tick append_trade
  append_tick-join c (s, v, t) rows i = record {
    times = append_assoc c.times (t.time ∷ []) (map (λ r. r.2.time) rows) i;
    syms = append_assoc c.syms (s ∷ []) (map (λ r. r.0) rows) i;
    venues = append_assoc c.venues (v ∷ []) (map (λ r. r.1) rows) i;
    trade_ids = append_assoc c.trade_ids (t.trade_id ∷ []) (map (λ r. r.2.trade_id) rows) i;
    prices = append_assoc c.prices (t.price ∷ []) (map (λ r. r.2.price) rows) i;
    qtys = append_assoc c.qtys (t.qty ∷ []) (map (λ r. r.2.qty) rows) i;
    event_times = append_assoc c.event_times (t.event_time ∷ []) (map (λ r. r.2.event_time) rows) i;
    buyer_makers =
        append_assoc c.buyer_makers (t.buyer_maker ∷ []) (map (λ r. r.2.buyer_maker) rows) i;
  }

  join_ticks-nil : (c : Columns P V) → join_ticks c (tick_columns []) ≡ c
  join_ticks-nil c i = record {
    times = append-nil c.times i;
    syms = append-nil c.syms i;
    venues = append-nil c.venues i;
    trade_ids = append-nil c.trade_ids i;
    prices = append-nil c.prices i;
    qtys = append-nil c.qtys i;
    event_times = append-nil c.event_times i;
    buyer_makers = append-nil c.buyer_makers i;
  }

  abbrev join_quotes : QuoteColumns V P → QuoteColumns V P → QuoteColumns V P
  join_quotes c d = record {
    times = c.times ++ d.times;
    syms = c.syms ++ d.syms;
    venues = c.venues ++ d.venues;
    update_ids = c.update_ids ++ d.update_ids;
    bids = c.bids ++ d.bids;
    bid_sizes = c.bid_sizes ++ d.bid_sizes;
    asks = c.asks ++ d.asks;
    ask_sizes = c.ask_sizes ++ d.ask_sizes;
  }

  append_quote-join :
      (q : Quote V P) (c : QuoteColumns V P) (rows : List (Quote V P))
      → join_quotes (append_quote q c) (quote_columns rows)
        ≡ join_quotes c (quote_columns (q ∷ rows))
  unfolding append_quote
  append_quote-join q c rows i = record {
    times = append_assoc c.times (q.time ∷ []) (map (λ r. r.time) rows) i;
    syms = append_assoc c.syms (q.sym ∷ []) (map (λ r. r.sym) rows) i;
    venues = append_assoc c.venues (q.venue ∷ []) (map (λ r. r.venue) rows) i;
    update_ids = append_assoc c.update_ids (q.update_id ∷ []) (map (λ r. r.update_id) rows) i;
    bids = append_assoc c.bids (q.bid ∷ []) (map (λ r. r.bid) rows) i;
    bid_sizes = append_assoc c.bid_sizes (q.bid_size ∷ []) (map (λ r. r.bid_size) rows) i;
    asks = append_assoc c.asks (q.ask ∷ []) (map (λ r. r.ask) rows) i;
    ask_sizes = append_assoc c.ask_sizes (q.ask_size ∷ []) (map (λ r. r.ask_size) rows) i;
  }

  join_quotes-nil : (c : QuoteColumns V P) → join_quotes c (quote_columns []) ≡ c
  join_quotes-nil c i = record {
    times = append-nil c.times i;
    syms = append-nil c.syms i;
    venues = append-nil c.venues i;
    update_ids = append-nil c.update_ids i;
    bids = append-nil c.bids i;
    bid_sizes = append-nil c.bid_sizes i;
    asks = append-nil c.asks i;
    ask_sizes = append-nil c.ask_sizes i;
  }

  module _ (py : Builtins V P) where
    pub parse_live_ticks_lem :
        (ts : List (Object V))
        → parse_live_ticks py ts ≡ (do rows ← read_all (read_tick py) ts; ok (tick_columns rows))
    unfolding parse_live_ticks
    parse_live_ticks_lem ts =
        append_all-read_all (read_tick py) append_tick (λ c rows. join_ticks c (tick_columns rows))
          join_ticks-nil (λ row c rows. append_tick-join c row rows) ts empty_cols

    parse_live_quotes_lem :
        (qs : List (Object V))
        → parse_live_quotes py qs ≡ (do rows ← read_all (read_quote py) qs; ok (quote_columns rows))
    unfolding parse_live_quotes
    parse_live_quotes_lem qs =
        append_all-read_all (read_quote py) append_quote
          (λ c rows. join_quotes c (quote_columns rows)) join_quotes-nil append_quote-join qs
          empty_quotes

    parse_rest_trades_lem :
        (ts : List (Object V)) (s v : V)
        → parse_rest_trades py ts s v
          ≡ (do rows ← read_all (read_rest py) ts; ok (tick_columns (map (λ t. (s, v, t)) rows)))
    unfolding parse_rest_trades append_tick
    parse_rest_trades_lem ts s v =
        append_all-read_all (read_rest py) (append_trade s v)
          (λ c rows. join_ticks c (tick_columns (map (λ t. (s, v, t)) rows))) join_ticks-nil
          (λ row c rows. append_tick-join c (s, v, row) (map (λ t. (s, v, t)) rows)) ts empty_cols

    -- The three parsers return, for each column, what it takes from each object in their order, or the
    -- first exception that an object raises; a chunk over REST has one symbol and one venue for all rows.
    pub parsers_lem :
        (ts : List (Object V)) (s v : V)
        → (parse_rest_trades py ts s v
            ≡ (do rows ← read_all (read_rest py) ts; ok (tick_columns (map (λ t. (s, v, t)) rows))))
          × (parse_live_ticks py ts
              ≡ (do rows ← read_all (read_tick py) ts; ok (tick_columns rows)))
          × (parse_live_quotes py ts
              ≡ (do rows ← read_all (read_quote py) ts; ok (quote_columns rows)))
    parsers_lem ts s v =
        (parse_rest_trades_lem ts s v, parse_live_ticks_lem ts, parse_live_quotes_lem ts)
