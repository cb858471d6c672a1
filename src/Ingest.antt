-- ===== src/Ingest.antt =====
-- The ingest process: the symbols of ingest/src/config.py, and the dispatch of ingest/main.py over the
-- normalisers of ingest/src/normalisers/binance.py.
pub mod Symbols
pub mod Dispatch
pub mod Config
pub mod Instruments
mod Tests
use nano_tick.Base.{
  ℕ, ◌+◌, Bool, true, false, Option, none, some, List, [], ◌∷◌, ◌++◌, map, leb, ◌==◌, ◌&&◌, ◌||◌,
  if◌then◌else◌, Result, ok, raise, ◌>>=◌, Error,
}
use nano_tick.Base.Text.{Text, lstrip, rstrip, lower, same_text}

-- `raw.split(",")`: the first part, and the others
unfoldable pub split_comma : Text → Text × List Text
split_comma [] = ([], [])
split_comma (c ∷ cs) =
    let (part, parts) = split_comma cs in if c == 44 then ([], part ∷ parts) else (c ∷ part, parts)

-- the generator of `symbols`: the parts that are not blank, stripped and in lower case
unfoldable pub clean : List Text → List Text
unfolding lstrip rstrip lower
clean [] = []
clean (part ∷ parts) = elim (rstrip (lstrip part)) [
  | [] ↦ clean parts
  | c ∷ cs ↦ lower (c ∷ cs) ∷ clean parts
]

unfoldable pub symbols : Text → List Text
unfolding split_comma clean
symbols raw = let (part, parts) = split_comma raw in clean (part ∷ parts)

-- the fields of a Binance message that the normalisers read, by their one-letter names
pub data Field : Type 0 where
  s t p q e_event t_trade m u b b_qty a a_qty : Field

-- a JSON object over the values `V`, by its lookup
abbrev pub Message : Type 0 → Type 0
Message V = Field → Option V

-- `msg[...]`
abbrev pub get : {V : Type 0} → Message V → Field → Result V
get msg f = elim (msg f) [ none ↦ raise Error.key_error | some v ↦ ok v ]

-- what the normalisers return
pub data Normalised (V P : Type 0) : Type 0 where
  trade :
      (symbol trade_id : V) (price qty : P) (event_ts trade_ts is_buyer_maker : V) → Normalised V P
  quote : (symbol update_id : V) (bid bid_qty ask ask_qty : P) (recv_ts : ℕ) → Normalised V P

module _ {V P : Type 0} (float : V → Result P) where
  unfoldable pub normalize_trade : Message V → Result (Normalised V P)
  normalize_trade msg = do
    symbol ← get msg Field.s
    trade_id ← get msg Field.t
    price_text ← get msg Field.p
    price ← float price_text
    qty_text ← get msg Field.q
    qty ← float qty_text
    event_ts ← get msg Field.e_event
    trade_ts ← get msg Field.t_trade
    is_buyer_maker ← get msg Field.m
    ok (Normalised.trade symbol trade_id price qty event_ts trade_ts is_buyer_maker)

  -- `normalize_quote`, at the time `now` of the clock
  unfoldable pub normalize_quote : ℕ → Message V → Result (Normalised V P)
  normalize_quote now msg = do
    symbol ← get msg Field.s
    update_id ← get msg Field.u
    bid_text ← get msg Field.b
    bid ← float bid_text
    bid_qty_text ← get msg Field.b_qty
    bid_qty ← float bid_qty_text
    ask_text ← get msg Field.a
    ask ← float ask_text
    ask_qty_text ← get msg Field.a_qty
    ask_qty ← float ask_qty_text
    ok (Normalised.quote symbol update_id bid bid_qty ask ask_qty now)

-- `text.endswith(suffix)`
unfoldable pub ends_with : Text → Text → Bool
unfolding same_text
ends_with suffix [] = same_text [] suffix
ends_with suffix (c ∷ cs) = if same_text (c ∷ cs) suffix then true else ends_with suffix cs

-- "@trade" and "@bookTicker"
abbrev pub at_trade : Text
at_trade = 64 ∷ 116 ∷ 114 ∷ 97 ∷ 100 ∷ 101 ∷ []

abbrev pub at_book_ticker : Text
at_book_ticker = 64 ∷ 98 ∷ 111 ∷ 111 ∷ 107 ∷ 84 ∷ 105 ∷ 99 ∷ 107 ∷ 101 ∷ 114 ∷ []

-- A message of the combined stream: its stream and data, or `none` if one of them is missing.
abbrev pub Wrapped : Type 0 → Type 0
Wrapped V = Option (Text × Message V)

module _ {V P S : Type 0} (float : V → Result P) (now : ℕ)
    (send : Bool → Normalised V P → S → S) where
  -- the sink after a normalised message, under the root "ticks" (true) or "quotes" (false)
  unfoldable pub send_normalised : Bool → Result (Normalised V P) → S → S
  send_normalised root (ok n) sink = send root n sink
  send_normalised root (raise e) sink = sink

  -- The body of the loop of `run`. An exception is logged and the loop goes on; one that `send` raises
  -- leaves the sink as `send` has left it.
  unfoldable pub dispatch : Wrapped V → S → S
  unfolding send_normalised ends_with normalize_trade normalize_quote
  dispatch none sink = sink
  dispatch (some (stream, data_)) sink =
      if ends_with at_trade stream
      then send_normalised true (normalize_trade float data_) sink
      else if ends_with at_book_ticker stream
      then send_normalised false (normalize_quote float now data_) sink
      else sink

  unfoldable pub run : List (Wrapped V) → S → S
  unfolding dispatch
  run [] sink = sink
  run (w ∷ ws) sink = run ws (dispatch w sink)
