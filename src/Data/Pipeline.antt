-- ===== src/Data/Pipeline.antt =====
-- A trade on its way from Binance to the store: ingest/src/normalisers/binance.py, the JSON object that
-- the broker carries, and `parse_live_ticks` of resources/binance.py.
use nano_tick.Base.{
  read_all, ℕ, ◌≡◌, refl, ap, ◌∙◌, none, some, List, [], ◌∷◌, map, Result, ok, raise, ◌>>=◌, All,
  Error,
}
use nano_tick.Ingest.{Field, Message, Normalised, get, normalize_trade}
use nano_tick.Data.{Trade, to_millis_ℤ}
use nano_tick.Data.Live.{Key, Object, Builtins, read_tick, parse_live_ticks}
use nano_tick.Data.Rows.{tick_columns, parse_live_ticks_lem}

-- a trade as Binance sends it, and the numbers that its texts show
pub record Raw (V P : Type 0) : Type 0 where
  pub symbol : V
  pub id : V
  pub price_text : V
  pub qty_text : V
  pub event : V
  pub traded : V
  pub maker : V
  pub price : P
  pub qty : P

get_lem : {V : Type 0} (msg : Message V) (f : Field) (v : V) → msg f ≡ some v → get msg f ≡ ok v
get_lem msg f v h = ap (λ o. elim o [ none ↦ raise Error.key_error | some v' ↦ ok v' ]) h

-- a step of a do block that returns
step_ok :
    {A B : Type 0} {a : A} (r : Result A) (f : A → Result B) (b : Result B)
    → r ≡ ok a
    → f a ≡ b
    → (do x ← r; f x) ≡ b
step_ok r f b h k = ap (λ r'. do x ← r'; f x) h ∙ k

module _ {V P : Type 0} (py : Builtins V P) (venue : V) (json : P → V) (stamp : ℕ → V) where
  -- the dict that the normalisers return, as JSON
  unfoldable pub object_of : Normalised V P → Object V
  object_of (Normalised.trade symbol id price qty event traded maker) Key.symbol = some symbol
  object_of (Normalised.trade symbol id price qty event traded maker) Key.venue = some venue
  object_of (Normalised.trade symbol id price qty event traded maker) Key.trade_id = some id
  object_of (Normalised.trade symbol id price qty event traded maker) Key.price = some (json price)
  object_of (Normalised.trade symbol id price qty event traded maker) Key.qty = some (json qty)
  object_of (Normalised.trade symbol id price qty event traded maker) Key.event_ts = some event
  object_of (Normalised.trade symbol id price qty event traded maker) Key.trade_ts = some traded
  object_of (Normalised.trade symbol id price qty event traded maker) Key.is_buyer_maker =
      some maker
  object_of (Normalised.trade symbol id price qty event traded maker) _ = none
  object_of (Normalised.quote symbol id bid bid_qty ask ask_qty now) Key.symbol = some symbol
  object_of (Normalised.quote symbol id bid bid_qty ask ask_qty now) Key.venue = some venue
  object_of (Normalised.quote symbol id bid bid_qty ask ask_qty now) Key.update_id = some id
  object_of (Normalised.quote symbol id bid bid_qty ask ask_qty now) Key.bid = some (json bid)
  object_of (Normalised.quote symbol id bid bid_qty ask ask_qty now) Key.bid_qty =
      some (json bid_qty)
  object_of (Normalised.quote symbol id bid bid_qty ask ask_qty now) Key.ask = some (json ask)
  object_of (Normalised.quote symbol id bid bid_qty ask ask_qty now) Key.ask_qty =
      some (json ask_qty)
  object_of (Normalised.quote symbol id bid bid_qty ask ask_qty now) Key.recv_ts = some (stamp now)
  object_of (Normalised.quote symbol id bid bid_qty ask ask_qty now) _ = none

  -- The message has the fields of the trade, and its texts show the numbers.
  abbrev pub Shows : Raw V P × Message V → Type 0
  Shows (raw, msg) =
      (msg Field.s ≡ some raw.symbol)
      × (msg Field.t ≡ some raw.id)
      × (msg Field.p ≡ some raw.price_text)
      × (msg Field.q ≡ some raw.qty_text)
      × (msg Field.e_event ≡ some raw.event)
      × (msg Field.t_trade ≡ some raw.traded)
      × (msg Field.m ≡ some raw.maker)
      × (py.float raw.price_text ≡ ok raw.price)
      × (py.float raw.qty_text ≡ ok raw.qty)

  abbrev pub normalised_of : Raw V P → Normalised V P
  normalised_of raw =
      Normalised.trade raw.symbol raw.id raw.price raw.qty raw.event raw.traded raw.maker

  -- the row of a trade: its integers are the only ones that may not be read
  abbrev pub row_of : Raw V P → Result (V × V × Trade P)
  row_of raw = do
    traded ← py.int raw.traded
    event ← py.int raw.event
    id ← py.int raw.id
    let row : Trade P = record {
      time = to_millis_ℤ traded;
      trade_id = id;
      price = raw.price;
      qty = raw.qty;
      event_time = to_millis_ℤ event;
      buyer_maker = py.bool raw.maker;
    }
    ok (raw.symbol, venue, row)

  normalize_trade-normalised_of :
      (raw : Raw V P) (msg : Message V)
      → Shows (raw, msg)
      → normalize_trade py.float msg ≡ ok (normalised_of raw)
  unfolding normalize_trade
  normalize_trade-normalised_of raw msg (s, t, p, q, e, tt', m, price, qty) =
      step_ok _ _ _ (get_lem msg Field.s raw.symbol s) (
        step_ok _ _ _ (get_lem msg Field.t raw.id t) (
          step_ok _ _ _ (get_lem msg Field.p raw.price_text p) (
            step_ok _ _ _ price (
              step_ok _ _ _ (get_lem msg Field.q raw.qty_text q) (
                step_ok _ _ _ qty (
                  step_ok _ _ _ (get_lem msg Field.e_event raw.event e) (
                    step_ok _ _ _ (get_lem msg Field.t_trade raw.traded tt')
                      (step_ok _ _ _ (get_lem msg Field.m raw.maker m) refl))))))))

  -- `float` of what `json.dumps` writes of a float is that float.
  abbrev pub IsExact : Type 0
  IsExact = (p : P) → py.float (json p) ≡ ok p

  read_tick-row_of :
      (raw : Raw V P) → IsExact → read_tick py (object_of (normalised_of raw)) ≡ row_of raw
  unfolding read_tick object_of
  read_tick-row_of raw exact = rw (exact raw.price, exact raw.qty) refl

  all_normalised :
      (l : List (Raw V P × Message V))
      → All Shows l
      → read_all (normalize_trade py.float) (map (λ p. p.1) l) ≡ ok (map (λ p. normalised_of p.0) l)
  all_normalised [] h = refl
  all_normalised ((raw, msg) ∷ l) h =
      step_ok _ _ _ (normalize_trade-normalised_of raw msg h.0)
        (step_ok _ _ _ (all_normalised l h.1) refl)

  all_read :
      IsExact
      → (l : List (Raw V P × Message V))
      → read_all (read_tick py) (map object_of (map (λ p. normalised_of p.0) l))
        ≡ read_all row_of (map (λ p. p.0) l)
  all_read exact [] = refl
  all_read exact ((raw, msg) ∷ l) =
      ap
        (λ r. do
          row ← r
          rows ← read_all (read_tick py) (map object_of (map (λ p. normalised_of p.0) l))
          ok (row ∷ rows))
        (read_tick-row_of raw exact)
      ∙ ap (λ rs. do row ← row_of raw; rows ← rs; ok (row ∷ rows)) (all_read exact l)

  -- Trades of Binance whose fields are there and whose texts are numbers are normalised, and if JSON
  -- carries floats exactly, what the store host makes of the normalised trades are the columns of these
  -- trades, each column in their order; or an exception, exactly if one of their ids and times is no
  -- integer.
  pub parse_live_ticks-normalize_trade :
      IsExact
      → (l : List (Raw V P × Message V)) → All Shows l
      → (ns : List (Normalised V P)) × (read_all (normalize_trade py.float) (map (λ p. p.1) l)
          ≡ ok ns)
        × (parse_live_ticks py (map object_of ns)
            ≡ (do rows ← read_all row_of (map (λ p. p.0) l); ok (tick_columns rows)))
  parse_live_ticks-normalize_trade exact l h =
      let ns = map (λ p. normalised_of p.0) l in
      (
        ns,
        all_normalised l h,
        parse_live_ticks_lem py (map object_of ns)
            ∙ ap (λ r. do rows ← r; ok (tick_columns rows)) (all_read exact l),
      )
