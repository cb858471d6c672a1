-- ===== src/Feed.antt =====
-- `FeedHandler` of resources/feedhandler.py: the paho callbacks that fill the queue, and the main
-- thread that drains it. A trade `T` and a quote `Q` are payloads that `_on_message` accepts: any types
-- that show their id, a number as the normalisers publish it. Their symbol and their row, of types `R`
-- and `S`, may be missing, which raises where the code reads them. The REST bridge is the
-- parameter `Bridging`; its model is in nano_tick.Bridge.
pub mod Admitted
pub mod Apply
pub mod Gap
pub mod Queue
pub mod Run
pub mod Wiring
pub mod Quotes
pub mod Rounds
pub mod Shutdown
mod Tests
use nano_tick.Base.{
  ℕ, zero, suc, ◌+◌, ◌<◌, ◌≡◌, Bool, true, false, Option, none, some, List, [], ◌∷◌, ◌++◌, length,
  ltb, min, if◌then◌else◌, Result, ok, raise, ◌>>=◌, read_all,
}
use nano_tick.Base.Dict.{lookup, insert}
use mathlib.Core.Logic.{ite}
use nano_tick.Batch.{is_new, dedup, by_symbol}
use nano_tick.Store.{Table, Store, max_stored}
use nano_tick.Roller.{Roller, feed, feed_quote, flush}

abbrev pub queue_maxsize : ℕ
queue_maxsize = 200_000

abbrev pub batch_max : ℕ
batch_max = 5_000

-- a queued (kind, payload) pair
pub data Record (T Q : Type 0) : Type 0 where
  trade : T → Record T Q
  quote : Q → Record T Q

pub record Handler (K T Q R S : Type 0) : Type 0 where
  pub roller : Roller R S
  pub queue : List (Record T Q)
  pub last_id : List (K × Option ℕ)
  pub last_quote_id : List (K × Option ℕ)
  pub pending_rebridge : List K
  pub dropped : ℕ
  pub stop : Bool
  pub connected_once : Bool

-- `backfill.bridge` for a symbol, up to a target: the trade table that it leaves
abbrev pub Bridging : Type 0 → Type 0 → Type 0
Bridging K R = K → Option ℕ → Table R → Result (Table R)

module _ {K T Q R S : Type 0} where
  -- `_on_connect`, over the instruments of the configuration
  unfoldable pub on_connect : List K → Handler K T Q R S → Handler K T Q R S
  on_connect symbols h =
      if h.connected_once
      then record h { pending_rebridge = symbols }
      else record h { connected_once = true }

  -- the end of `_on_message`: `put_nowait` on a queue that may be full
  unfoldable pub put : Record T Q → Handler K T Q R S → Handler K T Q R S
  put r h =
      if ltb (length h.queue) queue_maxsize
      then record h { queue = h.queue ++ r ∷ [] }
      else record h { dropped = h.dropped + 1 }

  -- `_on_message`: `none` is a message that one of the caught exceptions rejects
  unfoldable pub on_message : Option (Record T Q) → Handler K T Q R S → Handler K T Q R S
  unfolding put
  on_message none h = h
  on_message (some r) h = put r h

module _ {T Q : Type 0} where
  -- the loop of `_drain`, with `room` for so many more
  unfoldable pub drain_loop : ℕ → List (Record T Q) → List (Record T Q) × List (Record T Q)
  drain_loop zero queue = ([], queue)
  drain_loop (suc room) [] = ([], [])
  drain_loop (suc room) (r ∷ queue) = let (batch, rest) = drain_loop room queue in (r ∷ batch, rest)

  -- `_drain`
  unfoldable pub drain : ℕ → Record T Q → List (Record T Q) → List (Record T Q) × List (Record T Q)
  unfolding drain_loop
  drain room first queue = let (batch, rest) = drain_loop room queue in (first ∷ batch, rest)

  unfoldable pub trades_of : List (Record T Q) → List T
  trades_of [] = []
  trades_of (Record.trade t ∷ batch) = t ∷ trades_of batch
  trades_of (Record.quote q ∷ batch) = trades_of batch

  unfoldable pub quotes_of : List (Record T Q) → List Q
  quotes_of [] = []
  quotes_of (Record.trade t ∷ batch) = quotes_of batch
  quotes_of (Record.quote q ∷ batch) = q ∷ quotes_of batch

abbrev pub join : Option (Option ℕ) → Option ℕ
join none = none
join (some last) = last

module _ {K : Type 0} (dec : Discrete K) where
  -- `self._last_id.get(sym)`: a missing key and a stored `None` read alike
  unfoldable pub last_of : K → List (K × Option ℕ) → Option ℕ
  unfolding lookup
  last_of k d = join (lookup dec k d)

  -- `sym in self._pending_rebridge`, and `discard`
  unfoldable pub is_pending : K → List K → Bool
  is_pending k [] = false
  is_pending k (j ∷ js) = ite (dec j k) true (is_pending k js)

  unfoldable pub discard : K → List K → List K
  discard k [] = []
  discard k (j ∷ js) = ite (dec j k) (discard k js) (j ∷ discard k js)

-- the least of a number and of what may be another
unfoldable pub least : ℕ → Option ℕ → Option ℕ
least n none = some n
least n (some m) = some (min n m)

-- `min` of the ids that are above the last one, if there is any
unfoldable pub first_new : {T : Type 0} → (T → ℕ) → Option ℕ → List T → Option ℕ
unfolding least
first_new id last [] = none
first_new id last (t ∷ ts) =
    let rest = first_new id last ts in if is_new id last t then least (id t) rest else rest

-- What the records and the rows show, and how a record becomes a row: `it["symbol"]`, and a row of
-- `parse_live_ticks` or `parse_live_quotes`, may raise.
pub record Wire (K T Q R S : Type 0) : Type 0 where
  pub symbol : T → Result K
  pub id : T → ℕ
  pub row : T → Result R
  pub quote_symbol : Q → Result K
  pub quote_id : Q → ℕ
  pub quote_row : Q → Result S
  pub row_symbol : R → K
  pub row_id : R → ℕ
  pub row_time : R → ℕ
  pub quote_row_symbol : S → K
  pub quote_row_id : S → ℕ
  pub quote_row_time : S → ℕ

module _ {K T Q R S : Type 0} (dec : Discrete K) (w : Wire K T Q R S) (bridge : Bridging K R) where
  -- the bridge of a gap, and the last id read back from the store
  unfoldable pub close_gap : K → ℕ → Handler K T Q R S → Result (Handler K T Q R S)
  close_gap k target h = do
    table ← bridge k (some target) h.roller.store.trade
    ok (record h {
      roller = record h.roller { store = record h.roller.store { trade = table } };
      last_id = insert dec k (max_stored dec w.row_symbol w.row_id k table) h.last_id;
    })

  unfoldable pub rebridge_from :
      K → Option ℕ → Option ℕ → Handler K T Q R S → Result (Handler K T Q R S)
  unfolding close_gap
  rebridge_from k last none h = ok h
  rebridge_from k none (some first) h =
      ok (record h { pending_rebridge = discard dec k h.pending_rebridge })
  rebridge_from k (some last) (some first) h = do
    h' ← (if ltb (last + 1) first then close_gap k first h else ok h)
    ok (record h' { pending_rebridge = discard dec k h'.pending_rebridge })

  -- `_maybe_rebridge`
  unfoldable pub maybe_rebridge : K → List T → Handler K T Q R S → Result (Handler K T Q R S)
  unfolding rebridge_from
  maybe_rebridge k trades h =
      let last = last_of dec k h.last_id in rebridge_from k last (first_new w.id last trades) h

  -- the `if fresh` of `_apply_trades`, after `_last_id` has moved
  unfoldable pub feed_fresh : List T → Handler K T Q R S → Result (Handler K T Q R S × ℕ)
  feed_fresh [] h = ok (h, 0)
  feed_fresh (t ∷ ts) h = do
    rows ← read_all w.row (t ∷ ts)
    (roller, _) ← feed w.row_time rows h.roller
    ok (record h { roller = roller }, length (t ∷ ts))

  -- the body of the loop of `_apply_trades`
  unfoldable pub apply_group : K → List T → Handler K T Q R S → Result (Handler K T Q R S × ℕ)
  unfolding feed_fresh maybe_rebridge
  apply_group k group h = do
    h₁ ← (if is_pending dec k h.pending_rebridge then maybe_rebridge k group h else ok h)
    let (fresh, last) = dedup w.id group (last_of dec k h₁.last_id)
    feed_fresh fresh (record h₁ { last_id = insert dec k last h₁.last_id })

  unfoldable pub apply_groups :
      List (K × List T) → Handler K T Q R S → Result (Handler K T Q R S × ℕ)
  unfolding apply_group
  apply_groups [] h = ok (h, 0)
  apply_groups ((k, group) ∷ groups) h = do
    (h₁, n) ← apply_group k group h
    (h₂, total) ← apply_groups groups h₁
    ok (h₂, n + total)

  -- `_apply_trades`
  unfoldable pub apply_trades : List T → Handler K T Q R S → Result (Handler K T Q R S × ℕ)
  unfolding apply_groups
  apply_trades trades h = do groups ← by_symbol dec w.symbol trades; apply_groups groups h

  unfoldable pub feed_fresh_quotes : List Q → Handler K T Q R S → Result (Handler K T Q R S × ℕ)
  feed_fresh_quotes [] h = ok (h, 0)
  feed_fresh_quotes (q ∷ qs) h = do
    rows ← read_all w.quote_row (q ∷ qs)
    (roller, _) ← feed_quote w.quote_row_time rows h.roller
    ok (record h { roller = roller }, length (q ∷ qs))

  unfoldable pub apply_quote_groups :
      List (K × List Q) → Handler K T Q R S → Result (Handler K T Q R S × ℕ)
  unfolding feed_fresh_quotes
  apply_quote_groups [] h = ok (h, 0)
  apply_quote_groups ((k, group) ∷ groups) h = do
    let (fresh, last) = dedup w.quote_id group (last_of dec k h.last_quote_id)
    (h₁, n) ←
        feed_fresh_quotes fresh (record h { last_quote_id = insert dec k last h.last_quote_id })
    (h₂, total) ← apply_quote_groups groups h₁
    ok (h₂, n + total)

  -- `_apply_quotes`
  unfoldable pub apply_quotes : List Q → Handler K T Q R S → Result (Handler K T Q R S × ℕ)
  unfolding apply_quote_groups
  apply_quotes quotes h = do
    groups ← by_symbol dec w.quote_symbol quotes
    apply_quote_groups groups h

  -- one round of the loop of `run` in which the queue is not empty
  unfoldable pub round_with : List (Record T Q) → Handler K T Q R S → Result (Handler K T Q R S)
  unfolding apply_trades apply_quotes
  round_with [] h = ok h
  round_with (first ∷ queue) h = do
    let (batch, rest) = drain 4_999 first queue
    (h₁, _) ← apply_trades (trades_of batch) (record h { queue = rest })
    (h₂, _) ← apply_quotes (quotes_of batch) h₁
    ok h₂

  unfoldable pub round : Handler K T Q R S → Result (Handler K T Q R S)
  unfolding round_with
  round h = round_with h.queue h

  -- The start of `run`: each instrument is bridged to the tip, and its last ids are read back.
  unfoldable pub start_symbol : K → Handler K T Q R S → Result (Handler K T Q R S)
  start_symbol k h = do
    table ← bridge k none h.roller.store.trade
    let last = max_stored dec w.row_symbol w.row_id k table
    let last_quote = max_stored dec w.quote_row_symbol w.quote_row_id k h.roller.store.quote
    ok (record h {
      roller = record h.roller { store = record h.roller.store { trade = table } };
      last_id = insert dec k last h.last_id;
      last_quote_id = insert dec k last_quote h.last_quote_id;
    })

  unfoldable pub start_symbols : List K → Handler K T Q R S → Result (Handler K T Q R S)
  unfolding start_symbol
  start_symbols [] h = ok h
  start_symbols (k ∷ ks) h = do h' ← start_symbol k h; start_symbols ks h'

  unfoldable pub start : List K → Handler K T Q R S → Result (Handler K T Q R S)
  unfolding start_symbols
  start symbols h = do h' ← start_symbols symbols h; ok (record h' { pending_rebridge = symbols })

-- `_request_stop` and `_shutdown`
module _ {K T Q R S : Type 0} where
  unfoldable pub request_stop : Handler K T Q R S → Handler K T Q R S
  request_stop h = record h { stop = true }

  unfoldable pub shutdown : Handler K T Q R S → Handler K T Q R S
  shutdown h = record h { roller = (flush h.roller).0 }
