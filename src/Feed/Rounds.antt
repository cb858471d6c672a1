-- ===== src/Feed/Rounds.antt =====
-- The rounds of the main loop of resources/feedhandler.py between two gaps: each takes a batch from
-- the queue and applies its trades and its quotes.
use nano_tick.Base.{
  ℕ, zero, suc, ◌≡◌, refl, ap, Option, List, [], ◌∷◌, ◌++◌, map, take, drop, Result, ok,
}
use nano_tick.Batch.Fresh.{dedup_all}
use nano_tick.Batch.Groups.{of_symbol}
use nano_tick.Roller.{Roller}
use nano_tick.Roller.Days.{Keeps}
use nano_tick.Feed.{
  Handler, Record, Wire, Bridging, last_of, drain_loop, drain, trades_of, quotes_of,
}
use nano_tick.Feed.Wiring.{View, Readable, ReadableQuote}

module _ {T Q : Type 0} where
  -- the batches that `n` rounds take from a queue
  unfoldable pub chunks : ℕ → List (Record T Q) → List (List (Record T Q))
  chunks zero queue = []
  chunks (suc n) queue = take 5000 queue ∷ chunks n (drop 5000 queue)

  drain_loop_lem :
      (room : ℕ) (queue : List (Record T Q))
      → drain_loop room queue ≡ (take room queue, drop room queue)
  unfolding drain_loop
  drain_loop_lem zero queue = refl
  drain_loop_lem (suc room) [] = refl
  drain_loop_lem (suc room) (r ∷ queue) = ap (λ p. (r ∷ p.0, p.1)) (drain_loop_lem room queue)

  pub drain_lem :
      (first : Record T Q) (queue : List (Record T Q))
      → drain 4999 first queue ≡ (take 5000 (first ∷ queue), drop 5000 (first ∷ queue))
  unfolding drain
  drain_lem first queue = ap (λ p. (first ∷ p.0, p.1)) (drain_loop_lem 4999 queue)

module _ {K T Q R S : Type 0} (w : Wire K T Q R S) (v : View K T Q R S) where
  -- A queued record has a symbol and a row.
  abbrev pub ReadableRecord : Record T Q → Type 0
  ReadableRecord (Record.trade t) = Readable w v t
  ReadableRecord (Record.quote q) = ReadableQuote w v q

module _ {K T Q R S : Type 0} (dec : Discrete K) (w : Wire K T Q R S) (v : View K T Q R S)
    (bridge : Bridging K R) where
  -- Of `h` the store, the last ids and the queue have changed, as the batches say: the rows of the
  -- records `more` and `more_quotes` are added, and of each symbol these and the last id are what the
  -- deduplication makes of its records, batch after batch.
  pub record Applied (batches : List (List (Record T Q))) (queue' : List (Record T Q))
      (h : Handler K T Q R S) (ts : List R) (qs : List S) (r : Result (Handler K T Q R S))
      : Type 0 where
    pub more : List T
    pub more_quotes : List Q
    pub roller' : Roller R S
    pub last' : List (K × Option ℕ)
    pub last_quote' : List (K × Option ℕ)
    pub day : ℕ
    pub ran :
        r
        ≡ ok (record h {
          queue = queue';
          roller = roller';
          last_id = last';
          last_quote_id = last_quote';
        })
    pub kept : Keeps roller' day (ts ++ map v.row more) (qs ++ map v.quote_row more_quotes)
    pub trades :
        (k : K)
        → (of_symbol dec v.symbol k more, last_of dec k last')
          ≡ dedup_all w.id
              (map (λ b. of_symbol dec v.symbol k (trades_of b)) batches)
              (last_of dec k h.last_id)
    pub quotes :
        (k : K)
        → (of_symbol dec v.quote_symbol k more_quotes, last_of dec k last_quote')
          ≡ dedup_all w.quote_id
              (map (λ b. of_symbol dec v.quote_symbol k (quotes_of b)) batches)
              (last_of dec k h.last_quote_id)
