-- ===== src/Roller/Days.antt =====
-- The rollover of resources/backfill.py over a live session: the day, and the rows in memory and on
-- disk; and a flush in the middle of a day.
use nano_tick.Base.{
  ℕ, ◌+◌, ◌≤◌, max, ◌≡◌, refl, ap, ◌∙◌, sym, none, some, List, [], ◌∷◌, ◌++◌, last?, arith, Result,
  ok, ◌>>=◌, Bool-cases, inl, inr, ltb, append_assoc, append-nil, tests,
}
use mathlib.Core.Path.{subst}
use nano_tick.Store.{Store, insert, insert_quote, savedown}
use nano_tick.Store.Rows.{
  all_rows, AllBefore, part_rows, save_table-all_rows, insert_raw-all_rows, save_table-rdb,
  save_table-twice,
}
use nano_tick.Roller.{
  Roller, Fed, utc_date, roll_from, roll, fed_trades, fed_quotes, feed, feed_quote, flush_day,
  flush,
}

-- a chunk that reaches the roller has one row at least
pub data Chunk (R Q : Type 0) : Type 0 where
  trades : R → List R → Chunk R Q
  quotes : Q → List Q → Chunk R Q

module _ {R Q : Type 0} where
  -- The roller is on `day`, nothing on disk is of this day or later, and the tables hold these rows.
  pub record Keeps (r : Roller R Q) (day : ℕ) (ts : List R) (qs : List Q) : Type 0 where
    pub on_day : r.current_day ≡ some day
    pub trade_before : AllBefore day r.store.trade
    pub quote_before : AllBefore day r.store.quote
    pub trade_rows : all_rows r.store.trade ≡ ts
    pub quote_rows : all_rows r.store.quote ≡ qs

  -- The day moves forward or stays, and nothing is lost.
  roll_from-Keeps :
      (current day : ℕ) (r : Roller R Q) (ts : List R) (qs : List Q)
      → Keeps r current ts qs
      → Keeps (roll_from (some current) day r).0 (max current day) ts qs
  unfolding roll_from savedown
  roll_from-Keeps current day r ts qs k = elim (Bool-cases (ltb current day)) [
    | inl later ↦
        let e : max current day ≡ day = omega tests in
        let (t_rows, t_before) =
          save_table-all_rows current day r.store.trade k.trade_before (omega tests) in
        let (q_rows, q_before) =
          save_table-all_rows current day r.store.quote k.quote_before (omega tests) in
        rw (later, e)
          (record {
            on_day = refl;
            trade_before = t_before;
            quote_before = q_before;
            trade_rows = t_rows ∙ k.trade_rows;
            quote_rows = q_rows ∙ k.quote_rows;
          })
    | inr same ↦ let e : max current day ≡ current = omega tests in rw (same, e) k
  ]

  roll-Keeps :
      (current day : ℕ) (r : Roller R Q) (ts : List R) (qs : List Q)
      → Keeps r current ts qs
      → Keeps (roll day r).0 (max current day) ts qs
  unfolding roll
  roll-Keeps current day r ts qs k =
      subst (λ o. Keeps (roll_from o day r).0 (max current day) ts qs) (sym k.on_day)
        (roll_from-Keeps current day r ts qs k)

last?-cons : {A : Type 0} (x : A) (xs : List A) → (y : A) × (last? (x ∷ xs) ≡ some y)
last?-cons x [] = (x, refl)
last?-cons x (y ∷ xs) = last?-cons y xs

module _ {R Q : Type 0} where
  -- A flush ends the session with an empty RDB and no current day; it reports the day, and every
  -- row that was in memory is on disk.
  pub flush-Keeps :
      (day : ℕ) (r : Roller R Q) (ts : List R) (qs : List Q)
      → Keeps r day ts qs
      → ((flush r).1 ≡ some day)
        × ((flush r).0.current_day ≡ none)
        × ((flush r).0.store.trade.rdb ≡ [])
        × ((flush r).0.store.quote.rdb ≡ [])
        × (all_rows (flush r).0.store.trade ≡ ts)
        × (all_rows (flush r).0.store.quote ≡ qs)
  unfolding flush flush_day savedown
  flush-Keeps day r ts qs k =
      let t = save_table-all_rows day (day + 1) r.store.trade k.trade_before (omega arith) in
      let q = save_table-all_rows day (day + 1) r.store.quote k.quote_before (omega arith) in
      subst
        (λ o.
          ((flush_day o r).1 ≡ some day)
          × ((flush_day o r).0.current_day ≡ none)
          × ((flush_day o r).0.store.trade.rdb ≡ [])
          × ((flush_day o r).0.store.quote.rdb ≡ [])
          × (all_rows (flush_day o r).0.store.trade ≡ ts)
          × (all_rows (flush_day o r).0.store.quote ≡ qs))
        (sym k.on_day)
        (
          refl,
          refl,
          save_table-rdb day r.store.trade,
          save_table-rdb day r.store.quote,
          t.0 ∙ k.trade_rows,
          q.0 ∙ k.quote_rows,
        )

module _ {R Q : Type 0} (time : R → ℕ) (quote_time : Q → ℕ) where
  -- the chunks of a live session, one after the other
  unfoldable pub feed_all : List (Chunk R Q) → Roller R Q → Result (Roller R Q)
  feed_all [] r = ok r
  feed_all (Chunk.trades row rows ∷ chunks) r = do
    (r', _) ← feed time (row ∷ rows) r
    feed_all chunks r'
  feed_all (Chunk.quotes row rows ∷ chunks) r = do
    (r', _) ← feed_quote quote_time (row ∷ rows) r
    feed_all chunks r'

  abbrev pub trade_rows_of : List (Chunk R Q) → List R
  trade_rows_of [] = []
  trade_rows_of (Chunk.trades row rows ∷ chunks) = (row ∷ rows) ++ trade_rows_of chunks
  trade_rows_of (Chunk.quotes row rows ∷ chunks) = trade_rows_of chunks

  abbrev pub quote_rows_of : List (Chunk R Q) → List Q
  quote_rows_of [] = []
  quote_rows_of (Chunk.trades row rows ∷ chunks) = quote_rows_of chunks
  quote_rows_of (Chunk.quotes row rows ∷ chunks) = (row ∷ rows) ++ quote_rows_of chunks

  pub feed-Keeps :
      (current : ℕ) (row : R) (rows : List R) (r : Roller R Q) (ts : List R) (qs : List Q)
      → Keeps r current ts qs
      → (r' : Roller R Q) × (fed : Fed) × (day : ℕ) × (feed time (row ∷ rows) r ≡ ok (r', fed))
        × (current ≤ day)
        × Keeps r' day (ts ++ row ∷ rows) qs
  unfolding feed fed_trades insert
  feed-Keeps current row rows r ts qs k =
      let (x, e) = last?-cons row rows in
      let day = utc_date (time x) in
      let rolled = (roll day r).0 in
      let k' = roll-Keeps current day r ts qs k in
      let done = fed_trades (row ∷ rows) (roll day r) in
      (
        done.0,
        done.1,
        max current day,
        rw (e, feed),
        omega arith,
        record {
          on_day = k'.on_day;
          trade_before = k'.trade_before;
          quote_before = k'.quote_before;
          trade_rows =
              insert_raw-all_rows (row ∷ rows) rolled.store.trade
              ∙ ap (λ l. l ++ row ∷ rows) k'.trade_rows;
          quote_rows = k'.quote_rows;
        },
      )

  pub feed_quote-Keeps :
      (current : ℕ) (row : Q) (rows : List Q) (r : Roller R Q) (ts : List R) (qs : List Q)
      → Keeps r current ts qs
      → (r' : Roller R Q) × (fed : Fed) × (day : ℕ) × (feed_quote quote_time (row ∷ rows) r
          ≡ ok (r', fed))
        × (current ≤ day)
        × Keeps r' day ts (qs ++ row ∷ rows)
  unfolding feed_quote fed_quotes insert_quote
  feed_quote-Keeps current row rows r ts qs k =
      let (x, e) = last?-cons row rows in
      let day = utc_date (quote_time x) in
      let rolled = (roll day r).0 in
      let k' = roll-Keeps current day r ts qs k in
      let done = fed_quotes (row ∷ rows) (roll day r) in
      (
        done.0,
        done.1,
        max current day,
        rw (e, feed_quote),
        omega arith,
        record {
          on_day = k'.on_day;
          trade_before = k'.trade_before;
          quote_before = k'.quote_before;
          trade_rows = k'.trade_rows;
          quote_rows =
              insert_raw-all_rows (row ∷ rows) rolled.store.quote
              ∙ ap (λ l. l ++ row ∷ rows) k'.quote_rows;
        },
      )

  -- A live session from a day of which, and of any later one, nothing is on disk: no chunk raises,
  -- the day never moves back, and the tables hold, in memory and on disk together, what they held
  -- and then every row that was fed, in order.
  pub feed_all-Keeps :
      (chunks : List (Chunk R Q)) (current : ℕ) (r : Roller R Q) (ts : List R) (qs : List Q)
      → Keeps r current ts qs
      → (r' : Roller R Q) × (day : ℕ) × (feed_all chunks r ≡ ok r')
        × (current ≤ day)
        × Keeps r' day (ts ++ trade_rows_of chunks) (qs ++ quote_rows_of chunks)
  unfolding feed_all
  feed_all-Keeps [] current r ts qs k =
      (r, current, refl, omega arith, rw (append-nil ts, append-nil qs) k)
  feed_all-Keeps (Chunk.trades row rows ∷ chunks) current r ts qs k =
      let (r₁, fed, day, run, up, k₁) = feed-Keeps current row rows r ts qs k in
      let (r', last, run', up', k') = feed_all-Keeps chunks day r₁ (ts ++ row ∷ rows) qs k₁ in
      (
        r',
        last,
        rw run run',
        omega arith,
        rw (← append_assoc ts (row ∷ rows) (trade_rows_of chunks)) k',
      )
  feed_all-Keeps (Chunk.quotes row rows ∷ chunks) current r ts qs k =
      let (r₁, fed, day, run, up, k₁) = feed_quote-Keeps current row rows r ts qs k in
      let (r', last, run', up', k') = feed_all-Keeps chunks day r₁ ts (qs ++ row ∷ rows) k₁ in
      (
        r',
        last,
        rw run run',
        omega arith,
        rw (← append_assoc qs (row ∷ rows) (quote_rows_of chunks)) k',
      )

  -- A flush in the middle of a day of which, and of any later one, nothing was on disk, as at a
  -- restart, and then more trades of the same day: the next savedown of the day overwrites the
  -- partition, and the trades from before the flush are gone.
  pub restart_overwrites :
      (r : Roller R Q) (x y z : R) (xs ys : List R)
      → last? (y ∷ ys) ≡ some z
      → r.current_day ≡ some (utc_date (time z))
      → AllBefore (utc_date (time z)) r.store.trade
      → r.store.trade.rdb ≡ x ∷ xs
      → (r' : Roller R Q) × ((do (again, _) ← feed time (y ∷ ys) (flush r).0; ok (flush again).0)
          ≡ ok r')
        × (all_rows r'.store.trade ≡ part_rows r.store.trade.parts ++ y ∷ ys)
  unfolding flush flush_day savedown feed roll roll_from fed_trades insert
  restart_overwrites r x y z xs ys last on before buffered =
      let day = utc_date (time z) in
      let again : Store R Q = (insert (y ∷ ys) (savedown day r.store)).0 in
      (
        record { store = savedown day again; current_day = none },
        subst
            (λ o.
              (do (again, _) ← feed time (y ∷ ys) (flush_day o r).0; ok (flush again).0)
              ≡ ok (record { store = savedown day again; current_day = none }))
            (sym on) (rw (last, feed)),
        save_table-twice day r.store.trade x y xs ys buffered before,
      )
