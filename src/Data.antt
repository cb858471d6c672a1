-- ===== src/Data.antt =====
-- resources/binance.py: the rows of the archive's CSV as column chunks. A cell is the list of its character codes, without the white space and underscores that
-- `int` allows within it. Numbers of `float` are any type `P` that `float` parses.
pub mod Checksum
pub mod Chunked
pub mod Live
pub mod Pipeline
pub mod Rows
mod LiveTests
mod Tests
use nano_tick.Base.{
  ℕ, zero, suc, ◌+◌, ◌-◌, ◌*◌, ◌/◌, Bool, true, false, Option, none, some, List, [], ◌∷◌, ◌++◌,
  length, ltb, leb, ◌==◌, ◌&&◌, ◌||◌, not, if◌then◌else◌, Result, ok, raise, ◌>>=◌, Error,
}
use nano_tick.Base.Text.{Text, is_space, lower, rstrip, lstrip, same_text}
use nano_tick.Base.Int.{ℤ, pos, negsuc}

-- `_to_millis`
unfoldable pub to_millis : ℕ → ℕ
to_millis ts = if ltb 100_000_000_000_000 ts then ts / 1_000 else ts

abbrev pub Cell : Type 0
Cell = Text

unfoldable pub is_digit : ℕ → Bool
is_digit c = leb 48 c && leb c 57

unfoldable pub all_digits : Cell → Bool
unfolding is_digit
all_digits [] = true
all_digits (c ∷ cs) = is_digit c && all_digits cs

-- `s.isdigit()`, of ASCII cells
unfoldable pub isdigit : Cell → Bool
unfolding all_digits
isdigit [] = false
isdigit (c ∷ cs) = all_digits (c ∷ cs)

-- `s.lstrip("-")`
unfoldable pub lstrip_minus : Cell → Cell
lstrip_minus [] = []
lstrip_minus (c ∷ cs) = let rest = lstrip_minus cs in if c == 45 then rest else c ∷ cs

unfoldable pub digits_value : ℕ → Cell → ℕ
digits_value n [] = n
digits_value n (c ∷ cs) = digits_value (n * 10 + (c - 48)) cs

unfoldable pub unsigned : Cell → Result ℕ
unfolding isdigit digits_value
unsigned cs = if isdigit cs then ok (digits_value 0 cs) else raise Error.value_error

abbrev pub minus : ℕ → ℤ
minus zero = pos 0
minus (suc n) = negsuc n

-- `int(s)`
unfoldable pub int : Cell → Result ℤ
unfolding unsigned
int [] = raise Error.value_error
int (c ∷ cs) =
    if c == 45
    then (do n ← unsigned cs; ok (minus n))
    else if c == 43
    then (do n ← unsigned cs; ok (pos n))
    else (do n ← unsigned (c ∷ cs); ok (pos n))

-- `row[i]`
unfoldable pub cell_at : ℕ → List Cell → Result Cell
cell_at i [] = raise Error.index_error
cell_at zero (c ∷ cs) = ok c
cell_at (suc i) (c ∷ cs) = cell_at i cs

-- `not row or not row[_ID].lstrip("-").isdigit()`: a blank line or the header
unfoldable pub is_skipped : List Cell → Bool
unfolding isdigit lstrip_minus
is_skipped [] = true
is_skipped (c ∷ cs) = not (isdigit (lstrip_minus c))

-- `cell.strip().lower() == "true"`
unfoldable pub is_true : Cell → Bool
unfolding lower rstrip lstrip same_text
is_true cell = same_text (lower (rstrip (lstrip cell))) (116 ∷ 114 ∷ 117 ∷ 101 ∷ [])

-- one trade in the layout of the schema; the venue and the symbol are the same for a whole chunk
pub record Trade (P : Type 0) : Type 0 where
  pub time : ℤ
  pub trade_id : ℤ
  pub price : P
  pub qty : P
  pub event_time : ℤ
  pub buyer_maker : Bool

-- the column chunk
pub record Columns (P S : Type 0) : Type 0 where
  pub times : List ℤ
  pub syms : List S
  pub venues : List S
  pub trade_ids : List ℤ
  pub prices : List P
  pub qtys : List P
  pub event_times : List ℤ
  pub buyer_makers : List Bool

-- `_to_millis` of a Python integer: a negative one is below the bound
unfoldable pub to_millis_ℤ : ℤ → ℤ
unfolding to_millis
to_millis_ℤ (pos n) = pos (to_millis n)
to_millis_ℤ (negsuc n) = negsuc n

-- `_empty_cols`
abbrev pub empty_cols : {P S : Type 0} → Columns P S
empty_cols = record {
  times = [];
  syms = [];
  venues = [];
  trade_ids = [];
  prices = [];
  qtys = [];
  event_times = [];
  buyer_makers = [];
}

module _ {P S : Type 0} where
  -- the `append`s of a loop body
  unfoldable pub append_trade : S → S → Trade P → Columns P S → Columns P S
  append_trade symbol venue t c = record {
    times = c.times ++ t.time ∷ [];
    syms = c.syms ++ symbol ∷ [];
    venues = c.venues ++ venue ∷ [];
    trade_ids = c.trade_ids ++ t.trade_id ∷ [];
    prices = c.prices ++ t.price ∷ [];
    qtys = c.qtys ++ t.qty ∷ [];
    event_times = c.event_times ++ t.event_time ∷ [];
    buyer_makers = c.buyer_makers ++ t.buyer_maker ∷ [];
  }

module _ {P : Type 0} (float : Cell → Result P) where
  -- the loop body of `iter_trade_chunks` before the chunk is full; `none` for a row that is skipped
  unfoldable pub parse_row : List Cell → Result (Option (Trade P))
  unfolding is_skipped cell_at int to_millis_ℤ is_true
  parse_row row = if is_skipped row then ok none else (do
    time_cell ← cell_at 4 row
    time ← int time_cell
    id_cell ← cell_at 0 row
    id ← int id_cell
    price_cell ← cell_at 1 row
    price ← float price_cell
    qty_cell ← cell_at 2 row
    qty ← float qty_cell
    maker_cell ← cell_at 5 row
    ok (
        some (record {
          time = to_millis_ℤ time;
          trade_id = id;
          price = price;
          qty = qty;
          event_time = to_millis_ℤ time;
          buyer_maker = is_true maker_cell;
        })))

module _ {P S : Type 0} (float : Cell → Result P) where
  -- The loop of `iter_trade_chunks`, with the columns so far and their count: what is yielded, and
  -- the exception that ends it, if one does.
  unfoldable pub chunk_rows :
      ℕ → S → S → List (List Cell) → Columns P S → ℕ → List (Columns P S) × Option Error
  unfolding parse_row append_trade
  chunk_rows size symbol venue [] cols n = if n == 0 then ([], none) else (cols ∷ [], none)
  chunk_rows size symbol venue (row ∷ rows) cols n = elim (parse_row float row) [
    | raise e ↦ ([], some e)
    | ok none ↦ chunk_rows size symbol venue rows cols n
    | ok (some t) ↦ elim (leb size (n + 1)) [
      | true ↦
          let (chunks, stop) = chunk_rows size symbol venue rows empty_cols 0 in
          (append_trade symbol venue t cols ∷ chunks, stop)
      | false ↦ chunk_rows size symbol venue rows (append_trade symbol venue t cols) (n + 1)
    ]
  ]

  -- `iter_trade_chunks`, over the rows of the one CSV file of the archive
  unfoldable pub iter_trade_chunks :
      ℕ → S → S → List (List (List Cell)) → List (Columns P S) × Option Error
  unfolding chunk_rows
  iter_trade_chunks size symbol venue [] = ([], some Error.value_error)
  iter_trade_chunks size symbol venue (rows ∷ []) = chunk_rows size symbol venue rows empty_cols 0
  iter_trade_chunks size symbol venue (rows ∷ other ∷ files) = ([], some Error.value_error)

-- The first word of a text, for `checksum_text.split()[0]`, of a text that does not start with a space.
unfoldable pub first_word : Text → Text
unfolding is_space
first_word [] = []
first_word (c ∷ cs) = let rest = first_word cs in if is_space c then [] else c ∷ rest

unfoldable pub split_first : Text → Result Text
split_first [] = raise Error.index_error
split_first (c ∷ cs) = ok (c ∷ cs)

-- `verify_checksum`, over `hashlib.sha256(...).hexdigest()`
unfoldable pub verify_checksum : {B : Type 0} → (B → Text) → B → Text → Result Bool
unfolding first_word split_first lstrip lower same_text
verify_checksum hexdigest zip text = do
  expected ← split_first (first_word (lstrip text))
  ok (same_text (hexdigest zip) (lower expected))
