-- ===== src/Data/Tests.antt =====
-- Runs of resources/binance.py, and its theorems at a concrete file. `float` reads the digits.
use nano_tick.Base.{
  ◌++◌, concat, ℕ, ◌≡◌, refl, true, none, some, List, [], ◌∷◌, map, ok, raise, Error, inl, inr,
  arith,
}
use nano_tick.Base.Int.{pos, negsuc}
use nano_tick.Base.Text.{Text, lower_char, is_space, cons_stripped}
use nano_tick.Data.{
  verify_checksum, Cell, Trade, int, unsigned, to_millis, iter_trade_chunks, parse_row,
}
use nano_tick.Data.Chunked.{columns, IsChunked, Parses, iter_trade_chunks-Chunked}

program : Unit {0}
unfolding iter_trade_chunks parse_row int to_millis lower_char is_space cons_stripped
program = tt

-- "12", "id", "-7" and "--7"
abbrev twelve : Cell
twelve = 49 ∷ 50 ∷ []

abbrev heading : Cell
heading = 105 ∷ 100 ∷ []

int_test :
    (int (45 ∷ 55 ∷ []) ≡ ok (negsuc 6)) × (int (45 ∷ 45 ∷ 55 ∷ []) ≡ raise Error.value_error)
unfolding program
int_test = (refl, refl)

abbrev btc : ℕ
btc = 7

abbrev binance : ℕ
binance = 8

-- id, price, qty, quoteQty, time, isBuyerMaker
abbrev csv_row : ℕ → List Cell
csv_row digit =
    (digit ∷ []) ∷ twelve ∷ twelve ∷ twelve ∷ twelve ∷ (32 ∷ 84 ∷ 114 ∷ 117 ∷ 101 ∷ []) ∷ []

abbrev trade : ℕ → Trade ℕ
trade n = record {
  time = pos 12;
  trade_id = pos n;
  price = 12;
  qty = 12;
  event_time = pos 12;
  buyer_maker = true;
}

abbrev rows : List (List Cell)
rows = (heading ∷ heading ∷ []) ∷ csv_row 49 ∷ [] ∷ csv_row 50 ∷ csv_row 51 ∷ []

chunks_test :
    iter_trade_chunks unsigned 2 btc binance (rows ∷ [])
    ≡ (columns btc binance (trade 1 ∷ trade 2 ∷ []) ∷ columns btc binance (trade 3 ∷ []) ∷ [], none)
unfolding program
chunks_test = refl

-- A row that ends too early stops the iterator after the full chunks.
short_row_test :
    iter_trade_chunks unsigned 1 btc binance ((csv_row 49 ∷ (twelve ∷ []) ∷ csv_row 50 ∷ []) ∷ [])
    ≡ (columns btc binance (trade 1 ∷ []) ∷ [], some Error.index_error)
unfolding program
short_row_test = refl

rows-Parses : Parses unsigned rows (trade 1 ∷ trade 2 ∷ trade 3 ∷ [])
unfolding program
rows-Parses = inl (
  refl,
  inr (
    trade 1,
    trade 2 ∷ trade 3 ∷ [],
    refl,
    inl (refl, inr (trade 2, trade 3 ∷ [], refl, inr (trade 3, [], refl, refl, refl), refl)),
    refl,
  ),
)

iter_trade_chunks-Chunked_example :
    (groups : List (List (Trade ℕ))) × (iter_trade_chunks unsigned 2 btc binance (rows ∷ [])
      ≡ (map (columns btc binance) groups, none))
    × (concat groups ≡ trade 1 ∷ trade 2 ∷ trade 3 ∷ [])
    × IsChunked 2 groups
iter_trade_chunks-Chunked_example =
    iter_trade_chunks-Chunked unsigned 2 btc binance rows (trade 1 ∷ trade 2 ∷ trade 3 ∷ [])
      (omega arith) rows-Parses

-- the digest of a file is itself, and the checksum file is "AB f"
abbrev hexdigest : Text → Text
hexdigest t = t

checksum_test :
    (verify_checksum hexdigest (97 ∷ 98 ∷ []) ((65 ∷ 66 ∷ []) ++ 32 ∷ 102 ∷ []) ≡ ok true)
    × (verify_checksum hexdigest (97 ∷ []) (32 ∷ []) ≡ raise Error.index_error)
unfolding program verify_checksum
checksum_test = (refl, refl)
