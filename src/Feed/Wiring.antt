-- ===== src/Feed/Wiring.antt =====
-- Records of resources/feedhandler.py that have a symbol and a row.
use nano_tick.Base.{◌≡◌, ok}
use nano_tick.Feed.{Wire}

-- what is read of the records that can be read
pub record View (K T Q R S : Type 0) : Type 0 where
  pub symbol : T → K
  pub row : T → R
  pub quote_symbol : Q → K
  pub quote_row : Q → S

module _ {K T Q R S : Type 0} (w : Wire K T Q R S) (v : View K T Q R S) where
  -- A trade, or a quote, has the symbol and the row that the view shows.
  abbrev pub Readable : T → Type 0
  Readable t = (w.symbol t ≡ ok (v.symbol t)) × (w.row t ≡ ok (v.row t))

  abbrev pub ReadableQuote : Q → Type 0
  ReadableQuote q =
      (w.quote_symbol q ≡ ok (v.quote_symbol q)) × (w.quote_row q ≡ ok (v.quote_row q))
