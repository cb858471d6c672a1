-- ===== src/Stream/Tests.antt =====
-- Runs of the reconnecting stream (ingest/src/streams/base.py) and of the URLs of
-- ingest/src/streams/binance.py, with the theorem on their streams.
use nano_tick.Base.{
  arith, ℕ, ◌≡◌, refl, false, none, some, List, [], ◌∷◌, ◌++◌, Bool, true, Result, ok, All,
}
use nano_tick.Stream.{Stream, Event, initial, run}
use nano_tick.Base.Text.{lower_char}
use nano_tick.Ingest.{Normalised, at_trade, at_book_ticker}
use nano_tick.Stream.Url.{combined_url, stream_path, streams_of, IsHandled, streams_of-IsHandled}
use nano_tick.Stream.Backoff.{IsPaced}

program : Unit {0}
unfolding run initial
program = tt

abbrev events : List (Event ℕ)
events =
    Event.refused
    ∷ Event.refused
    ∷ Event.opened
    ∷ Event.raw (some 7)
    ∷ Event.raw none
    ∷ Event.raw (some 8)
    ∷ Event.broken
    ∷ Event.refused
    ∷ []

run_test :
    run events initial
    ≡ record { connected = false; backoff = 4; yielded = 7 ∷ 8 ∷ []; sleeps = 1 ∷ 2 ∷ 1 ∷ 2 ∷ [] }
unfolding program
run_test = refl

initial-IsPaced : IsPaced {M = ℕ} initial
unfolding program
initial-IsPaced = ((omega arith, omega arith), tt)

abbrev begin : Stream ℕ
begin = record { connected = false; backoff = 32; yielded = []; sleeps = 9 ∷ [] }

not_connected : begin.connected ≡ false
unfolding program
not_connected = refl

abbrev no_float : ℕ → Result ℕ
no_float n = ok n

abbrev keep_all :
    Bool → Normalised ℕ ℕ → List (Bool × Normalised ℕ ℕ) → List (Bool × Normalised ℕ ℕ)
keep_all root n sink = (root, n) ∷ sink

-- "wss/stream?streams=a@trade/a@bookTicker", for the symbol "A"
combined_url_test :
    combined_url (119 ∷ 115 ∷ 115 ∷ []) true ((65 ∷ []) ∷ [])
    ≡ 119 ∷ 115 ∷ 115 ∷ stream_path ++ 97 ∷ at_trade ++ 47 ∷ 97 ∷ at_book_ticker
unfolding combined_url lower_char
combined_url_test = refl

streams_of-IsHandled_example :
    All (IsHandled no_float 9 keep_all) (streams_of true ((97 ∷ []) ∷ (98 ∷ []) ∷ []))
streams_of-IsHandled_example =
    streams_of-IsHandled no_float 9 keep_all true ((97 ∷ []) ∷ (98 ∷ []) ∷ [])
