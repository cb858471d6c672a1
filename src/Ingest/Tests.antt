-- ===== src/Ingest/Tests.antt =====
-- Runs of the ingest process (ingest/src/config.py, ingest/main.py), and its theorems at concrete
-- texts and messages. A value is a number, and so is a float; the sink keeps what it is sent.
use nano_tick.Base.{
  ◌>>=◌, Option, ℕ, ◌≡◌, refl, Bool, true, false, none, some, List, [], ◌∷◌, ◌++◌, map, Result, ok,
}
use nano_tick.Base.Int.{pos}
use nano_tick.Base.Text.{Text, is_space, cons_stripped, lower_char}
use nano_tick.Ingest.{
  Message, Wrapped, Normalised, symbols, run, ends_with, normalize_trade, normalize_quote, at_trade,
  at_book_ticker,
}
use nano_tick.Data.{unsigned, isdigit, all_digits, is_digit, digits_value}
use nano_tick.Backfill.Config as BackfillSettings
use nano_tick.Backfill.Config.{upper, upper_char}
use nano_tick.Ingest.Config as IngestSettings
use nano_tick.Ingest.Instruments.{instruments-upper}
use nano_tick.Ingest.Symbols.{Padded, text_of, word, join_comma, symbols-join}

program : Unit {0}
unfolding symbols run normalize_trade normalize_quote ends_with lower_char is_space cons_stripped
program = tt

-- " BTC,, eth ,"
symbols_test :
    symbols (32 ∷ 66 ∷ 84 ∷ 67 ∷ 44 ∷ 44 ∷ 32 ∷ 101 ∷ 116 ∷ 104 ∷ 32 ∷ 44 ∷ [])
    ≡ (98 ∷ 116 ∷ 99 ∷ []) ∷ (101 ∷ 116 ∷ 104 ∷ []) ∷ []
unfolding program
symbols_test = refl

abbrev float : ℕ → Result ℕ
float n = ok n

abbrev send : Bool → Normalised ℕ ℕ → List (Bool × Normalised ℕ ℕ) → List (Bool × Normalised ℕ ℕ)
send root n sink = sink ++ (root, n) ∷ []

abbrev full : Message ℕ
full f = some 5

-- "x@trade", "x@bookTicker" and "x"
abbrev messages : List (Wrapped ℕ)
messages = some (120 ∷ at_trade, full) ∷ some (120 ∷ at_book_ticker, full) ∷ []

abbrev broken : Wrapped ℕ
broken = some (120 ∷ at_trade, λ f. none)

run_test :
    run float 9 send (broken ∷ none ∷ some (120 ∷ [], full) ∷ messages) []
    ≡ (true, Normalised.trade 5 5 5 5 5 5 5) ∷ (false, Normalised.quote 5 5 5 5 5 5 9) ∷ []
unfolding program
run_test = refl

-- " btc " and "eth"
abbrev btc : Padded
btc = record { before = 32 ∷ []; head = 98; tail = 116 ∷ 99 ∷ []; after = 32 ∷ [] }

abbrev eth : Padded
eth = record { before = []; head = 101; tail = 116 ∷ 104 ∷ []; after = [] }

symbols-join_example :
    symbols (join_comma (text_of btc) (map text_of (eth ∷ []))) ≡ map word (btc ∷ eth ∷ [])
unfolding program
symbols-join_example =
    symbols-join btc (eth ∷ [])
      ((refl, tt), (refl, refl, refl), ((refl, refl, refl), ((refl, refl, refl), tt)), (refl, tt))
      ((tt, (refl, refl, refl), ((refl, refl, refl), ((refl, refl, refl), tt)), tt), tt)

-- "A, b" for SYMBOLS, and nothing else
abbrev two_symbols : Text
two_symbols = 65 ∷ 44 ∷ 32 ∷ 98 ∷ []

abbrev stream : IngestSettings.Variable → Option Text
stream IngestSettings.Variable.env_symbols = some two_symbols
stream _ = none

abbrev store : BackfillSettings.Variable → Option Text
store BackfillSettings.Variable.env_symbols = some two_symbols
store _ = none

start_test :
    (do config ← IngestSettings.config_from_env stream; ok (IngestSettings.start_sink config))
    ≡ ok (IngestSettings.Sink.mqtt_sink IngestSettings.store_host (pos 1883) (pos 50_000))
unfolding IngestSettings.config_from_env IngestSettings.start_sink unsigned isdigit all_digits
    is_digit digits_value
start_test = refl

instruments-upper_example :
    BackfillSettings.instruments store ≡ map upper (IngestSettings.instruments stream)
instruments-upper_example = instruments-upper stream store refl refl

store_test : BackfillSettings.instruments store ≡ (65 ∷ []) ∷ (66 ∷ []) ∷ []
unfolding program BackfillSettings.instruments upper_char
store_test = refl
