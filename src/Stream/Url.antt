-- ===== src/Stream/Url.antt =====
-- The streams of one combined websocket (ingest/src/streams/binance.py), and how ingest/main.py
-- recognises their messages.
use nano_tick.Base.{
  ℕ, ◌≡◌, refl, sym, ap, ◌∙◌, Bool, true, false, List, [], ◌∷◌, ◌++◌, map, last?, some,
  if◌then◌else◌, All, inl, inr, ◌⊎◌, Bool-cases, arith, drop, Result,
}
use nano_tick.Base.Text.{Text, lower, same_text, same_text_self, same_text_eq}
use nano_tick.Ingest.{
  ends_with, at_trade, at_book_ticker, Normalised, Message, normalize_trade, normalize_quote,
  send_normalised, dispatch,
}

-- `"/".join(parts)`
unfoldable pub join_slash : List Text → Text
join_slash [] = []
join_slash (part ∷ []) = part
join_slash (part ∷ next ∷ parts) = part ++ 47 ∷ join_slash (next ∷ parts)

-- the loop of `BinanceCombinedStream.url`, over the symbols in lower case
unfoldable pub streams_of : Bool → List Text → List Text
streams_of quotes [] = []
streams_of quotes (s ∷ symbols) =
    let rest = streams_of quotes symbols in
    (s ++ at_trade) ∷ (if quotes then (s ++ at_book_ticker) ∷ rest else rest)

-- `BinanceCombinedStream.url`, for the host `base`: "/stream?streams="
abbrev pub stream_path : Text
stream_path =
    47 ∷ 115 ∷ 116 ∷ 114 ∷ 101 ∷ 97 ∷ 109 ∷ 63 ∷ 115 ∷ 116 ∷ 114 ∷ 101 ∷ 97 ∷ 109 ∷ 115 ∷ 61 ∷ []

unfoldable pub combined_url : Text → Bool → List Text → Text
unfolding join_slash streams_of lower
combined_url base quotes symbols =
    base ++ stream_path ++ join_slash (streams_of quotes (map lower symbols))

-- `BinanceTradeStream.url`: "/ws/"
unfoldable pub trade_url : Text → Text → Text
unfolding lower
trade_url base symbol = base ++ 47 ∷ 119 ∷ 115 ∷ 47 ∷ lower symbol ++ at_trade

ends_with-append : (suffix pre : Text) → ends_with suffix (pre ++ suffix) ≡ true
unfolding ends_with
ends_with-append [] [] = same_text_self []
ends_with-append (d ∷ suffix) [] = rw (same_text_self (d ∷ suffix)) refl
ends_with-append suffix (c ∷ pre) = ground (arith, ends_with-append suffix pre)

last?-append : (pre : Text) (c : ℕ) (cs : Text) → last? (pre ++ c ∷ cs) ≡ last? (c ∷ cs)
last?-append [] c cs = refl
last?-append (b ∷ []) c cs = refl
last?-append (b ∷ a ∷ pre) c cs = last?-append (a ∷ pre) c cs

-- A text ends as its suffix does.
ends_with-last? :
    (d : ℕ) (suffix t : Text) → ends_with (d ∷ suffix) t ≡ true → last? t ≡ last? (d ∷ suffix)
unfolding ends_with
ends_with-last? d suffix [] h = absurd cc
ends_with-last? d suffix (c ∷ []) h = elim (Bool-cases (same_text (c ∷ []) (d ∷ suffix))) [
  | inl same ↦ ap last? (same_text_eq (c ∷ []) (d ∷ suffix) same)
  | inr other ↦ absurd (ground (arith, sym (ap (λ b. if b then true else false) other) ∙ h))
]
ends_with-last? d suffix (c ∷ e ∷ cs) h = elim (Bool-cases (same_text (c ∷ e ∷ cs) (d ∷ suffix))) [
  | inl same ↦ ap last? (same_text_eq (c ∷ e ∷ cs) (d ∷ suffix) same)
  | inr other ↦
      ends_with-last? d suffix (e ∷ cs)
        (sym (ap (λ b. if b then true else ends_with (d ∷ suffix) (e ∷ cs)) other) ∙ h)
]

-- The stream of the quotes of a symbol does not end as one of trades does.
book_ticker-no_trade : (s : Text) → ends_with at_trade (s ++ at_book_ticker) ≡ false
book_ticker-no_trade s = elim (Bool-cases (ends_with at_trade (s ++ at_book_ticker))) [
  | inr e ↦ e
  | inl e ↦
      let trade = ends_with-last? 64 (drop 1 at_trade) (s ++ at_book_ticker) e in
      let ticker = last?-append s 64 (drop 1 at_book_ticker) in
      absurd (ground (arith, sym trade ∙ ticker))
]

module _ {V P S : Type 0} (float : V → Result P) (now : ℕ)
    (send : Bool → Normalised V P → S → S) where
  -- Each message of the stream is normalised as a trade, or each as a quote, and sent under its root.
  abbrev pub IsHandled : Text → Type 0
  IsHandled stream =
      ((data_ : Message V) (sink : S)
        → dispatch float now send (some (stream, data_)) sink
          ≡ send_normalised float now send true (normalize_trade float data_) sink)
      ⊎ ((data_ : Message V) (sink : S)
          → dispatch float now send (some (stream, data_)) sink
            ≡ send_normalised float now send false (normalize_quote float now data_) sink)

  trade-IsHandled : (s : Text) → IsHandled (s ++ at_trade)
  unfolding dispatch
  trade-IsHandled s = inl (λ data_ sink. rw (ends_with-append at_trade s) refl)

  book_ticker-IsHandled : (s : Text) → IsHandled (s ++ at_book_ticker)
  unfolding dispatch
  book_ticker-IsHandled s =
      inr (λ data_ sink. rw (book_ticker-no_trade s, ends_with-append at_book_ticker s) refl)

  -- Every stream that the combined websocket subscribes to is one whose messages `run` normalises and
  -- sends, those of trades under the one root and those of quotes under the other.
  pub streams_of-IsHandled :
      (quotes : Bool) (symbols : List Text) → All IsHandled (streams_of quotes symbols)
  unfolding streams_of
  streams_of-IsHandled quotes [] = tt
  streams_of-IsHandled true (s ∷ symbols) =
      (trade-IsHandled s, (book_ticker-IsHandled s, streams_of-IsHandled true symbols))
  streams_of-IsHandled false (s ∷ symbols) = (trade-IsHandled s, streams_of-IsHandled false symbols)
