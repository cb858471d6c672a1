-- ===== src/Ingest/Dispatch.antt =====
-- The dispatch of ingest/main.py: which messages reach the sink.
use nano_tick.Base.{
  ℕ, ◌≡◌, refl, ap, Bool, true, false, none, some, List, [], ◌∷◌, ◌++◌, Result, raise, Error, ◌⊎◌,
  inl, inr,
}
use nano_tick.Ingest.{
  Wrapped, Normalised, normalize_trade, normalize_quote, ends_with, at_trade, at_book_ticker,
  send_normalised, dispatch, run,
}

module _ {V P S : Type 0} (float : V → Result P) (now : ℕ)
    (send : Bool → Normalised V P → S → S) where
  -- The message is malformed: its stream or data is missing, the normaliser of its stream raises, or
  -- its stream is of neither kind.
  abbrev pub IsRejected : Wrapped V → Type 0
  IsRejected none = Unit
  IsRejected (some (stream, data_)) =
      ((ends_with at_trade stream ≡ true) × ((e : Error) × (normalize_trade float data_ ≡ raise e)))
      ⊎ ((ends_with at_trade stream ≡ false)
          × (ends_with at_book_ticker stream ≡ true)
          × ((e : Error) × (normalize_quote float now data_ ≡ raise e)))
      ⊎ ((ends_with at_trade stream ≡ false) × (ends_with at_book_ticker stream ≡ false))

  rejected_same : (w : Wrapped V) (sink : S) → IsRejected w → dispatch float now send w sink ≡ sink
  unfolding dispatch send_normalised
  rejected_same none sink h = refl
  rejected_same (some (stream, data_)) sink (inl (is_trade, (e, fails))) = rw (is_trade, fails) refl
  rejected_same (some (stream, data_)) sink (inr (inl (no_trade, is_quote, (e, fails)))) =
      rw (no_trade, is_quote, fails) refl
  rejected_same (some (stream, data_)) sink (inr (inr (no_trade, no_quote))) =
      rw (no_trade, no_quote) refl

  -- A malformed message anywhere in the stream changes nothing: the sink ends as it does without the
  -- message, and the messages around it are handled the same.
  pub run_skips :
      (before after : List (Wrapped V)) (w : Wrapped V) (sink : S)
      → IsRejected w
      → run float now send (before ++ w ∷ after) sink ≡ run float now send (before ++ after) sink
  unfolding run
  run_skips [] after w sink h = ap (run float now send after) (rejected_same w sink h)
  run_skips (v ∷ before) after w sink h =
      run_skips before after w (dispatch float now send v sink) h
