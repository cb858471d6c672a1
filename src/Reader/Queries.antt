-- ===== src/Reader/Queries.antt =====
-- Bar sizes and defaults of the reader (resources/reader.py).
use nano_tick.Base.{
  ℕ, zero, suc, Error, ◌≡◌, refl, Bool, false, none, some, Result, ok, raise, ◌>>=◌, arith,
  if◌then◌else◌, ok_injective, sym, ap, ◌∙◌,
}
use nano_tick.Base.Int.{ℤ, pos, negsuc, leb_ℤ}
use nano_tick.Base.Text.{Text}
use nano_tick.Reader.{
  BarSize, DateLike, Query, HdbReader, ReaderConfig, bar_ns, to_bar_ns, default_size,
  config_default, open_reader, read_bars, read_quote_bars, read_features,
}

positive_or :
    (r : Result ℤ) (ns : ℤ)
    → (r >>= λ n. if leb_ℤ n (pos 0) then raise Error.value_error else ok n) ≡ ok ns
    → (n : ℕ) × (ns ≡ pos (suc n))
positive_or (ok (pos zero)) ns h = absurd cc
positive_or (ok (pos (suc n))) ns h = (
  n,
  sym (
      ok_injective
        (sym (ap (λ b. if b then raise Error.value_error else ok (pos (suc n))) (over n)) ∙ h)),
)
  where
    over : (n : ℕ) → leb_ℤ (pos (suc n)) (pos 0) ≡ false
    over n = ground arith
positive_or (ok (negsuc n)) ns h = absurd (ground arith)
positive_or (raise e) ns h = absurd cc

-- A bar width is positive: a size that is not, or that is no number, is refused.
pub to_bar_ns-positive :
    {F : Type 0} (round_ns : F → Result ℤ) (size : BarSize F) (ns : ℤ)
    → to_bar_ns round_ns size ≡ ok ns
    → (n : ℕ) × (ns ≡ pos (suc n))
unfolding to_bar_ns
to_bar_ns-positive round_ns size ns h = positive_or (bar_ns round_ns size) ns h

opened :
    {F : Type 0} (exists : Text → Bool) (config : ReaderConfig F) (reader : HdbReader F)
    → open_reader exists config ≡ ok reader
    → reader.config ≡ some config
unfolding open_reader
opened exists config reader h = ground arith

-- What is left out of a query to a reader that `open_reader` returned is taken from its
-- configuration: the query is the same as the one with the configured bar size, horizon, window and
-- cost written out.
pub open_reader-defaults :
    {F R : Type 0} (round_ns : F → Result ℤ) (q : Query F → Result R) (exists : Text → Bool)
    (config : ReaderConfig F) (reader : HdbReader F) (fallback_cost : F) (symbol : Text)
    (day : DateLike)
    → open_reader exists config ≡ ok reader
    → let size = some (BarSize.int_size config.bar_seconds) in
      (read_features round_ns q reader fallback_cost symbol day none none none none
        ≡ read_features round_ns q reader fallback_cost symbol day size
            (some config.horizon)
            (some config.window)
            (some config.cost))
      × (read_bars round_ns q reader symbol day none ≡ read_bars round_ns q reader symbol day size)
      × (read_quote_bars round_ns q reader symbol day none
          ≡ read_quote_bars round_ns q reader symbol day size)
unfolding default_size config_default read_features read_bars read_quote_bars
open_reader-defaults round_ns q exists config reader fallback_cost symbol day h =
    let attached = opened exists config reader h in
    (rw attached refl, rw attached refl, rw attached refl)
