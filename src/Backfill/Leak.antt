-- ===== src/Backfill/Leak.antt =====
-- A failure in the middle of a day in `run_backfill` of resources/backfill.py.
use nano_tick.Base.{
  ℕ, ◌≡◌, ◌∙◌, ap, true, none, some, List, [], ◌∷◌, ◌++◌, length, ◌==◌, if◌then◌else◌, ok, Error,
  arith,
}
use nano_tick.Store.{Store, insert, insert_raw, savedown, save_table, save_rows}
use nano_tick.Backfill.{
  Fetch, mem, insert_chunks, failing, buffered, fetch_symbol, fetch_symbols, save_day, run_day,
  run_days, run_backfill,
}
use nano_tick.Store.Parts.{part_of, part_of-write_part}

module _ {K R Q : Type 0} (fetch : Fetch K R) where
  -- Two planned dates and one symbol, from an empty memory and with no date to skip: when the fetch
  -- of the first date yields a chunk of some rows and then ends with an exception, and that of the
  -- second yields one whole chunk, the partition of the second date gets the rows of both, those of
  -- the first in front. The first date is counted as failed, and its rows are not counted.
  pub partial_day_leaks :
      (k : K) (d₁ d₂ : ℕ) (r x : R) (rs xs : List R) (e : Error) (s : Store R Q)
      → fetch k d₁ ≡ ok (some (record { yields = (r ∷ rs) ∷ []; stops = some e }))
      → fetch k d₂ ≡ ok (some (record { yields = (x ∷ xs) ∷ []; stops = none }))
      → s.trade.rdb ≡ []
      → let out = run_backfill (d₁ ∷ d₂ ∷ []) [] (k ∷ []) fetch s in
        (part_of d₂ out.0.trade.parts ≡ some ((r ∷ rs) ++ (x ∷ xs)))
        × (out.1
            ≡ record { written = 1; rows = length (x ∷ xs); skipped = 0; missing = 0; failed = 1 })
  unfolding run_backfill run_days run_day mem fetch_symbols fetch_symbol buffered failing
      insert_chunks insert insert_raw save_day savedown save_table save_rows
  partial_day_leaks k d₁ d₂ r x rs xs e s f₁ f₂ mt =
      let here : (d₂ == d₂) ≡ true = ground arith in
      rw (f₁, f₂)
        (
          rw mt (
              part_of-write_part d₂ d₂ (r ∷ (rs ++ x ∷ xs)) s.trade.parts
              ∙ ap (λ b. if b then some (r ∷ (rs ++ x ∷ xs)) else part_of d₂ s.trade.parts) here),
          ap (λ n. record { written = 1; rows = n; skipped = 0; missing = 0; failed = 1 })
              (omega arith),
        )
