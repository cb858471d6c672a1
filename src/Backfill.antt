-- ===== src/Backfill.antt =====
-- The archive backfill of resources/backfill.py: `plan_dates`, `run_backfill`, `make_fetch_day`, `run`
-- and `prune`, over the store. A date is its ordinal (`date.toordinal`), from 1 to 3652059, and the
-- window `days` is any Python integer. A chunk that the writer inserts is its list of rows.
pub mod Plan
pub mod Day
pub mod Fill
pub mod Leak
pub mod Config
mod Tests
use nano_tick.Base.{
  ℕ, zero, suc, ◌+◌, ◌-◌, Bool, true, false, Option, none, some, List, [], ◌∷◌, map, length, ltb,
  leb, ◌==◌, not, if◌then◌else◌, Result, ok, raise, ◌>>=◌, Error,
}
use nano_tick.Base.Int.{ℤ, pos, negsuc}
use nano_tick.Store.{Table, Store, insert, savedown}

-- `today - timedelta(days=days)`
unfoldable pub shift : ℕ → ℤ → Result ℕ
shift today (pos n) = if ltb n today then ok (today - n) else raise Error.overflow_error
shift today (negsuc n) =
    if leb (today + suc n) 3_652_059 then ok (today + suc n) else raise Error.overflow_error

-- the list of `plan_dates`, for `n` in `range(n, 0, -1)`
unfoldable pub plan_down : ℕ → ℕ → Result (List ℕ)
unfolding shift
plan_down today zero = ok []
plan_down today (suc n) = do
  day ← shift today (pos (suc n))
  rest ← plan_down today n
  ok (day ∷ rest)

-- `plan_dates`
unfoldable pub plan_dates : ℕ → ℤ → Result (List ℕ)
unfolding plan_down
plan_dates today (pos n) = plan_down today n
plan_dates today (negsuc n) = ok []

unfoldable pub mem : ℕ → List ℕ → Bool
mem day [] = false
mem day (d ∷ ds) = if d == day then true else mem day ds

-- what `run_backfill` returns
pub record Summary : Type 0 where
  pub written : ℕ
  pub rows : ℕ
  pub skipped : ℕ
  pub missing : ℕ
  pub failed : ℕ

abbrev pub no_summary : Summary
no_summary = record { written = 0; rows = 0; skipped = 0; missing = 0; failed = 0 }

-- a chunk iterator: what it yields, and the exception that ends it early, if one does
pub record Chunks (R : Type 0) : Type 0 where
  pub yields : List (List R)
  pub stops : Option Error

-- `fetchers[sym](day)`
abbrev pub Fetch : Type 0 → Type 0 → Type 0
Fetch K R = K → ℕ → Result (Option (Chunks R))

-- the variables of `run_backfill` while it works on a day
pub record Progress (R Q : Type 0) : Type 0 where
  pub store : Store R Q
  pub summary : Summary
  pub wrote : Bool

module _ {R Q : Type 0} where
  -- `sum(writer.insert(cols) for cols in chunks)`, as far as the chunks go
  unfoldable pub insert_chunks : List (List R) → Store R Q → Store R Q × ℕ
  unfolding insert
  insert_chunks [] s = (s, 0)
  insert_chunks (cols ∷ chunks) s =
      let (s₁, n) = insert cols s in let (s₂, total) = insert_chunks chunks s₁ in (s₂, n + total)

  unfoldable pub failing : Progress R Q → Progress R Q
  failing p = record p { summary = record p.summary { failed = p.summary.failed + 1 } }

  -- the end of the chunks: the rows are counted, or the exception is
  unfoldable pub buffered : Option Error → Store R Q × ℕ → Progress R Q → Progress R Q
  unfolding failing
  buffered none (s, n) p = record p {
    store = s;
    summary = record p.summary { rows = p.summary.rows + n };
    wrote = true;
  }
  buffered (some e) (s, n) p = failing (record p { store = s })

  -- the body of the loop over the symbols
  unfoldable pub fetch_symbol : Result (Option (Chunks R)) → Progress R Q → Progress R Q
  unfolding insert_chunks buffered
  fetch_symbol (raise e) p = failing p
  fetch_symbol (ok none) p = record p {
    summary = record p.summary { missing = p.summary.missing + 1 };
  }
  fetch_symbol (ok (some chunks)) p = buffered chunks.stops (insert_chunks chunks.yields p.store) p

  -- the `if wrote` at the end of a day
  unfoldable pub save_day : ℕ → Progress R Q → Store R Q × Summary
  unfolding savedown
  save_day day p =
      if p.wrote
      then (savedown day p.store, record p.summary { written = p.summary.written + 1 })
      else (p.store, p.summary)

module _ {K R Q : Type 0} where
  unfoldable pub fetch_symbols : Fetch K R → ℕ → List K → Progress R Q → Progress R Q
  unfolding fetch_symbol
  fetch_symbols fetch day [] p = p
  fetch_symbols fetch day (k ∷ ks) p = fetch_symbols fetch day ks (fetch_symbol (fetch k day) p)

  -- the body of the loop over the dates
  unfoldable pub run_day :
      List ℕ → List K → Fetch K R → ℕ → Store R Q × Summary → Store R Q × Summary
  unfolding fetch_symbols save_day mem
  run_day existing symbols fetch day (s, summary) =
      if mem day existing
      then (s, record summary { skipped = summary.skipped + 1 })
      else save_day day
          (fetch_symbols fetch day symbols (record { store = s; summary = summary; wrote = false }))

  unfoldable pub run_days :
      List ℕ → List K → Fetch K R → List ℕ → Store R Q × Summary → Store R Q × Summary
  unfolding run_day
  run_days existing symbols fetch [] acc = acc
  run_days existing symbols fetch (day ∷ days) acc =
      run_days existing symbols fetch days (run_day existing symbols fetch day acc)

  -- `run_backfill`
  unfoldable pub run_backfill :
      List ℕ → List ℕ → List K → Fetch K R → Store R Q → Store R Q × Summary
  unfolding run_days
  run_backfill dates existing symbols fetch s =
      run_days existing symbols fetch dates (s, no_summary)

  -- `run`, today: the dates on disk are those that hold a trade partition
  unfoldable pub run : ℕ → ℤ → List K → Fetch K R → Store R Q → Result (Store R Q × Summary)
  unfolding plan_dates run_backfill
  run today days symbols fetch s = do
    dates ← plan_dates today days
    ok (run_backfill dates (map (λ p. p.0) s.trade.parts) symbols fetch s)

module _ {B R : Type 0} where
  unfoldable pub checked :
      (verify : B → B → Result Bool) → (B → Chunks R) → B → Option B → Result (Option (Chunks R))
  checked verify chunks zip none = ok (some (chunks zip))
  checked verify chunks zip (some checksum) = do
    good ← verify zip checksum
    if good then ok (some (chunks zip)) else raise Error.value_error

module _ {K B R : Type 0} where
  -- `make_fetch_day`, over the downloads, `verify_checksum` and `iter_trade_chunks`
  unfoldable pub make_fetch_day :
      (archive checksum : K → ℕ → Result (Option B)) (verify : B → B → Result Bool)
      → (K → B → Chunks R)
      → Fetch K R
  unfolding checked
  make_fetch_day archive checksum verify chunks k day = do
    zip? ← archive k day
    elim zip? [
      | none ↦ ok none
      | some zip ↦ do checksum? ← checksum k day; checked verify (chunks k) zip checksum?
    ]

-- the partitions whose date passes a test, and how many do not
unfoldable pub keep_parts : {A : Type 0} → (ℕ → Bool) → List (ℕ × A) → List (ℕ × A) × ℕ
keep_parts test [] = ([], 0)
keep_parts test ((d, rows) ∷ parts) =
    let (kept, removed) = keep_parts test parts in
    if test d then ((d, rows) ∷ kept, removed) else (kept, removed + 1)

-- the quotes of a date stay if its directory does
unfoldable pub keeps_quotes : ℕ → List ℕ → ℕ → Bool
unfolding mem
keeps_quotes cutoff trade_days d = if leb cutoff d then true else not (mem d trade_days)

module _ {R Q : Type 0} where
  -- `prune`: a date directory goes, with both tables in it, if it holds a trade partition and is
  -- before the cutoff; the count removed and the cutoff are returned
  unfoldable pub prune : ℕ → ℤ → Store R Q → Result (Store R Q × ℕ × ℕ)
  unfolding shift keep_parts keeps_quotes
  prune today days s = do
    cutoff ← shift today days
    let (trades, removed) = keep_parts (λ d. leb cutoff d) s.trade.parts
    let (quotes, with_them) =
        keep_parts (keeps_quotes cutoff (map (λ p. p.0) s.trade.parts)) s.quote.parts
    ok (
      record {
        trade = record s.trade { parts = trades };
        quote = record s.quote { parts = quotes };
      },
      removed,
      cutoff,
    )
