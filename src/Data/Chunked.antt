-- ===== src/Data/Chunked.antt =====
-- The times and the chunks of trades of resources/binance.py.
use nano_tick.Base.{
  concat, ℕ, ◌+◌, ◌*◌, ◌≤◌, ◌<◌, ◌≡◌, refl, sym, ◌∙◌, ap, true, false, none, some, List, [], ◌∷◌,
  ◌++◌, map, length, length-append, append_assoc, leb, ◌==◌, Result, ok, Bool-cases, inl, inr, ◌⊎◌,
  arith, tests, ltb,
}
use mathlib.Core.Path.{ap₂}
use nano_tick.Data.{
  Cell, Trade, Columns, append_trade, parse_row, chunk_rows, iter_trade_chunks, to_millis,
}

-- Between 10^11 and 10^14 milliseconds (1973 to 5138), a time in milliseconds stays, and the same time in
-- microseconds, with any fraction of a millisecond, becomes it.
pub to_millis_lem :
    (ms us : ℕ)
    → 100_000_000_000 < ms
    → ms ≤ 100_000_000_000_000
    → us < 1_000
    → (to_millis ms ≡ ms) × (to_millis (ms * 1_000 + us) ≡ ms)
unfolding to_millis
to_millis_lem ms us lo hi small =
    let same : ltb 100_000_000_000_000 ms ≡ false = ground arith in
    let scaled : ltb 100_000_000_000_000 (ms * 1_000 + us) ≡ true = omega tests in
    rw (same, scaled) (refl, omega arith)

map-snoc :
    {A B : Type 0} (f : A → B) (xs : List A) (x : A) → map f xs ++ f x ∷ [] ≡ map f (xs ++ x ∷ [])
map-snoc f [] x = refl
map-snoc f (y ∷ xs) x = ap (◌∷◌ (f y)) (map-snoc f xs x)

-- the columns of a list of trades
abbrev pub columns : {P S : Type 0} → S → S → List (Trade P) → Columns P S
columns symbol venue ts = record {
  times = map (λ t. t.time) ts;
  syms = map (λ t. symbol) ts;
  venues = map (λ t. venue) ts;
  trade_ids = map (λ t. t.trade_id) ts;
  prices = map (λ t. t.price) ts;
  qtys = map (λ t. t.qty) ts;
  event_times = map (λ t. t.event_time) ts;
  buyer_makers = map (λ t. t.buyer_maker) ts;
}

append_trade-columns :
    {P S : Type 0} (symbol venue : S) (ts : List (Trade P)) (t : Trade P)
    → append_trade symbol venue t (columns symbol venue ts) ≡ columns symbol venue (ts ++ t ∷ [])
unfolding append_trade
append_trade-columns symbol venue ts t =
    rw
      (
        map-snoc (λ t. t.time) ts t,
        map-snoc (λ t. symbol) ts t,
        map-snoc (λ t. venue) ts t,
        map-snoc (λ t. t.trade_id) ts t,
        map-snoc (λ t. t.price) ts t,
        map-snoc (λ t. t.qty) ts t,
        map-snoc (λ t. t.event_time) ts t,
        map-snoc (λ t. t.buyer_maker) ts t,
      )
      refl

-- All chunks are full but the last, which is not empty.
abbrev pub IsChunked : {A : Type 0} → ℕ → List (List A) → Type 0
IsChunked size [] = Unit
IsChunked size (g ∷ []) = (1 ≤ length g) × (length g ≤ size)
IsChunked size (g ∷ h ∷ groups) = (length g ≡ size) × IsChunked size (h ∷ groups)

full-IsChunked :
    {A : Type 0} (size : ℕ) (g : List A) (groups : List (List A))
    → 1 ≤ size
    → length g ≡ size
    → IsChunked size groups
    → IsChunked size (g ∷ groups)
full-IsChunked size g [] pos full h = (omega arith, omega arith)
full-IsChunked size g (k ∷ groups) pos full h = (full, h)

module _ {P : Type 0} (float : Cell → Result P) where
  -- The rows parse to these trades, blank rows and the header left out.
  abbrev pub Parses : List (List Cell) → List (Trade P) → Type 0
  Parses [] ts = ts ≡ []
  Parses (row ∷ rows) ts =
      ((parse_row float row ≡ ok none) × Parses rows ts)
      ⊎ ((t : Trade P) × (us : List (Trade P)) × (parse_row float row ≡ ok (some t))
          × Parses rows us
          × (ts ≡ t ∷ us))

module _ {P S : Type 0} (float : Cell → Result P) (size : ℕ) (symbol venue : S) where
  -- from the columns of `pre`, the loop yields the columns of these groups
  abbrev Yields : List (List Cell) → List (Trade P) → List (Trade P) → Type 0
  Yields rows pre ts =
      (groups : List (List (Trade P))) × (chunk_rows float size symbol venue rows
          (columns symbol venue pre) (length pre)
        ≡ (map (columns symbol venue) groups, none))
      × (concat groups ≡ pre ++ ts)
      × IsChunked size groups

  chunk_rows-Yields :
      (rows : List (List Cell)) (pre ts : List (Trade P))
      → length pre < size
      → Parses float rows ts
      → Yields rows pre ts
  unfolding chunk_rows
  chunk_rows-Yields [] [] ts h p = ([], refl, sym p, tt)
  chunk_rows-Yields [] (t ∷ pre) ts h p =
      let some_left : (length (t ∷ pre) == 0) ≡ false = ground arith in
      (
        (t ∷ pre) ∷ [],
        rw some_left refl,
        ap (◌++◌ (t ∷ pre)) (sym p),
        (omega arith, omega (arith, h)),
      )
  chunk_rows-Yields (row ∷ rows) pre ts h (inl (skip, p)) =
      let (groups, run, all, cut) = chunk_rows-Yields rows pre ts h p in
      (groups, rw (chunk_rows, skip) run, all, cut)
  chunk_rows-Yields (row ∷ rows) pre ts h (inr (t, us, parsed, p, e)) =
      elim (Bool-cases (leb size (length pre + 1))) [
        | inl full ↦
            let (groups, run, all, cut) = chunk_rows-Yields rows [] us (omega arith) p in
            let total : length (pre ++ t ∷ []) ≡ size =
              omega (tests, full, h, length-append pre (t ∷ [])) in
            (
              (pre ++ t ∷ []) ∷ groups,
              rw (chunk_rows, parsed, full)
                  (ap₂ (λ c r. (c ∷ r.0, r.1)) (append_trade-columns symbol venue pre t) run),
              ap (◌++◌ (pre ++ t ∷ [])) all ∙ append_assoc pre (t ∷ []) us ∙ ap (◌++◌ pre) (sym e),
              full-IsChunked size (pre ++ t ∷ []) groups (omega (arith, h)) total cut,
            )
        | inr more ↦
            let grown : length (pre ++ t ∷ []) ≡ length pre + 1 =
              omega (arith, length-append pre (t ∷ [])) in
            let (groups, run, all, cut) =
              chunk_rows-Yields rows (pre ++ t ∷ []) us (omega (tests, more, grown)) p in
            (
              groups,
              rw (chunk_rows, parsed, more)
                  (ap₂ (λ c n. chunk_rows float size symbol venue rows c n)
                      (append_trade-columns symbol venue pre t) (sym grown)
                    ∙ run),
              all ∙ append_assoc pre (t ∷ []) us ∙ ap (◌++◌ pre) (sym e),
              cut,
            )
      ]

  -- For a chunk size of 1 at least, an archive with one CSV file of which each row parses or is
  -- skipped is yielded whole: the trades in the order of their rows, in columns, cut into chunks
  -- that have exactly the size asked for, but for the last one, which may be shorter and is not
  -- empty. No exception ends it.
  pub iter_trade_chunks-Chunked :
      (rows : List (List Cell)) (ts : List (Trade P))
      → 1 ≤ size
      → Parses float rows ts
      → (groups : List (List (Trade P))) × (iter_trade_chunks float size symbol venue (rows ∷ [])
          ≡ (map (columns symbol venue) groups, none))
        × (concat groups ≡ ts)
        × IsChunked size groups
  unfolding iter_trade_chunks
  iter_trade_chunks-Chunked rows ts h p = chunk_rows-Yields rows [] ts (omega (arith, h)) p
