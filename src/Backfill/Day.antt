-- ===== src/Backfill/Day.antt =====
-- A day of `run_backfill` of resources/backfill.py whose iterators of chunks all run to their end.
use nano_tick.Base.{
  concat, ℕ, ◌≡◌, refl, sym, ◌∙◌, ap, Bool, true, false, Option, none, some, List, [], ◌∷◌, ◌++◌,
  append-nil, append_assoc, ◌==◌, if◌then◌else◌, Result, ok, raise, Bool-cases, inl, inr, ◌⊎◌,
}
use mathlib.Core.Path.{subst}
use nano_tick.Store.{Table, Store, save_rows, save_table, savedown, insert, insert_raw}
use nano_tick.Store.Rows.{save_table-rdb}
use nano_tick.Backfill.{
  Chunks, Fetch, Summary, Progress, mem, insert_chunks, failing, buffered, fetch_symbol,
  fetch_symbols, save_day, run_day,
}
use nano_tick.Store.Parts.{part_of, laid, save_rows-part_of}

-- the rows that a fetch yields
abbrev pub fetched : {R : Type 0} → Result (Option (Chunks R)) → List R
fetched (raise e) = []
fetched (ok none) = []
fetched (ok (some chunks)) = concat chunks.yields

abbrev pub IsWhole : {R : Type 0} → Result (Option (Chunks R)) → Type 0
IsWhole (raise e) = Unit
IsWhole (ok none) = Unit
IsWhole (ok (some chunks)) = chunks.stops ≡ none

module _ {R Q : Type 0} where
  insert_chunks-store :
      (chunks : List (List R)) (s : Store R Q)
      → (insert_chunks chunks s).0
        ≡ record s { trade = record s.trade { rdb = s.trade.rdb ++ concat chunks } }
  unfolding insert_chunks insert insert_raw
  insert_chunks-store [] s =
      ap (λ l. record s { trade = record s.trade { rdb = l } }) (sym (append-nil s.trade.rdb))
  insert_chunks-store (cols ∷ chunks) s =
      insert_chunks-store chunks (insert cols s).0
      ∙ ap (λ l. record s { trade = record s.trade { rdb = l } })
          (append_assoc s.trade.rdb cols (concat chunks))

  abbrev adding : List R → Store R Q → Store R Q
  adding rows s = record s { trade = record s.trade { rdb = s.trade.rdb ++ rows } }

  adding-append : (xs ys : List R) (s : Store R Q) → adding ys (adding xs s) ≡ adding (xs ++ ys) s
  adding-append xs ys s =
      ap (λ l. record s { trade = record s.trade { rdb = l } }) (append_assoc s.trade.rdb xs ys)

  adding-nil : (s : Store R Q) → adding [] s ≡ s
  adding-nil s = ap (λ l. record s { trade = record s.trade { rdb = l } }) (append-nil s.trade.rdb)

  -- A day goes on from `p` to `q` with these rows.
  abbrev Goes : Progress R Q → List R → Progress R Q → Type 0
  Goes p rows q =
      (q.store ≡ adding rows p.store) × ((q.wrote ≡ true) ⊎ ((rows ≡ []) × (q.wrote ≡ p.wrote)))

  fetch_symbol-Goes :
      (r : Result (Option (Chunks R))) (p : Progress R Q)
      → IsWhole r
      → Goes p (fetched r) (fetch_symbol r p)
  unfolding fetch_symbol buffered failing
  fetch_symbol-Goes (raise e) p h = (sym (adding-nil p.store), inr (refl, refl))
  fetch_symbol-Goes (ok none) p h = (sym (adding-nil p.store), inr (refl, refl))
  fetch_symbol-Goes (ok (some chunks)) p h =
      rw h (insert_chunks-store chunks.yields p.store, inl refl)

module _ {R Q : Type 0} where
  -- the store after a day with these rows, from a store with an empty memory
  abbrev Saved : ℕ → List R → Store R Q → Store R Q → Type 0
  Saved day rows s out =
      (out.trade.rdb ≡ [])
      × (out.quote ≡ s.quote)
      × ((d : ℕ)
          → part_of d out.trade.parts
            ≡ (if day == d then laid rows (part_of d s.trade.parts) else part_of d s.trade.parts))

  savedown-Saved :
      (day : ℕ) (rows : List R) (s : Store R Q)
      → s.quote.rdb ≡ []
      → Saved day rows s (savedown day (record s { trade = record s.trade { rdb = rows } }))
  unfolding savedown save_table save_rows
  savedown-Saved day rows s mq =
      let t : Table R = record s.trade { rdb = rows } in
      (
        save_table-rdb day t,
        subst (λ l. save_rows day l s.quote ≡ s.quote) (sym mq) refl,
        λ d. save_rows-part_of d day rows t,
      )

  save_day-Saved :
      (day : ℕ) (rows : List R) (s : Store R Q) (p : Progress R Q)
      → p.store ≡ adding rows s
      → (p.wrote ≡ true) ⊎ ((rows ≡ []) × (p.wrote ≡ false))
      → s.trade.rdb ≡ []
      → s.quote.rdb ≡ []
      → Saved day rows s (save_day day p).0
  unfolding save_day
  save_day-Saved day rows s p e (inl w) mt mq =
      let whole : p.store ≡ record s { trade = record s.trade { rdb = rows } } =
        e ∙ ap (λ l. record s { trade = record s.trade { rdb = l ++ rows } }) mt in
      rw w (
        subst (λ st. Saved day rows s (savedown day st)) (sym whole) (savedown-Saved day rows s mq))
  save_day-Saved day rows s p e (inr (no_rows, w)) mt mq =
      let same : p.store ≡ s = e ∙ ap (λ l. adding l s) no_rows ∙ adding-nil s in
      rw w (
        subst (λ st. Saved day rows s st) (sym same)
          (
            mt,
            refl,
            λ d.
                subst
                  (λ l. part_of d s.trade.parts ≡ (
                    if day == d then laid l (part_of d s.trade.parts) else part_of d s.trade.parts))
                  (sym no_rows)
                  (elim (Bool-cases (day == d)) [ inl b ↦ rw b refl | inr b ↦ rw b refl ]),
          ))

-- the rows of all symbols on a day
abbrev pub day_rows : {K R : Type 0} → Fetch K R → ℕ → List K → List R
day_rows fetch day [] = []
day_rows fetch day (k ∷ ks) = fetched (fetch k day) ++ day_rows fetch day ks

module _ {K R Q : Type 0} (fetch : Fetch K R) where
  fetch_symbols-Goes :
      (day : ℕ) (ks : List K) (p : Progress R Q)
      → ((k : K) → IsWhole (fetch k day))
      → Goes p (day_rows fetch day ks) (fetch_symbols fetch day ks p)
  unfolding fetch_symbols
  fetch_symbols-Goes day [] p h = (sym (adding-nil p.store), inr (refl, refl))
  fetch_symbols-Goes day (k ∷ ks) p h =
      let first = fetch_symbol-Goes (fetch k day) p (h k) in
      let q = fetch_symbol (fetch k day) p in
      let rest = fetch_symbols-Goes day ks q h in
      (
        rest.0
            ∙ ap (adding (day_rows fetch day ks)) first.0
            ∙ adding-append (fetched (fetch k day)) (day_rows fetch day ks) p.store,
        wrote_lem (fetched (fetch k day)) (day_rows fetch day ks) first.1 rest.1,
      )
    where
      wrote_lem :
          {a b c : Bool} (xs ys : List R)
          → (b ≡ true) ⊎ ((xs ≡ []) × (b ≡ a))
          → (c ≡ true) ⊎ ((ys ≡ []) × (c ≡ b))
          → (c ≡ true) ⊎ ((xs ++ ys ≡ []) × (c ≡ a))
      wrote_lem xs ys h (inl e) = inl e
      wrote_lem xs ys (inl d) (inr (y, e)) = inl (e ∙ d)
      wrote_lem xs ys (inr (x, d)) (inr (y, e)) = inr (ap (λ l. l ++ ys) x ∙ y, e ∙ d)

  pub run_day-lem :
      (existing : List ℕ) (ks : List K) (day : ℕ) (s : Store R Q) (summary : Summary)
      → ((k : K) → IsWhole (fetch k day))
      → s.trade.rdb ≡ []
      → s.quote.rdb ≡ []
      → let out = (run_day existing ks fetch day (s, summary)).0 in
        (out.trade.rdb ≡ [])
        × (out.quote ≡ s.quote)
        × ((d : ℕ)
            → part_of d out.trade.parts ≡ (
                if mem day existing
                then part_of d s.trade.parts
                else if day == d
                then laid (day_rows fetch day ks) (part_of d s.trade.parts)
                else part_of d s.trade.parts))
  unfolding run_day
  run_day-lem existing ks day s summary h mt mq = elim (Bool-cases (mem day existing)) [
    | inl e ↦ rw e (mt, refl, λ d. refl)
    | inr e ↦
        let p : Progress R Q = record { store = s; summary = summary; wrote = false } in
        let goes = fetch_symbols-Goes day ks p h in
        rw e (
          save_day-Saved day (day_rows fetch day ks) s (fetch_symbols fetch day ks p) goes.0 goes.1
            mt mq)
  ]
