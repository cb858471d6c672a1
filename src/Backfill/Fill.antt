-- ===== src/Backfill/Fill.antt =====
-- What `run_backfill` of resources/backfill.py leaves in the store when no iterator of chunks ends
-- with an exception.
use nano_tick.Base.{
  eqb→eq, ℕ, ◌≡◌, refl, ◌∙◌, ap, true, Option, List, [], ◌∷◌, ◌==◌, if◌then◌else◌, arith,
  Bool-cases, inl, inr,
}
use mathlib.Core.Path.{subst}
use nano_tick.Store.{Store}
use nano_tick.Backfill.{Fetch, Summary, no_summary, mem, run_day, run_days, run_backfill}
use nano_tick.Store.Parts.{part_of, laid}
use nano_tick.Backfill.Day.{IsWhole, day_rows, run_day-lem}

-- the rows of a date after some dates have been filled
abbrev pub filled :
    {K R : Type 0} → Fetch K R → List ℕ → List K → List ℕ → ℕ → Option (List R) → Option (List R)
filled fetch existing ks dates d before =
    if mem d existing
    then before
    else if mem d dates
    then laid (day_rows fetch d ks) before
    else before

laid-twice : {A : Type 0} (l : List A) (o : Option (List A)) → laid l (laid l o) ≡ laid l o
laid-twice [] o = refl
laid-twice (x ∷ l) o = refl

filled-cons :
    {K R : Type 0} (fetch : Fetch K R) (existing : List ℕ) (ks : List K) (day : ℕ) (dates : List ℕ)
    (d : ℕ) (before : Option (List R))
    → filled fetch existing ks dates d (
        if mem day existing
        then before
        else if day == d
        then laid (day_rows fetch day ks) before
        else before)
      ≡ filled fetch existing ks (day ∷ dates) d before
unfolding mem
filled-cons fetch existing ks day dates d before = elim (Bool-cases (day == d)) [
  | inl same ↦
      subst
        (λ i.
          filled fetch existing ks dates i (
            if mem day existing
            then before
            else if day == i
            then laid (day_rows fetch day ks) before
            else before)
          ≡ filled fetch existing ks (day ∷ dates) i before)
        (eqb→eq day d same)
        (let here : (day == day) ≡ true = ground arith in
          elim (Bool-cases (mem day existing)) [
            | inl e ↦ rw (here, e) refl
            | inr e ↦
                rw (here, e)
                  (elim (Bool-cases (mem day dates)) [
                    | inl m ↦ rw m (laid-twice (day_rows fetch day ks) before)
                    | inr m ↦ rw m refl
                  ])
          ])
  | inr other ↦
      rw other (elim (Bool-cases (mem day existing)) [ inl e ↦ rw e refl | inr e ↦ rw e refl ])
]

module _ {K R Q : Type 0} (fetch : Fetch K R) where
  run_days-filled :
      (existing : List ℕ) (ks : List K) (dates : List ℕ) (s : Store R Q) (summary : Summary)
      → ((k : K) (day : ℕ) → IsWhole (fetch k day))
      → s.trade.rdb ≡ []
      → s.quote.rdb ≡ []
      → let out = (run_days existing ks fetch dates (s, summary)).0 in
        (out.trade.rdb ≡ [])
        × (out.quote ≡ s.quote)
        × ((d : ℕ)
            → part_of d out.trade.parts
              ≡ filled fetch existing ks dates d (part_of d s.trade.parts))
  unfolding run_days mem
  run_days-filled existing ks [] s summary h mt mq =
      (mt, refl, λ d. elim (Bool-cases (mem d existing)) [ inl e ↦ rw e refl | inr e ↦ rw e refl ])
  run_days-filled existing ks (day ∷ dates) s summary h mt mq =
      let acc = run_day existing ks fetch day (s, summary) in
      let one = run_day-lem fetch existing ks day s summary (λ k. h k day) mt mq in
      let ih = run_days-filled existing ks dates acc.0 acc.1 h one.0 (ap (λ q. q.rdb) one.1 ∙ mq) in
      (
        ih.0,
        ih.1 ∙ one.1,
        λ d.
            ih.2 d
            ∙ ap (filled fetch existing ks dates d) (one.2 d)
            ∙ filled-cons fetch existing ks day dates d (part_of d s.trade.parts),
      )

  -- From a store with an empty memory, and while each iterator of chunks runs to its end, the
  -- partition of each planned date that was not on disk holds the rows of all symbols, in
  -- their order, if there are any. All other dates, those on disk included, keep their rows, the memory
  -- is empty again and the quotes are as before.
  pub run_backfill-filled :
      (existing : List ℕ) (ks : List K) (dates : List ℕ) (s : Store R Q)
      → ((k : K) (day : ℕ) → IsWhole (fetch k day))
      → s.trade.rdb ≡ []
      → s.quote.rdb ≡ []
      → let out = (run_backfill dates existing ks fetch s).0 in
        (out.trade.rdb ≡ [])
        × (out.quote ≡ s.quote)
        × ((d : ℕ)
            → part_of d out.trade.parts
              ≡ filled fetch existing ks dates d (part_of d s.trade.parts))
  unfolding run_backfill
  run_backfill-filled existing ks dates s h mt mq =
      run_days-filled existing ks dates s no_summary h mt mq
