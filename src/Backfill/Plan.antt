-- ===== src/Backfill/Plan.antt =====
-- `plan_dates` and `prune` of resources/backfill.py: the window of dates, and what is kept of it.
use nano_tick.Base.{
  eqb→eq, ℕ, zero, suc, ◌+◌, ◌-◌, ◌≤◌, ◌<◌, ◌≡◌, refl, sym, ◌∙◌, ap, Bool, true, false, Option,
  none, List, [], ◌∷◌, map, length, ltb, leb, ◌==◌, if◌then◌else◌, ok, All, All-map, All-count_from,
  count_from, arith, tests, Bool-cases, inl, inr,
}
use nano_tick.Base.Int.{pos}
use nano_tick.Store.{Store}
use nano_tick.Store.Parts.{part_of}
use nano_tick.Backfill.{shift, plan_down, plan_dates, keep_parts, prune, mem, keeps_quotes}

plan_down_lem : (today n : ℕ) → n < today → plan_down today n ≡ ok (count_from (today - n) n)
unfolding plan_down shift
plan_down_lem today zero h = refl
plan_down_lem today (suc n) h =
    let inside : ltb (suc n) today ≡ true = omega (tests, h) in
    let next : today - n ≡ today - suc n + 1 = omega (arith, h) in
    rw (inside, plan_down_lem today n (omega (arith, h)), next) refl

-- While the calendar reaches back so far, the plan is each date from `n` days ago to yesterday, once
-- and in order.
pub plan_dates_lem :
    (today n : ℕ) → n < today → plan_dates today (pos n) ≡ ok (count_from (today - n) n)
unfolding plan_dates
plan_dates_lem today n h = plan_down_lem today n h

keep_parts_lem :
    {A : Type 0} (test : ℕ → Bool) (parts : List (ℕ × A))
    → ((d : ℕ) → part_of d (keep_parts test parts).0 ≡ (if test d then part_of d parts else none))
      × (length (keep_parts test parts).0 + (keep_parts test parts).1 ≡ length parts)
unfolding keep_parts
keep_parts_lem test [] =
    (λ d. elim (Bool-cases (test d)) [ inl e ↦ rw e refl | inr e ↦ rw e refl ], omega arith)
keep_parts_lem {A} test ((day, rows) ∷ parts) =
    let (ih, count) = keep_parts_lem test parts in
    elim (Bool-cases (test day)) [
      | inl e ↦ rw e (
        (λ d. elim (Bool-cases (day == d)) [
          | inl same ↦
              let t : test d ≡ true = ap test (sym (eqb→eq day d same)) ∙ e in rw (same, t) refl
          | inr other ↦ rw other (ih d)
        ]),
        omega (arith, count),
      )
      | inr e ↦ rw e (
        (λ d. elim (Bool-cases (day == d)) [
          | inl same ↦
              let t : test d ≡ false = ap test (sym (eqb→eq day d same)) ∙ e in
              rw t (ih d ∙ none_at d t)
          | inr other ↦ rw other (ih d)
        ]),
        omega (arith, count),
      )
    ]
  where
    none_at : (d : ℕ) → test d ≡ false → (if test d then part_of d parts else none) ≡ none
    none_at d t = rw t refl

quotes_kept :
    {A : Type 0} (cutoff d : ℕ) (trade_days : List ℕ) (o : Option A)
    → (if keeps_quotes cutoff trade_days d then o else none)
      ≡ (if leb cutoff d then o else if mem d trade_days then none else o)
unfolding keeps_quotes
quotes_kept cutoff d trade_days o = elim (Bool-cases (leb cutoff d)) [
  | inl e ↦ rw e refl
  | inr e ↦ elim (Bool-cases (mem d trade_days)) [ inl m ↦ rw (e, m) refl | inr m ↦ rw (e, m) refl ]
]

-- While the calendar reaches back `n` days, a prune deletes exactly the trade partitions before `n`
-- days ago: it says how many they are, the rows of each later date stay as they were, and so does
-- the memory. A quote partition goes with the trade partition of its date, and one without a trade
-- partition stays, however old. The dates of a plan of the same day and window are all kept.
pub prune_lem :
    {R Q : Type 0} (today n : ℕ) (s : Store R Q)
    → n < today
    → (s' : Store R Q) × (removed : ℕ) × (dates : List ℕ) × (prune today (pos n) s
        ≡ ok (s', removed, today - n))
      × ((d : ℕ)
          → part_of d s'.trade.parts
            ≡ (if leb (today - n) d then part_of d s.trade.parts else none))
      × (length s'.trade.parts + removed ≡ length s.trade.parts)
      × ((d : ℕ)
          → part_of d s'.quote.parts ≡ (
              if leb (today - n) d
              then part_of d s.quote.parts
              else if mem d (map (λ p. p.0) s.trade.parts)
              then none
              else part_of d s.quote.parts))
      × (s'.trade.rdb ≡ s.trade.rdb)
      × (s'.quote.rdb ≡ s.quote.rdb)
      × (plan_dates today (pos n) ≡ ok dates)
      × All (λ d. part_of d s'.trade.parts ≡ part_of d s.trade.parts) dates
unfolding prune shift
prune_lem today n s h =
    let inside : ltb n today ≡ true = omega (tests, h) in
    let (trades, count) = keep_parts_lem (λ d. leb (today - n) d) s.trade.parts in
    let (quotes, _) =
      keep_parts_lem (keeps_quotes (today - n) (map (λ p. p.0) s.trade.parts)) s.quote.parts in
    (
      record {
        trade = record s.trade { parts = (keep_parts (λ d. leb (today - n) d) s.trade.parts).0 };
        quote = record s.quote {
          parts =
              (keep_parts (keeps_quotes (today - n) (map (λ p. p.0) s.trade.parts))
                s.quote.parts).0;
        };
      },
      (keep_parts (λ d. leb (today - n) d) s.trade.parts).1,
      count_from (today - n) n,
      rw inside refl,
      trades,
      count,
      (λ d.
          quotes d
          ∙ quotes_kept (today - n) d (map (λ p. p.0) s.trade.parts) (part_of d s.quote.parts)),
      refl,
      refl,
      plan_dates_lem today n h,
      All-map (λ d. (today - n ≤ d) × (d < today - n + n)) _
          (λ d within.
            let later : leb (today - n) d ≡ true = omega (tests, within.0) in
            trades d ∙ rw later refl)
          (count_from (today - n) n) (All-count_from (today - n) n),
    )
