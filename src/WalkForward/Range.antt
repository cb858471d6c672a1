-- ===== src/WalkForward/Range.antt =====
-- The splits of resources/evaluation.py index rows of the table only.
use nano_tick.Base.{
  ℕ, zero, suc, ◌+◌, ◌*◌, ◌≤◌, ◌<◌, ◌≡◌, List, inl, inr, arith, Bool-cases, All, All-map,
  All-count_from, count_from, ok, sym, ◌∙◌, ok_injective, ◌==◌,
}
use nano_tick.Base.Int.{ℤ, pos, negsuc, pos_part, ◌-ℤ◌, -ℤ_parts, one_part_zero, ltb_ℤ}
use nano_tick.WalkForward.{Split, test_end, train_end, split_at, splits_from, walk_forward_splits}
use nano_tick.WalkForward.Purge.{accepted_runs, runs-IsAccepted}
use nano_tick.WalkForward.Cover.{fold_size-mul-le}

-- Every index of the split is below the count of rows.
abbrev pub InRange : ℕ → Split → Type 0
InRange n s = All (λ i. i < n) s.train × All (λ i. i < n) s.test

All-count_from-below : (lo k n : ℕ) → lo + k ≤ n → All (λ i. i < n) (count_from lo k)
All-count_from-below lo k n h =
    All-map (λ i. (lo ≤ i) × (i < lo + k)) _ (λ i w. omega arith) (count_from lo k)
      (All-count_from lo k)

module _ (n n_splits h e : ℕ) (min_train : ℤ) (fold : ℕ) where
  split_at-InRange :
      (k : ℕ)
      → k ≤ n_splits
      → (n_splits + 1) * fold ≤ n
      → InRange n (split_at n n_splits (pos h) (pos e) fold k)
  unfolding split_at train_end test_end
  split_at-InRange k below bound =
      let start : k * fold ≤ n = grind arith in
      let next : (k + 1) * fold ≤ n = grind arith in
      (
        All-count_from-below 0 _ n (
            omega (
              arith,
              -ℤ_parts (pos (k * fold)) (pos h),
              -ℤ_parts (pos (k * fold) -ℤ pos h) (pos e),
              one_part_zero (pos (k * fold) -ℤ pos h),
              one_part_zero (pos (k * fold) -ℤ pos h -ℤ pos e),
            )),
        All-count_from-below (k * fold) _ n (elim (Bool-cases (k == n_splits)) [
          | inl last ↦ rw last (omega arith)
          | inr more ↦ rw more (omega arith)
        ]),
      )

  splits_from-InRange :
      (k rounds : ℕ)
      → k + rounds ≤ n_splits + 1
      → (n_splits + 1) * fold ≤ n
      → All (InRange n) (splits_from n n_splits (pos h) (pos e) min_train fold k rounds)
  unfolding splits_from
  splits_from-InRange k zero b bound = tt
  splits_from-InRange k (suc rounds) b bound =
      let rest = splits_from-InRange (k + 1) rounds (omega arith) bound in
      elim (Bool-cases (ltb_ℤ (train_end (pos h) (pos e) fold k) min_train)) [
        | inl short ↦ rw short rest
        | inr long ↦ rw long (split_at-InRange k (omega arith) bound, rest)
      ]

pub walk_forward_splits-InRange :
    (n : ℕ) (n_splits horizon embargo min_train : ℤ) (splits : List Split)
    → walk_forward_splits n n_splits horizon embargo min_train ≡ ok splits
    → All (InRange n) splits
walk_forward_splits-InRange n n_splits (pos h) (pos e) min_train splits r =
    let a = runs-IsAccepted n n_splits (pos h) (pos e) min_train splits r in
    let same = ok_injective (sym (accepted_runs n n_splits (pos h) (pos e) min_train a) ∙ r) in
    let p = pos_part n_splits in
    rw (← same) (splits_from-InRange n p h e min_train _ 1 p (omega arith) (fold_size-mul-le n p))
walk_forward_splits-InRange n n_splits (negsuc h) embargo min_train splits r = absurd (
    omega
      (arith, (runs-IsAccepted n n_splits (negsuc h) embargo min_train splits r).horizon_nonneg))
walk_forward_splits-InRange n n_splits (pos h) (negsuc e) min_train splits r = absurd (
    omega
      (arith, (runs-IsAccepted n n_splits (pos h) (negsuc e) min_train splits r).embargo_nonneg))
