-- ===== src/WalkForward/Purge.antt =====
-- The splits of resources/evaluation.py: the gap between training and test rows.
use nano_tick.Base.{
  ℕ, zero, suc, ◌+◌, ◌-◌, ◌*◌, ◌≤◌, ◌<◌, ◌≡◌, false, List, inl, inr, arith, Bool-cases, All,
  All-map, All-count_from, length, length-count_from, ok, ◌↔◌, sym, ◌∙◌, ok_injective,
}
use nano_tick.Base.Int.{ℤ, pos, negsuc, pos_part, ◌-ℤ◌, -ℤ_parts, one_part_zero, ge_ℤ, ltb_ℤ, ◌≤ℤ◌}
use nano_tick.WalkForward.{
  Split, arange_to, arange, test_end, train_end, split_at, splits_from, fold_size,
  walk_forward_splits,
}

-- The rows of a split leak nothing over `gap` rows: each training row and each test row are more
-- than `gap` apart, in this order.
abbrev pub IsPurged : ℕ → Split → Type 0
IsPurged gap s = All (λ i. All (λ j. i + gap < j) s.test) s.train

-- The training set has `n` rows at least.
abbrev pub IsTrained : ℤ → Split → Type 0
IsTrained min_train s = min_train ≤ℤ pos (length s.train)

split_at-IsPurged :
    (n n_splits h e fold k : ℕ) → IsPurged (h + e) (split_at n n_splits (pos h) (pos e) fold k)
unfolding split_at train_end
split_at-IsPurged n n_splits h e fold k =
    All-map (λ i. (0 ≤ i) × (i < 0 + pos_part (pos (k * fold) -ℤ pos h -ℤ pos e))) _
      (λ i below.
        All-map (λ j. (k * fold ≤ j) × (j < k * fold + (test_end n n_splits fold k - k * fold))) _
          (λ j within. omega (
            arith,
            -ℤ_parts (pos (k * fold)) (pos h),
            -ℤ_parts (pos (k * fold) -ℤ pos h) (pos e),
            one_part_zero (pos (k * fold) -ℤ pos h -ℤ pos e),
          ))
          (arange (k * fold) (test_end n n_splits fold k))
          (All-count_from (k * fold) (test_end n n_splits fold k - k * fold)))
      (arange_to (pos (k * fold) -ℤ pos h -ℤ pos e)) (All-count_from 0 _)

split_at-IsTrained :
    (n n_splits : ℕ) (horizon embargo min_train : ℤ) (fold k : ℕ)
    → ltb_ℤ (train_end horizon embargo fold k) min_train ≡ false
    → IsTrained min_train (split_at n n_splits horizon embargo fold k)
unfolding split_at
split_at-IsTrained n n_splits horizon embargo min_train fold k h =
    let last = train_end horizon embargo fold k in
    omega (arith, ge_ℤ last min_train h, length-count_from 0 (pos_part last), one_part_zero last)

splits_from-IsPurged :
    (n n_splits h e : ℕ) (min_train : ℤ) (fold k rounds : ℕ)
    → All
        (λ s. IsPurged (h + e) s × IsTrained min_train s)
        (splits_from n n_splits (pos h) (pos e) min_train fold k rounds)
unfolding splits_from
splits_from-IsPurged n n_splits h e min_train fold k zero = tt
splits_from-IsPurged n n_splits h e min_train fold k (suc rounds) =
    let rest = splits_from-IsPurged n n_splits h e min_train fold (k + 1) rounds in
    elim (Bool-cases (ltb_ℤ (train_end (pos h) (pos e) fold k) min_train)) [
      | inl short ↦ rw short rest
      | inr long ↦ rw long (
        (
          split_at-IsPurged n n_splits h e fold k,
          split_at-IsTrained n n_splits (pos h) (pos e) min_train fold k long,
        ),
        rest,
      )
    ]

-- The arguments that are accepted.
pub record IsAccepted (n : ℕ) (n_splits horizon embargo : ℤ) : Type 0 where
  pub some_split : pos 1 ≤ℤ n_splits
  pub horizon_nonneg : pos 0 ≤ℤ horizon
  pub embargo_nonneg : pos 0 ≤ℤ embargo
  pub enough : pos_part n_splits + 1 ≤ n

pub fold_size-pos_iff : (n p : ℕ) → (0 < fold_size n p) ↔ (p + 1 ≤ n)
unfolding fold_size
fold_size-pos_iff n p = (λ h. grind arith, λ h. grind arith)

pub accepted_runs :
    (n : ℕ) (n_splits horizon embargo min_train : ℤ)
    → IsAccepted n n_splits horizon embargo
    → walk_forward_splits n n_splits horizon embargo min_train
      ≡ ok (
          splits_from n
            (pos_part n_splits)
            horizon
            embargo
            min_train
            (fold_size n (pos_part n_splits))
            1
            (pos_part n_splits))
unfolding walk_forward_splits
accepted_runs n (pos p) (pos h) (pos e) min_train a =
    ground (arith, (fold_size-pos_iff n p).1 a.enough)
accepted_runs n (negsuc p) horizon embargo min_train a = absurd (omega (arith, a.some_split))
accepted_runs n (pos p) (negsuc h) embargo min_train a = absurd (omega (arith, a.horizon_nonneg))
accepted_runs n (pos p) (pos h) (negsuc e) min_train a = absurd (omega (arith, a.embargo_nonneg))

pub runs-IsAccepted :
    (n : ℕ) (n_splits horizon embargo min_train : ℤ) (splits : List Split)
    → walk_forward_splits n n_splits horizon embargo min_train ≡ ok splits
    → IsAccepted n n_splits horizon embargo
unfolding walk_forward_splits
runs-IsAccepted n (pos p) (pos h) (pos e) min_train splits r =
    ground (arith, (fold_size-pos_iff n p).0)
runs-IsAccepted n (negsuc p) horizon embargo min_train splits r = absurd (ground arith)
runs-IsAccepted n (pos p) (negsuc h) embargo min_train splits r = absurd (ground arith)
runs-IsAccepted n (pos p) (pos h) (negsuc e) min_train splits r = absurd (ground arith)

-- The splitter returns splits exactly for at least one fold, a horizon and an embargo that are not
-- negative, and one sample more than folds at least; for all else it raises.
pub walk_forward_splits_accepts :
    (n : ℕ) (n_splits horizon embargo min_train : ℤ)
    → ((splits : List Split) × (walk_forward_splits n n_splits horizon embargo min_train
          ≡ ok splits))
      ↔ IsAccepted n n_splits horizon embargo
walk_forward_splits_accepts n n_splits horizon embargo min_train = (
  λ r. runs-IsAccepted n n_splits horizon embargo min_train r.0 r.1,
  λ a. (_, accepted_runs n n_splits horizon embargo min_train a),
)

-- In every split that is returned each training row stands more than horizon + embargo rows before
-- each test row, so no training label looks into the test block; and the training set has at least
-- min_train rows.
pub walk_forward_splits-IsPurged :
    (n : ℕ) (n_splits : ℤ) (h e : ℕ) (min_train : ℤ) (splits : List Split)
    → walk_forward_splits n n_splits (pos h) (pos e) min_train ≡ ok splits
    → All (λ s. IsPurged (h + e) s × IsTrained min_train s) splits
walk_forward_splits-IsPurged n n_splits h e min_train splits r =
    let a = runs-IsAccepted n n_splits (pos h) (pos e) min_train splits r in
    let same = ok_injective (sym (accepted_runs n n_splits (pos h) (pos e) min_train a) ∙ r) in
    rw (← same) (splits_from-IsPurged n (pos_part n_splits) h e min_train _ 1 (pos_part n_splits))
