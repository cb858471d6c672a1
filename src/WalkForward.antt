-- ===== src/WalkForward.antt =====
-- `walk_forward_splits` of resources/evaluation.py: the purged, embargoed walk-forward splitter.
-- The sample count is a length, so it is a natural number; the other arguments are signed.
pub mod Purge
pub mod Cover
pub mod Range
mod Tests
use nano_tick.Base.{
  ℕ, zero, suc, ◌+◌, ◌-◌, ◌*◌, ◌/◌, Bool, ◌||◌, List, [], ◌∷◌, ◌++◌, if◌then◌else◌, ltb, ◌==◌,
  count_from, Result, ok, raise, Error,
}
use nano_tick.Base.Int.{ℤ, pos, negsuc, pos_part, ◌-ℤ◌, ltb_ℤ}

-- the index arrays of one fold
pub record Split : Type 0 where
  pub train : List ℕ
  pub test : List ℕ

-- `np.arange(n)`, which is empty for n ≤ 0, and `np.arange(a, b)`
abbrev pub arange_to : ℤ → List ℕ
arange_to n = count_from 0 (pos_part n)

abbrev pub arange : ℕ → ℕ → List ℕ
arange a b = count_from a (b - a)

-- the body of the loop at `k`
unfoldable pub test_end : ℕ → ℕ → ℕ → ℕ → ℕ
test_end n n_splits fold k = if k == n_splits then n else (k + 1) * fold

unfoldable pub train_end : ℤ → ℤ → ℕ → ℕ → ℤ
train_end horizon embargo fold k = pos (k * fold) -ℤ horizon -ℤ embargo

unfoldable pub split_at : ℕ → ℕ → ℤ → ℤ → ℕ → ℕ → Split
unfolding test_end train_end
split_at n n_splits horizon embargo fold k = record {
  train = arange_to (train_end horizon embargo fold k);
  test = arange (k * fold) (test_end n n_splits fold k);
}

-- `for k in range(k, k + rounds)`, with the `continue` on a short training set
unfoldable pub splits_from : ℕ → ℕ → ℤ → ℤ → ℤ → ℕ → ℕ → ℕ → List Split
splits_from n n_splits horizon embargo min_train fold k zero = []
splits_from n n_splits horizon embargo min_train fold k (suc rounds) =
    let rest = splits_from n n_splits horizon embargo min_train fold (k + 1) rounds in
    if ltb_ℤ (train_end horizon embargo fold k) min_train
    then rest
    else split_at n n_splits horizon embargo fold k ∷ rest

-- `n_samples // (n_splits + 1)`, once n_splits is known to be positive
unfoldable pub fold_size : ℕ → ℕ → ℕ
fold_size n n_splits = n / (n_splits + 1)

unfoldable pub walk_forward_splits : ℕ → ℤ → ℤ → ℤ → ℤ → Result (List Split)
walk_forward_splits n n_splits horizon embargo min_train =
    if ltb_ℤ n_splits (pos 1)
    then raise Error.value_error
    else if ltb_ℤ horizon (pos 0) || ltb_ℤ embargo (pos 0)
    then raise Error.value_error
    else let folds = pos_part n_splits in
      if fold_size n folds == 0
      then raise Error.value_error
      else ok (splits_from n folds horizon embargo min_train (fold_size n folds) 1 folds)
