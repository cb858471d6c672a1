-- ===== src/Evaluation.antt =====
-- resources/evaluation.py beside the splitter: the matrix of features and labels, and `evaluate`,
-- which fits a fresh model per fold and pools the predictions of the test rows. The columns of a
-- frame have names `C`; a model is any pair of functions with sklearn's `fit` and `predict`, over a
-- type `M` of fitted models. `cols` is the list of features once the default list is filled in. The
-- splitter is nano_tick.WalkForward.
pub mod Metrics
pub mod Frames
pub mod Classes
pub mod Recalls
pub mod Leak
pub mod Ends
pub mod Pooled
mod Tests
use nano_tick.Base.{
  ℕ, zero, suc, ◌+◌, Bool, true, false, ◌||◌, not, Option, none, some, List, [], ◌∷◌, ◌++◌, map,
  length, concat, ltb, if◌then◌else◌, Result, ok, raise, ◌>>=◌, Error,
}
use nano_tick.Base.Int.{ℤ, pos}
use nano_tick.Base.Numpy.{Numpy}
use mathlib.Core.Logic.{ite}
use nano_tick.WalkForward.{Split, walk_forward_splits}
use nano_tick.Evaluation.Metrics.{
  Classification, Strategy, unique, classification_metrics, strategy_metrics,
}

-- a DataFrame: each row reads the columns by name
pub record Frame (C F : Type 0) : Type 0 where
  pub columns : List C
  pub rows : List (C → F)

-- the arrays X, y and fwd, which have a row in common per position
pub record Matrix (F : Type 0) : Type 0 where
  pub x : List (List F)
  pub y : List ℤ
  pub fwd : List F

module _ {C : Type 0} (dec : Discrete C) where
  -- `c in names`
  unfoldable pub mem : C → List C → Bool
  mem c [] = false
  mem c (d ∷ ds) = ite (dec d c) true (mem c ds)

  -- the names that the frame does not have
  unfoldable pub missing : List C → List C → List C
  unfolding mem
  missing columns [] = []
  missing columns (c ∷ cs) =
      let rest = missing columns cs in if mem c columns then rest else c ∷ rest

module _ {C F : Type 0} (np : Numpy F) where
  -- whether `dropna` drops a row of these columns
  unfoldable pub has_nan : List C → (C → F) → Bool
  has_nan [] r = false
  has_nan (c ∷ cs) r = np.is_nan (r c) || has_nan cs r

  unfoldable pub dropna : List C → List (C → F) → List (C → F)
  unfolding has_nan
  dropna cols [] = []
  dropna cols (r ∷ rs) = let rest = dropna cols rs in if has_nan cols r then rest else r ∷ rest

  unfoldable pub matrix_of : List C → C → C → List (C → F) → Matrix F
  matrix_of cols label_col fwdret_col rows = record {
    x = map (λ r. map r cols) rows;
    y = map (λ r. np.to_int (r label_col)) rows;
    fwd = map (λ r. r fwdret_col) rows;
  }

-- `feature_matrix`
unfoldable pub feature_matrix :
    {C F : Type 0} → Discrete C → Numpy F → Frame C F → List C → C → C → Result (Matrix F)
unfolding missing dropna matrix_of
feature_matrix dec np df cols label_col fwdret_col =
    let used = cols ++ label_col ∷ fwdret_col ∷ [] in
    let absent = missing dec df.columns used in
    if ltb 0 (length absent)
    then raise Error.key_error
    else ok (matrix_of np cols label_col fwdret_col (dropna np used df.rows))

-- `a[i]` and `a[indices]` on arrays
unfoldable pub get_elem? : {A : Type 0} → List A → ℕ → Option A
get_elem? [] i = none
get_elem? (x ∷ xs) zero = some x
get_elem? (x ∷ xs) (suc i) = get_elem? xs i

abbrev pub or_index_error : {A : Type 0} → Option A → Result A
or_index_error none = raise Error.index_error
or_index_error (some x) = ok x

unfoldable pub select : {A : Type 0} → List ℕ → List A → Result (List A)
unfolding get_elem?
select [] xs = ok []
select (i ∷ is) xs = do x ← or_index_error (get_elem? xs i); rest ← select is xs; ok (x ∷ rest)

-- an sklearn-style model: what `fit` makes of a fresh model, and `predict`
pub record Model (F M : Type 0) : Type 0 where
  pub fit : List (List F) → List ℤ → M
  pub predict : M → List (List F) → List ℤ

-- what a fold adds to oos_true, oos_pred, oos_fwd and per_fold
pub record Fold (F : Type 0) : Type 0 where
  pub true_ : List ℤ
  pub pred : List ℤ
  pub fwd : List F
  pub train : ℕ
  pub test : ℕ
  pub classification : Classification F
  pub strategy : Strategy F

pub record EvaluationResult (C F : Type 0) : Type 0 where
  pub n_samples : ℕ
  pub n_folds : ℕ
  pub n_skipped : ℕ
  pub feature_cols : List C
  pub pooled_classification : Classification F
  pub pooled_strategy : Strategy F
  pub per_fold : List (Fold F)

module _ {F M : Type 0} (model : Model F M) where
  -- The model of a fold: `none` for a training set with a single class.
  unfoldable pub train_fold : Matrix F → Split → Result (Option M)
  unfolding select
  train_fold m s = do
    y_train ← select s.train m.y
    if ltb (length (unique y_train)) 2
        then ok none
        else (do x_train ← select s.train m.x; ok (some (model.fit x_train y_train)))

abbrev pub add_fold : {F : Type 0} → Option (Fold F) → List (Fold F) × ℕ → List (Fold F) × ℕ
add_fold none (folds, skipped) = (folds, skipped + 1)
add_fold (some f) (folds, skipped) = (f ∷ folds, skipped)

module _ {F : Type 0} (np : Numpy F) (cost : F) where
  -- the end of `evaluate`, once the loop is done
  unfoldable pub pool :
      {C : Type 0} → List C → ℕ → List (Fold F) → ℕ → Result (EvaluationResult C F)
  pool cols n [] skipped = raise Error.value_error
  pool cols n (f ∷ fs) skipped =
      let folds = f ∷ fs in
      let yt = concat (map (λ g. g.true_) folds) in
      let yp = concat (map (λ g. g.pred) folds) in
      let fw = concat (map (λ g. g.fwd) folds) in
      ok (record {
        n_samples = n;
        n_folds = length folds;
        n_skipped = skipped;
        feature_cols = cols;
        pooled_classification = classification_metrics np yt yp;
        pooled_strategy = strategy_metrics np yp fw cost;
        per_fold = folds;
      })

module _ {F M : Type 0} (np : Numpy F) (model : Model F M) (cost : F) where
  unfoldable pub test_fold : Matrix F → Split → M → Result (Fold F)
  unfolding select
  test_fold m s fitted = do
    x_test ← select s.test m.x
    y_test ← select s.test m.y
    fwd_test ← select s.test m.fwd
    let pred = model.predict fitted x_test
    ok (record {
      true_ = y_test;
      pred = pred;
      fwd = fwd_test;
      train = length s.train;
      test = length s.test;
      classification = classification_metrics np y_test pred;
      strategy = strategy_metrics np pred fwd_test cost;
    })

  -- the body of the loop: `none` is a skipped fold
  unfoldable pub eval_fold_with : Matrix F → Split → Option M → Result (Option (Fold F))
  unfolding test_fold
  eval_fold_with m s none = ok none
  eval_fold_with m s (some fitted) = do f ← test_fold m s fitted; ok (some f)

  -- the loop over the splits, with the count of those skipped
  unfoldable pub eval_folds : Matrix F → List Split → Result (List (Fold F) × ℕ)
  unfolding train_fold eval_fold_with
  eval_folds m [] = ok ([], 0)
  eval_folds m (s ∷ splits) = do
    trained ← train_fold model m s
    fold ← eval_fold_with m s trained
    rest ← eval_folds m splits
    ok (add_fold fold rest)

  -- `evaluate`
  unfoldable pub evaluate :
      {C : Type 0}
      → Discrete C
      → Frame C F
      → ℤ
      → ℤ
      → ℤ
      → List C
      → C
      → C
      → Result (EvaluationResult C F)
  unfolding eval_folds pool
  evaluate dec df n_splits horizon embargo cols label_col fwdret_col = do
    m ← feature_matrix dec np df cols label_col fwdret_col
    splits ← walk_forward_splits (length m.y) n_splits horizon embargo (pos 1)
    (folds, skipped) ← eval_folds m splits
    pool np cost cols (length m.y) folds skipped
