-- ===== src/Evaluation/Tests.antt =====
-- Runs of resources/evaluation.py on a small frame, and its theorems at concrete inputs. The numbers
-- are integers, in which 99 stands for NaN and a share counts per cent; column 1 is the feature, 2
-- the label and 3 the forward return.
use nano_tick.Base.{
  ℕ, zero, suc, ◌+◌, ◌*◌, ◌/◌, ◌<◌, ◌≡◌, refl, List, [], ◌∷◌, map, length, ◌==◌, if◌then◌else◌,
  Result, ok, raise, Error, arith, All, ◌↔◌, inl, inr,
}
use nano_tick.Base.Int.{ℤ, pos, negsuc, pos_part, neg_part, sub_ℕ, ltb_ℤ, ◌+ℤ◌, ◌-ℤ◌}
use nano_tick.Base.Numpy.{Numpy}
use native.Mathlib.Decide.{ℕ_discrete}
use nano_tick.WalkForward.{
  Split, walk_forward_splits, splits_from, split_at, fold_size, train_end, test_end,
}
use nano_tick.Evaluation.{
  Frame, Matrix, Model, EvaluationResult, mem, missing, has_nan, dropna, matrix_of, feature_matrix,
  get_elem?, select, train_fold, test_fold, eval_fold_with, eval_folds, pool, evaluate,
}
use nano_tick.Evaluation.Metrics.{
  eqb_ℤ, unique, insert_unique, matches, count_of, hits_of, trades, recalls, net, wins,
  classification_metrics, strategy_metrics,
}
use nano_tick.Evaluation.Frames.{HasAll, IsClean, feature_matrix-IsMatrixOf, IsMatrixOf}
use nano_tick.Evaluation.Classes.{sum_over}
use nano_tick.Evaluation.Recalls.{AreRecalls, classification_metrics_lem}
use nano_tick.Evaluation.Leak.{AgreeBefore, train_fold-no_leak}

program : Unit {0}
unfolding walk_forward_splits splits_from split_at fold_size train_end test_end ◌-ℤ◌ ◌+ℤ◌ mem
    missing has_nan dropna matrix_of feature_matrix get_elem? select train_fold test_fold
    eval_fold_with eval_folds pool evaluate unique insert_unique matches count_of hits_of trades
    recalls net wins classification_metrics strategy_metrics ℕ_discrete
program = tt

abbrev times : ℤ → ℤ → ℤ
times a b =
    sub_ℕ (pos_part a * pos_part b + neg_part a * neg_part b)
      (pos_part a * neg_part b + neg_part a * pos_part b)

abbrev total : List ℤ → ℤ
total [] = pos 0
total (x ∷ xs) = x +ℤ total xs

abbrev ints : Numpy ℤ
ints = record {
  nought = pos 0;
  nan = pos 99;
  is_nan = λ x. eqb_ℤ x (pos 99);
  of_int = λ x. x;
  to_int = λ x. x;
  neg = λ x. sub_ℕ (neg_part x) (pos_part x);
  times = times;
  minus = λ x y. x -ℤ y;
  over = λ x y. x;
  gt = λ x y. ltb_ℤ y x;
  share = λ a n. pos (100 * a / n);
  sum = total;
  mean = λ xs. pos (pos_part (total xs) / length xs);
  std = λ xs. pos 1;
}

abbrev row : ℤ → ℤ → ℤ → ℕ → ℤ
row feature label ret c = if c == 1 then feature else if c == 2 then label else ret

abbrev frame : Frame ℕ ℤ
frame = record {
  columns = 1 ∷ 2 ∷ 3 ∷ 4 ∷ [];
  rows =
      row (pos 5) (pos 1) (pos 3)
      ∷ row (pos 2) (negsuc 0) (negsuc 1)
      ∷ row (pos 99) (pos 0) (pos 0)
      ∷ row (pos 1) (pos 0) (pos 1)
      ∷ row (pos 3) (pos 1) (pos 4)
      ∷ row (pos 4) (pos 1) (pos 2)
      ∷ row (pos 7) (negsuc 0) (negsuc 4)
      ∷ [];
}

-- a model that predicts the last label that it was fitted to
abbrev last_label : List ℤ → ℤ
last_label [] = pos 0
last_label (y ∷ []) = y
last_label (y ∷ z ∷ ys) = last_label (z ∷ ys)

abbrev model : Model ℤ ℤ
model = record { fit = λ x y. last_label y; predict = λ last x. map (λ r. last) x }

abbrev matrix : Matrix ℤ
matrix = record {
  x = (pos 5 ∷ []) ∷ (pos 2 ∷ []) ∷ (pos 1 ∷ []) ∷ (pos 3 ∷ []) ∷ (pos 4 ∷ []) ∷ (pos 7 ∷ []) ∷ [];
  y = pos 1 ∷ negsuc 0 ∷ pos 0 ∷ pos 1 ∷ pos 1 ∷ negsuc 0 ∷ [];
  fwd = pos 3 ∷ negsuc 1 ∷ pos 1 ∷ pos 4 ∷ pos 2 ∷ negsuc 4 ∷ [];
}

missing_test : feature_matrix ℕ_discrete ints frame (1 ∷ 7 ∷ []) 2 3 ≡ raise Error.key_error
unfolding program
missing_test = refl

metrics_test :
    classification_metrics ints
      (pos 1 ∷ pos 1 ∷ negsuc 0 ∷ pos 1 ∷ [])
      (pos 1 ∷ pos 1 ∷ pos 1 ∷ pos 1 ∷ [])
    ≡ record { n = 4; accuracy = pos 75; balanced_accuracy = pos 50 }
unfolding program
metrics_test = refl

strategy_test :
    strategy_metrics ints (pos 1 ∷ pos 0 ∷ negsuc 0 ∷ []) (pos 4 ∷ pos 9 ∷ pos 2 ∷ []) (pos 1)
    ≡ record {
      n_trades = 2;
      hit_rate = pos 50;
      mean_net_return = pos 0;
      total_net_return = pos 0;
      sharpe_per_bar = pos 0;
    }
unfolding program
strategy_test = refl

abbrev splits : List Split
splits =
    record { train = 0 ∷ []; test = 2 ∷ 3 ∷ [] }
    ∷ record { train = 0 ∷ 1 ∷ 2 ∷ []; test = 4 ∷ 5 ∷ [] }
    ∷ []

splits_test : walk_forward_splits 6 (pos 2) (pos 1) (pos 0) (pos 1) ≡ ok splits
unfolding program
splits_test = refl

abbrev result : Result (EvaluationResult ℕ ℤ)
result = evaluate ints model (pos 1) ℕ_discrete frame (pos 2) (pos 1) (pos 0) (1 ∷ []) 2 3

abbrev pooled : Result (EvaluationResult ℕ ℤ) → ℕ × ℕ × ℕ
pooled (ok r) = (r.n_folds, r.n_skipped, r.pooled_strategy.n_trades)
pooled (raise e) = (0, 0, 0)

-- the first fold is skipped, and the second one predicts the label 0 of its last training row
evaluate_test : pooled result ≡ (1, 1, 0)
unfolding program
evaluate_test = refl

feature_matrix-IsMatrixOf_example :
    ((m : Matrix ℤ) × (feature_matrix ℕ_discrete ints frame (1 ∷ []) 2 3 ≡ ok m)
      × IsMatrixOf ints (1 ∷ []) 2 3 frame.rows m
      × IsClean ints m)
    ↔ HasAll ℕ_discrete (1 ∷ 2 ∷ 3 ∷ 4 ∷ []) (1 ∷ 2 ∷ 3 ∷ [])
feature_matrix-IsMatrixOf_example = feature_matrix-IsMatrixOf ℕ_discrete ints frame (1 ∷ []) 2 3

classification_metrics_lem_example :
    let ys = pos 1 ∷ pos 0 ∷ pos 1 ∷ [] in
    let ps = pos 1 ∷ pos 1 ∷ pos 0 ∷ [] in
    AreRecalls ys ps (unique ys)
    × (classification_metrics ints ys ps ≡ record {
      n = 3;
      accuracy = pos (
          100
          * sum_over (λ c. hits_of c ys ps) (unique ys)
          / sum_over (λ c. count_of c ys) (unique ys));
      balanced_accuracy =
          ints.mean (map (λ c. ints.share (hits_of c ys ps) (count_of c ys)) (unique ys));
    })
classification_metrics_lem_example =
    classification_metrics_lem ints (pos 1) (pos 0 ∷ pos 1 ∷ []) (pos 1 ∷ pos 1 ∷ pos 0 ∷ [])

-- the same table with other labels in the test rows and in the row before them
abbrev later_changed : Matrix ℤ
later_changed = record matrix { y = pos 1 ∷ negsuc 0 ∷ pos 0 ∷ negsuc 0 ∷ pos 0 ∷ pos 0 ∷ [] }

agree : AgreeBefore 1 (record { train = 0 ∷ 1 ∷ 2 ∷ []; test = 4 ∷ 5 ∷ [] }) matrix later_changed
unfolding program
agree = record { same_features = λ i h. refl; same_labels = labels }
  where
    labels :
        (i : ℕ)
        → All (λ j. i + 1 < j) (4 ∷ 5 ∷ [])
        → get_elem? matrix.y i ≡ get_elem? later_changed.y i
    labels zero h = refl
    labels (suc zero) h = refl
    labels (suc (suc zero)) h = refl
    labels (suc (suc (suc i))) h = absurd (omega (arith, h.0))

train_fold-no_leak_example :
    train_fold model matrix (record { train = 0 ∷ 1 ∷ 2 ∷ []; test = 4 ∷ 5 ∷ [] })
    ≡ train_fold model later_changed (record { train = 0 ∷ 1 ∷ 2 ∷ []; test = 4 ∷ 5 ∷ [] })
train_fold-no_leak_example =
    train_fold-no_leak model 6 (pos 2) 1 0 (pos 1) splits
      (record { train = 0 ∷ 1 ∷ 2 ∷ []; test = 4 ∷ 5 ∷ [] }) matrix later_changed splits_test
      (inr (inl refl)) agree
