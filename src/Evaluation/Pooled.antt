-- ===== src/Evaluation/Pooled.antt =====
-- What `evaluate` of resources/evaluation.py pools, and how it ends.
use nano_tick.Base.{ℕ, ◌+◌, ◌<◌, ◌≡◌, List, [], ◌∷◌, map, length, concat, ltb}
use nano_tick.Base.Int.{ℤ}
use nano_tick.Base.Numpy.{Numpy}
use nano_tick.WalkForward.{Split}
use nano_tick.Evaluation.{Matrix, Model, Fold, EvaluationResult}
use nano_tick.Evaluation.Metrics.{matches, trades, net, wins, or_nan}
use nano_tick.Evaluation.Ends.{FoldsOf}

-- a sum over the folds
abbrev pub sum_of : {A : Type 0} → (A → ℕ) → List A → ℕ
sum_of f [] = 0
sum_of f (x ∷ xs) = f x + sum_of f xs

module _ {F : Type 0} where
  abbrev pub all_true : List (Fold F) → List ℤ
  all_true folds = concat (map (λ g. g.true_) folds)

  abbrev pub all_pred : List (Fold F) → List ℤ
  all_pred folds = concat (map (λ g. g.pred) folds)

  abbrev pub all_fwd : List (Fold F) → List F
  all_fwd folds = concat (map (λ g. g.fwd) folds)

module _ {F : Type 0} (np : Numpy F) (cost : F) where
  -- The pooled arrays, against the arrays of the folds.
  pub record ArePooled (folds : List (Fold F)) : Type 0 where
    pub signals : length (all_pred folds) ≡ length (all_true folds)
    pub labels : length (all_true folds) ≡ sum_of (λ g. g.classification.n) folds
    pub hits :
        matches (all_true folds) (all_pred folds) ≡ sum_of (λ g. matches g.true_ g.pred) folds
    pub positions : trades (all_pred folds) ≡ sum_of (λ g. g.strategy.n_trades) folds
    pub winners :
        wins np cost (all_pred folds) (all_fwd folds)
        ≡ sum_of (λ g. wins np cost g.pred g.fwd) folds
    pub returns :
        net np cost (all_pred folds) (all_fwd folds)
        ≡ concat (map (λ g. net np cost g.pred g.fwd) folds)

-- The pooled metrics are those of all folds together: counts add up over the folds, the accuracy and
-- the hit rate are shares of the added counts, and the total is over the returns of all folds.
pub record Pools {C F : Type 0} (np : Numpy F) (cost : F) (r : EvaluationResult C F) : Type 0 where
  pub labels : r.pooled_classification.n ≡ sum_of (λ g. g.classification.n) r.per_fold
  pub accuracy :
      r.pooled_classification.accuracy
      ≡ or_nan np
          (ltb 0 r.pooled_classification.n)
          (np.share (sum_of (λ g. matches g.true_ g.pred) r.per_fold) r.pooled_classification.n)
  pub positions : r.pooled_strategy.n_trades ≡ sum_of (λ g. g.strategy.n_trades) r.per_fold
  pub hit_rate :
      r.pooled_strategy.hit_rate
      ≡ or_nan np
          (ltb 0 r.pooled_strategy.n_trades)
          (np.share (sum_of (λ g. wins np cost g.pred g.fwd) r.per_fold) r.pooled_strategy.n_trades)
  pub total :
      r.pooled_strategy.total_net_return
      ≡ np.sum (concat (map (λ g. net np cost g.pred g.fwd) r.per_fold))

-- What `evaluate` returns, for these splits of a matrix.
pub record IsEvaluation {C F M : Type 0} (np : Numpy F) (model : Model F M) (cost : F)
    (m : Matrix F) (splits : List Split) (r : EvaluationResult C F) : Type 0 where
  pub some_fold : 0 < r.n_folds
  pub counted : r.n_folds + r.n_skipped ≡ length splits
  pub listed : r.n_folds ≡ length r.per_fold
  pub folds : FoldsOf np model cost m splits r.per_fold r.n_skipped
  pub pooled : Pools np cost r
