-- ===== src/Evaluation/Ends.antt =====
-- How the loop of `evaluate` (resources/evaluation.py) over its splits ends.
use nano_tick.Base.{
  ℕ, zero, suc, ◌+◌, ◌<◌, ◌≡◌, refl, none, some, List, [], ◌∷◌, length, All, ok, inl, inr, ◌⊎◌,
  arith, Bool-cases, ltb,
}
use mathlib.Core.Path.{subst}
use nano_tick.Base.Int.{ℤ}
use nano_tick.Base.Numpy.{Numpy}
use nano_tick.WalkForward.{Split}
use nano_tick.WalkForward.Range.{InRange}
use nano_tick.Evaluation.{
  Matrix, Model, Fold, get_elem?, select, train_fold, test_fold, eval_fold_with, eval_folds,
  add_fold,
}
use nano_tick.Evaluation.Metrics.{unique, classification_metrics, strategy_metrics}
use nano_tick.Evaluation.Frames.{IsClean}

get_elem?-InRange :
    {A : Type 0} (xs : List A) (i : ℕ) → i < length xs → (x : A) × (get_elem? xs i ≡ some x)
unfolding get_elem?
get_elem?-InRange [] i h = absurd (omega arith)
get_elem?-InRange (x ∷ xs) zero h = (x, refl)
get_elem?-InRange (x ∷ xs) (suc i) h = get_elem?-InRange xs i (omega arith)

-- Rows in range are selected, one per index.
pub select-InRange :
    {A : Type 0} (is : List ℕ) (xs : List A)
    → All (λ i. i < length xs) is
    → (ys : List A) × (select is xs ≡ ok ys) × (length ys ≡ length is)
unfolding select
select-InRange [] xs h = ([], refl, refl)
select-InRange (i ∷ is) xs h =
    let (x, e) = get_elem?-InRange xs i h.0 in
    let (ys, e', size) = select-InRange is xs h.1 in (x ∷ ys, rw (e, e') refl, omega (arith, size))

-- `ys` holds the item of `xs` at each of these indices, in their order.
abbrev pub AtIndices : {A : Type 0} → List ℕ → List A → List A → Type 0
AtIndices [] xs ys = ys ≡ []
AtIndices (i ∷ is) xs [] = ⊥
AtIndices (i ∷ is) xs (y ∷ ys) = (get_elem? xs i ≡ some y) × AtIndices is xs ys

select-AtIndices :
    {A : Type 0} (is : List ℕ) (xs : List A)
    → All (λ i. i < length xs) is
    → (ys : List A) × (select is xs ≡ ok ys) × (length ys ≡ length is) × AtIndices is xs ys
unfolding select
select-AtIndices [] xs h = ([], refl, refl, refl)
select-AtIndices (i ∷ is) xs h =
    let (x, e) = get_elem?-InRange xs i h.0 in
    let (ys, e', size, at) = select-AtIndices is xs h.1 in
    (x ∷ ys, rw (e, e') refl, omega (arith, size), (e, at))

module _ {F M : Type 0} (np : Numpy F) (model : Model F M) (cost : F) where
  -- `predict` returns one signal per row.
  abbrev pub PredictsAll : Type 0
  PredictsAll = (fitted : M) (x : List (List F)) → length (model.predict fitted x) ≡ length x

  -- The arrays of a fold have one length, and its metrics are those of its arrays.
  pub record IsFold (f : Fold F) : Type 0 where
    pub as_many_signals : length f.pred ≡ length f.true_
    pub as_many_returns : length f.fwd ≡ length f.true_
    pub classified : f.classification ≡ classification_metrics np f.true_ f.pred
    pub traded : f.strategy ≡ strategy_metrics np f.pred f.fwd cost

  -- The model was fitted on the training rows of the split, and the fold has the labels and the returns of
  -- its test rows and what the model predicts on them.
  pub record IsFoldOf (m : Matrix F) (s : Split) (fitted : M) (f : Fold F) : Type 0 where
    pub measured : IsFold f
    pub trained_x : List (List F)
    pub trained_y : List ℤ
    pub train_rows : AtIndices s.train m.x trained_x
    pub train_labels : AtIndices s.train m.y trained_y
    pub trained : fitted ≡ model.fit trained_x trained_y
    pub tested_x : List (List F)
    pub test_rows : AtIndices s.test m.x tested_x
    pub predicted : f.pred ≡ model.predict fitted tested_x
    pub labels : AtIndices s.test m.y f.true_
    pub returns : AtIndices s.test m.fwd f.fwd
    pub train_size : f.train ≡ length s.train
    pub test_size : f.test ≡ length s.test

  -- The folds, and the count of those skipped, of these splits in their order.
  pub data FoldsOf (m : Matrix F) : List Split → List (Fold F) → ℕ → Type 0 where
    no_splits : FoldsOf m [] [] 0
    single_class :
        {s : Split} {splits : List Split} {folds : List (Fold F)} {n : ℕ}
        → train_fold model m s ≡ ok none
        → FoldsOf m splits folds n
        → FoldsOf m (s ∷ splits) folds (suc n)
    scored :
        {s : Split} {splits : List Split} {folds : List (Fold F)} {n : ℕ} (fitted : M) (f : Fold F)
        → IsFoldOf m s fitted f
        → FoldsOf m splits folds n
        → FoldsOf m (s ∷ splits) (f ∷ folds) n

  pub FoldsOf-IsFold :
      (m : Matrix F) (splits : List Split) (folds : List (Fold F)) (n : ℕ)
      → FoldsOf m splits folds n
      → All IsFold folds
  FoldsOf-IsFold m _ _ _ no_splits = tt
  FoldsOf-IsFold m _ _ _ (single_class e rest) = FoldsOf-IsFold m _ _ _ rest
  FoldsOf-IsFold m _ _ _ (scored fitted f is_fold rest) =
      (is_fold.measured, FoldsOf-IsFold m _ _ _ rest)

  test_fold-IsFold :
      PredictsAll
      → (m : Matrix F) (s : Split) (fitted : M) (tx : List (List F)) (ty : List ℤ) → IsClean np m
      → InRange (length m.x) s
      → AtIndices s.train m.x tx
      → AtIndices s.train m.y ty
      → fitted ≡ model.fit tx ty
      → (f : Fold F) × (test_fold np model cost m s fitted ≡ ok f) × IsFoldOf m s fitted f
  unfolding test_fold
  test_fold-IsFold law m s fitted tx ty c r at_tx at_ty fit =
      let (x, ex, nx, at_x) = select-AtIndices s.test m.x r.1 in
      let (y, ey, ny, at_y) = select-AtIndices s.test m.y (rw c.as_many_labels r.1) in
      let (w, ew, nw, at_w) = select-AtIndices s.test m.fwd (rw c.as_many_returns r.1) in
      (
        record {
          true_ = y;
          pred = model.predict fitted x;
          fwd = w;
          train = length s.train;
          test = length s.test;
          classification = classification_metrics np y (model.predict fitted x);
          strategy = strategy_metrics np (model.predict fitted x) w cost;
        },
        rw (ex, ey, ew) refl,
        record {
          measured = record {
            as_many_signals = omega (arith, law fitted x);
            as_many_returns = omega arith;
            classified = refl;
            traded = refl;
          };
          trained_x = tx;
          trained_y = ty;
          train_rows = at_tx;
          train_labels = at_ty;
          trained = fit;
          tested_x = x;
          test_rows = at_x;
          predicted = refl;
          labels = at_y;
          returns = at_w;
          train_size = refl;
          test_size = refl;
        },
      )

  -- What training a fold ends with.
  train_fold_cases :
      (m : Matrix F) (s : Split)
      → IsClean np m
      → InRange (length m.x) s
      → (train_fold model m s ≡ ok none)
        ⊎ ((tx : List (List F)) × (ty : List ℤ) × (train_fold model m s
              ≡ ok (some (model.fit tx ty)))
            × AtIndices s.train m.x tx
            × AtIndices s.train m.y ty)
  unfolding train_fold
  train_fold_cases m s c r =
      let (x, ex, nx, at_x) = select-AtIndices s.train m.x r.0 in
      let (y, ey, ny, at_y) = select-AtIndices s.train m.y (rw c.as_many_labels r.0) in
      elim (Bool-cases (ltb (length (unique y)) 2)) [
        | inl single ↦ inl (rw (ey, single) refl)
        | inr several ↦ inr (x, y, rw (ey, several, ex) refl, at_x, at_y)
      ]

  -- The loop over the splits ends; its folds and its skips are as many as the splits.
  pub record RunsTo (m : Matrix F) (splits : List Split) (r : List (Fold F) × ℕ) : Type 0 where
    pub ended : eval_folds np model cost m splits ≡ ok r
    pub folds : FoldsOf m splits r.0 r.1
    pub counted : length r.0 + r.1 ≡ length splits
    pub all_skipped : r.0 ≡ [] → All (λ s. train_fold model m s ≡ ok none) splits

  pub eval_folds-RunsTo :
      PredictsAll
      → (m : Matrix F) (splits : List Split) → IsClean np m
      → All (InRange (length m.x)) splits
      → (r : List (Fold F) × ℕ) × RunsTo m splits r
  unfolding eval_folds eval_fold_with
  eval_folds-RunsTo law m [] c h = (
    ([], 0),
    record { ended = refl; folds = FoldsOf.no_splits; counted = refl; all_skipped = λ e. tt },
  )
  eval_folds-RunsTo law m (s ∷ splits) c h =
      let (r, rest) = eval_folds-RunsTo law m splits c h.1 in
      elim (train_fold_cases m s c h.0) [
        | inl e ↦ (
          add_fold none r,
          record {
            ended = rw (e, rest.ended) refl;
            folds =
                subst (FoldsOf m (s ∷ splits) r.0) (omega arith)
                  (FoldsOf.single_class e rest.folds);
            counted = omega (arith, rest.counted);
            all_skipped = λ k. (e, rest.all_skipped k);
          },
        )
        | inr (tx, ty, e, at_tx, at_ty) ↦
            let fitted = model.fit tx ty in
            let (f, e', is_fold) = test_fold-IsFold law m s fitted tx ty c h.0 at_tx at_ty refl in
            (
              add_fold (some f) r,
              record {
                ended = rw (e, e', rest.ended) refl;
                folds = FoldsOf.scored fitted f is_fold rest.folds;
                counted = omega (arith, rest.counted);
                all_skipped = λ k. absurd cc;
              },
            )
      ]
