-- ===== src/Evaluation/Leak.antt =====
-- What the model of a fold of resources/evaluation.py has seen.
use nano_tick.Base.{ℕ, ◌+◌, ◌<◌, ◌≡◌, refl, List, [], ◌∷◌, All, All-map, ok, inl, inr}
use nano_tick.Base.Int.{ℤ, pos}
use nano_tick.Batch.Dedup.{In}
use nano_tick.WalkForward.{Split, walk_forward_splits}
use nano_tick.WalkForward.Purge.{walk_forward_splits-IsPurged}
use nano_tick.Evaluation.{Matrix, Model, get_elem?, select, train_fold}

pub All-lookup : {T : Type 0} (P : T → Type 0) (x : T) (xs : List T) → All P xs → In x xs → P x
All-lookup P x [] h i = absurd i
All-lookup P x (y ∷ ys) h (inl e) = rw e h.0
All-lookup P x (y ∷ ys) h (inr i) = All-lookup P x ys h.1 i

select-agree :
    {A : Type 0} (is : List ℕ) (xs ys : List A)
    → All (λ i. get_elem? xs i ≡ get_elem? ys i) is
    → select is xs ≡ select is ys
unfolding select
select-agree [] xs ys h = refl
select-agree (i ∷ is) xs ys h = rw (h.0, select-agree is xs ys h.1) refl

-- The two tables have the same features and labels in each row that is more than `gap` rows before
-- all test rows of the split.
pub record AgreeBefore {F : Type 0} (gap : ℕ) (s : Split) (m m' : Matrix F) : Type 0 where
  pub same_features : (i : ℕ) → All (λ j. i + gap < j) s.test → get_elem? m.x i ≡ get_elem? m'.x i
  pub same_labels : (i : ℕ) → All (λ j. i + gap < j) s.test → get_elem? m.y i ≡ get_elem? m'.y i

-- The model of a fold is the same for two tables that agree in the rows more than horizon + embargo
-- before its test rows: no later row, so neither a test row nor a training label that looks into
-- the test block, has any influence on what is fitted or on whether the fold is skipped.
pub train_fold-no_leak :
    {F M : Type 0} (model : Model F M) (n : ℕ) (n_splits : ℤ) (h e : ℕ) (min_train : ℤ)
    (splits : List Split) (s : Split) (m m' : Matrix F)
    → walk_forward_splits n n_splits (pos h) (pos e) min_train ≡ ok splits
    → In s splits
    → AgreeBefore (h + e) s m m'
    → train_fold model m s ≡ train_fold model m' s
unfolding train_fold
train_fold-no_leak model n n_splits h e min_train splits s m m' r i a =
    let purged =
      (All-lookup _ s splits (walk_forward_splits-IsPurged n n_splits h e min_train splits r)
        i).0 in
    rw
      (
        select-agree s.train m.y m'.y (All-map _ _ (λ i w. a.same_labels i w) s.train purged),
        select-agree s.train m.x m'.x (All-map _ _ (λ i w. a.same_features i w) s.train purged),
      )
      refl
