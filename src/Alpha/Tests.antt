-- ===== src/Alpha/Tests.antt =====
-- Runs of the alpha of resources/alpha.py on a small frame of integers, and the theorem on it there. In
-- the numbers 99 stands for NaN; the columns 1 and 2 are the imbalances of the flow and the quotes,
-- 3 is the label and 4 the forward return.
use nano_tick.Base.{ℕ, ◌≡◌, refl, [], ◌∷◌, map, ◌==◌, if◌then◌else◌, ok, raise, Error, arith, ◌↔◌}
use nano_tick.Base.Int.{ℤ, pos, negsuc, pos_part, neg_part, sub_ℕ, ltb_ℤ, ◌-ℤ◌}
use nano_tick.Base.Numpy.{Numpy}
use native.Mathlib.Decide.{ℕ_discrete}
use nano_tick.Evaluation.{
  Frame, Matrix, mem, missing, has_nan, dropna, matrix_of, feature_matrix, get_elem?,
}
use nano_tick.Evaluation.Frames.{HasAll}
use nano_tick.Evaluation.Metrics.{eqb_ℤ}
use nano_tick.Alpha.{
  ImbalanceAlpha, index, init, column, is_long, is_short, signal, signals, predict,
}
use nano_tick.Alpha.Signals.{IsTransitive, predict-signal}

program : Unit {0}
unfolding mem missing has_nan dropna matrix_of feature_matrix get_elem? index init column is_long
    is_short signal signals predict ◌-ℤ◌ ℕ_discrete
program = tt

abbrev ints : Numpy ℤ
ints = record {
  nought = pos 0;
  nan = pos 99;
  is_nan = λ x. eqb_ℤ x (pos 99);
  of_int = λ x. x;
  to_int = λ x. x;
  neg = λ x. sub_ℕ (neg_part x) (pos_part x);
  times = λ x y. x;
  minus = λ x y. x;
  over = λ x y. x;
  gt = λ x y. ltb_ℤ y x;
  share = λ a n. pos a;
  sum = λ xs. pos 0;
  mean = λ xs. pos 0;
  std = λ xs. pos 0;
}

abbrev row : ℤ → ℤ → ℕ → ℤ
row flow quote c = if c == 1 then flow else if c == 2 then quote else pos 0

abbrev frame : Frame ℕ ℤ
frame = record {
  columns = 1 ∷ 2 ∷ 3 ∷ 4 ∷ [];
  rows =
      row (pos 5) (pos 5)
      ∷ row (pos 99) (pos 5)
      ∷ row (negsuc 4) (negsuc 4)
      ∷ row (pos 5) (negsuc 4)
      ∷ row (pos 1) (pos 5)
      ∷ [];
}

abbrev matrix : Matrix ℤ
matrix = record {
  x =
      (pos 5 ∷ pos 5 ∷ [])
      ∷ (negsuc 4 ∷ negsuc 4 ∷ [])
      ∷ (negsuc 4 ∷ pos 5 ∷ [])
      ∷ (pos 5 ∷ pos 1 ∷ [])
      ∷ [];
  y = pos 0 ∷ pos 0 ∷ pos 0 ∷ pos 0 ∷ [];
  fwd = pos 0 ∷ pos 0 ∷ pos 0 ∷ pos 0 ∷ [];
}

-- the features in another order than the columns
matrix_test : feature_matrix ℕ_discrete ints frame (2 ∷ 1 ∷ []) 3 4 ≡ ok matrix
unfolding program
matrix_test = refl

abbrev alpha : ImbalanceAlpha ℤ
alpha = record { flow = 1; quote = 0; threshold = pos 1 }

init_test : init ℕ_discrete (2 ∷ 1 ∷ []) 1 2 (pos 1) ≡ ok alpha
unfolding program
init_test = refl

missing_test : init ℕ_discrete (2 ∷ []) 1 2 (pos 1) ≡ raise Error.key_error
unfolding program
missing_test = refl

predict_test : predict ints alpha matrix.x ≡ ok (pos 1 ∷ negsuc 0 ∷ pos 0 ∷ pos 0 ∷ [])
unfolding program
predict_test = refl

predict-signal_example :
    ((a : ImbalanceAlpha ℤ) × (init ℕ_discrete (2 ∷ 1 ∷ []) 1 2 (pos 1) ≡ ok a)
      × (predict ints a matrix.x
          ≡ ok (
              map
                (λ r. signal ints (pos 1) (r 1) (r 2))
                (dropna ints (2 ∷ 1 ∷ 3 ∷ 4 ∷ []) frame.rows))))
    ↔ HasAll ℕ_discrete (2 ∷ 1 ∷ []) (1 ∷ 2 ∷ [])
predict-signal_example =
    predict-signal ℕ_discrete ints (2 ∷ 1 ∷ []) 1 2 3 4 (pos 1) frame matrix matrix_test

ints-IsTransitive : IsTransitive ints
ints-IsTransitive x y z h k = ground arith
