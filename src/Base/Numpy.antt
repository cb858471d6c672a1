-- ===== src/Base/Numpy.antt =====
-- What the analysis code uses of numpy's and pandas' 64-bit floats, as an interface: `F` is any type
-- of numbers with these operations. The reductions take the array that they reduce.
use nano_tick.Base.{ℕ, Bool, List}
use nano_tick.Base.Int.{ℤ}

pub record Numpy (F : Type 0) : Type 0 where
  pub nought : F
  pub nan : F
  pub is_nan : F → Bool
  pub of_int : ℤ → F
  -- `astype(int)`
  pub to_int : F → ℤ
  pub neg : F → F
  pub times : F → F → F
  pub minus : F → F → F
  pub over : F → F → F
  pub gt : F → F → Bool
  -- the mean of a Boolean array, by its count of true items and its length
  pub share : ℕ → ℕ → F
  pub sum : List F → F
  pub mean : List F → F
  pub std : List F → F
