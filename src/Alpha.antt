-- ===== src/Alpha.antt =====
-- `ImbalanceAlpha` of resources/alpha.py: the rule that trades with the flow. `fit` returns the
-- object itself, so its model is the alpha, whatever it is fitted to.
pub mod Signals
mod Tests
use nano_tick.Base.{
  ℕ, zero, suc, ◌+◌, Bool, true, false, ◌&&◌, Option, none, some, List, [], ◌∷◌, length, ltb,
  if◌then◌else◌, Result, ok, raise, ◌>>=◌, Error,
}
use nano_tick.Base.Int.{ℤ, pos, ◌-ℤ◌}
use nano_tick.Base.Numpy.{Numpy}
use mathlib.Core.Logic.{ite}
use nano_tick.Evaluation.{missing, get_elem?, or_index_error}

pub record ImbalanceAlpha (F : Type 0) : Type 0 where
  pub flow : ℕ
  pub quote : ℕ
  pub threshold : F

-- `cols.index(name)`
unfoldable pub index : {C : Type 0} → Discrete C → C → List C → Result ℕ
index dec c [] = raise Error.value_error
index dec c (d ∷ ds) = let rest = index dec c ds in ite (dec d c) (ok 0) (do i ← rest; ok (i + 1))

-- `ImbalanceAlpha.__init__`
unfoldable pub init : {C F : Type 0} → Discrete C → List C → C → C → F → Result (ImbalanceAlpha F)
unfolding missing index
init dec cols flow_col quote_col threshold =
    if ltb 0 (length (missing dec cols (flow_col ∷ quote_col ∷ [])))
    then raise Error.key_error
    else (do
      flow ← index dec flow_col cols
      quote ← index dec quote_col cols
      ok (record { flow = flow; quote = quote; threshold = threshold }))

-- `X[:, i]`
unfoldable pub column : {F : Type 0} → ℕ → List (List F) → Result (List F)
unfolding get_elem?
column i [] = ok []
column i (row ∷ rows) = do x ← or_index_error (get_elem? row i); xs ← column i rows; ok (x ∷ xs)

abbrev pub as_int : Bool → ℤ
as_int true = pos 1
as_int false = pos 0

module _ {F : Type 0} (np : Numpy F) where
  -- one item of `long_` and of `short`
  unfoldable pub is_long : F → F → F → Bool
  is_long th flow quote = np.gt flow th && np.gt quote th

  unfoldable pub is_short : F → F → F → Bool
  is_short th flow quote = np.gt (np.neg th) flow && np.gt (np.neg th) quote

  unfoldable pub signal : F → F → F → ℤ
  unfolding is_long is_short
  signal th flow quote = as_int (is_long th flow quote) -ℤ as_int (is_short th flow quote)

  unfoldable pub signals : F → List F → List F → List ℤ
  unfolding signal
  signals th [] quotes = []
  signals th (f ∷ fs) [] = []
  signals th (f ∷ fs) (q ∷ qs) = signal th f q ∷ signals th fs qs

  -- `ImbalanceAlpha.predict`
  unfoldable pub predict : ImbalanceAlpha F → List (List F) → Result (List ℤ)
  unfolding column signals
  predict a x = do
    flow ← column a.flow x
    quote ← column a.quote x
    ok (signals a.threshold flow quote)
