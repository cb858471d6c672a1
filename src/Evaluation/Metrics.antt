-- ===== src/Evaluation/Metrics.antt =====
-- `classification_metrics` and `strategy_metrics` of resources/evaluation.py. Labels and signals are
-- integers. The arrays that are compared have one length, as those of `evaluate`; a longer one is cut.
use nano_tick.Base.{
  ℕ, zero, suc, ◌+◌, Bool, ◌&&◌, not, List, [], ◌∷◌, map, length, ltb, ◌==◌, if◌then◌else◌,
}
use nano_tick.Base.Int.{ℤ, pos, negsuc, pos_part, neg_part, ltb_ℤ}
use nano_tick.Base.Numpy.{Numpy}

pub record Classification (F : Type 0) : Type 0 where
  pub n : ℕ
  pub accuracy : F
  pub balanced_accuracy : F

pub record Strategy (F : Type 0) : Type 0 where
  pub n_trades : ℕ
  pub hit_rate : F
  pub mean_net_return : F
  pub total_net_return : F
  pub sharpe_per_bar : F

abbrev pub eqb_ℤ : ℤ → ℤ → Bool
eqb_ℤ a b = (pos_part a == pos_part b) && (neg_part a == neg_part b)

-- `np.unique`: the distinct values in rising order
unfoldable pub insert_unique : ℤ → List ℤ → List ℤ
insert_unique x [] = x ∷ []
insert_unique x (y ∷ ys) =
    let rest = insert_unique x ys in
    if ltb_ℤ x y then x ∷ y ∷ ys else if ltb_ℤ y x then y ∷ rest else y ∷ ys

unfoldable pub unique : List ℤ → List ℤ
unfolding insert_unique
unique [] = []
unique (x ∷ xs) = insert_unique x (unique xs)

-- the true items of `y_true == y_pred`
unfoldable pub matches : List ℤ → List ℤ → ℕ
matches [] ps = 0
matches (t ∷ ts) [] = 0
matches (t ∷ ts) (p ∷ ps) = let rest = matches ts ps in if eqb_ℤ t p then rest + 1 else rest

-- the true items of `y_true == c`
unfoldable pub count_of : ℤ → List ℤ → ℕ
count_of c [] = 0
count_of c (t ∷ ts) = let rest = count_of c ts in if eqb_ℤ t c then rest + 1 else rest

-- the true items of `y_pred[mask] == c`
unfoldable pub hits_of : ℤ → List ℤ → List ℤ → ℕ
hits_of c [] ps = 0
hits_of c (t ∷ ts) [] = 0
hits_of c (t ∷ ts) (p ∷ ps) =
    let rest = hits_of c ts ps in if eqb_ℤ t c && eqb_ℤ p c then rest + 1 else rest

-- `np.sign`
abbrev pub sign : ℤ → ℤ
sign (pos zero) = pos 0
sign (pos (suc n)) = pos 1
sign (negsuc n) = negsuc 0

abbrev pub is_traded : ℤ → Bool
is_traded p = not (eqb_ℤ (sign p) (pos 0))

-- `int(traded.sum())`
unfoldable pub trades : List ℤ → ℕ
trades [] = 0
trades (p ∷ ps) = let rest = trades ps in if is_traded p then rest + 1 else rest

module _ {F : Type 0} (np : Numpy F) where
  -- `float(np.mean(...)) if ... else float("nan")`
  abbrev pub or_nan : Bool → F → F
  or_nan b x = if b then x else np.nan

  -- the recalls of the loop over the classes
  unfoldable pub recalls : List ℤ → List ℤ → List ℤ → List F
  unfolding count_of hits_of
  recalls classes ts ps = map (λ c. np.share (hits_of c ts ps) (count_of c ts)) classes

  unfoldable pub classification_metrics : List ℤ → List ℤ → Classification F
  unfolding matches recalls unique
  classification_metrics y_true y_pred =
      let n = length y_true in
      let rs = recalls (unique y_true) y_true y_pred in
      record {
        n = n;
        accuracy = or_nan (ltb 0 n) (np.share (matches y_true y_pred) n);
        balanced_accuracy = or_nan (ltb 0 (length rs)) (np.mean rs);
      }

  -- `pos * fwd_ret - cost * traded`, per row
  abbrev pub net_of : F → ℤ → F → F
  net_of cost p f =
      let traded = if is_traded p then pos 1 else pos 0 in
      np.minus (np.times (np.of_int (sign p)) f) (np.times cost (np.of_int traded))

  unfoldable pub net : F → List ℤ → List F → List F
  net cost [] fs = []
  net cost (p ∷ ps) [] = []
  net cost (p ∷ ps) (f ∷ fs) = net_of cost p f ∷ net cost ps fs

  -- the true items of `net[traded] > 0`
  unfoldable pub wins : F → List ℤ → List F → ℕ
  wins cost [] fs = 0
  wins cost (p ∷ ps) [] = 0
  wins cost (p ∷ ps) (f ∷ fs) =
      let rest = wins cost ps fs in
      if is_traded p && np.gt (net_of cost p f) np.nought then rest + 1 else rest

  unfoldable pub strategy_metrics : List ℤ → List F → F → Strategy F
  unfolding trades net wins
  strategy_metrics y_pred fwd_ret cost =
      let nets = net cost y_pred fwd_ret in
      let n_trades = trades y_pred in
      let some_net = ltb 0 (length nets) in
      let std = if some_net then np.std nets else np.nought in
      record {
        n_trades = n_trades;
        hit_rate = or_nan (ltb 0 n_trades) (np.share (wins cost y_pred fwd_ret) n_trades);
        mean_net_return = or_nan some_net (np.mean nets);
        total_net_return = np.sum nets;
        sharpe_per_bar = or_nan (np.gt std np.nought) (np.over (np.mean nets) std);
      }
