-- ===== src/Alpha/Signals.antt =====
-- What the alpha of resources/alpha.py predicts on the features of resources/evaluation.py.
use nano_tick.Base.{
  ℕ, suc, ◌+◌, ◌≡◌, refl, sym, ap, ◌∙◌, Bool, true, false, ◌&&◌, some, List, [], ◌∷◌, ◌++◌, map,
  Result-cases, ok_injective, ok, ◌>>=◌, inl, inr, ◌↔◌, arith,
}
use nano_tick.Base.Int.{pos, negsuc, ◌-ℤ◌}
use nano_tick.Base.Numpy.{Numpy}
use mathlib.Core.Logic.{if_pos, if_neg}
use nano_tick.Evaluation.{mem, get_elem?, Frame, Matrix, feature_matrix, dropna}
use nano_tick.Evaluation.Frames.{HasAll, HasAll-missing, missing-HasAll, feature_matrix-x}
use nano_tick.Alpha.{
  ImbalanceAlpha, index, init, column, as_int, is_long, is_short, signal, signals, predict,
}

index-mem :
    {C : Type 0} (dec : Discrete C) (c : C) (cols : List C)
    → mem dec c cols ≡ true
    → (i : ℕ) × (index dec c cols ≡ ok i)
unfolding mem index
index-mem dec c [] h = ground arith
index-mem dec c (d ∷ ds) h = elim (dec d c) [
  | yes e ↦ (0, if_pos (dec d c) e _ _)
  | no n ↦
      let (i, e) = index-mem dec c ds (sym (if_neg (dec d c) n _ _) ∙ h) in
      (i + 1, if_neg (dec d c) n _ _ ∙ ap (λ r. r >>= λ i. ok (i + 1)) e)
]

-- The cell of a row at the index of a name is the cell of that name.
index-get_elem? :
    {C F : Type 0} (dec : Discrete C) (c : C) (cols : List C) (i : ℕ) (r : C → F)
    → index dec c cols ≡ ok i
    → get_elem? (map r cols) i ≡ some (r c)
unfolding index get_elem?
index-get_elem? dec c [] i r h = ground arith
index-get_elem? dec c (d ∷ ds) i r h = elim (dec d c) [
  | yes e ↦
      let first : 0 ≡ i = ok_injective (sym (if_pos (dec d c) e _ _) ∙ h) in
      rw (← first) (ap some (ap r e))
  | no n ↦
      let later = sym (if_neg (dec d c) n _ _) ∙ h in
      elim (Result-cases (index dec c ds)) [
        | inl (j, e) ↦
            let next : suc j ≡ i =
              omega (arith, ok_injective (sym (ap (λ k. k >>= λ i. ok (i + 1)) e) ∙ later)) in
            rw (← next) (index-get_elem? dec c ds j r e)
        | inr (x, e) ↦ absurd (ground (arith, sym (ap (λ k. k >>= λ i. ok (i + 1)) e) ∙ later))
      ]
]

module _ {C F : Type 0} (dec : Discrete C) (np : Numpy F) (cols : List C) where
  column-index :
      (c : C) (i : ℕ) (rows : List (C → F))
      → index dec c cols ≡ ok i
      → column i (map (λ r. map r cols) rows) ≡ ok (map (λ r. r c) rows)
  unfolding column
  column-index c i [] e = refl
  column-index c i (r ∷ rs) e = rw (index-get_elem? dec c cols i r e, column-index c i rs e) refl

  signals-map :
      (th : F) (c d : C) (rows : List (C → F))
      → signals np th (map (λ r. r c) rows) (map (λ r. r d) rows)
        ≡ map (λ r. signal np th (r c) (r d)) rows
  unfolding signals
  signals-map th c d [] = refl
  signals-map th c d (r ∷ rs) = ap (◌∷◌ (signal np th (r c) (r d))) (signals-map th c d rs)

  -- An alpha is made exactly if both of its columns are among the features. On the features that
  -- `feature_matrix` extracts it then predicts one signal per row that is kept, which is that of
  -- its rule on the two named columns of this row.
  pub predict-signal :
      (flow_col quote_col label_col fwdret_col : C) (threshold : F) (df : Frame C F) (m : Matrix F)
      → feature_matrix dec np df cols label_col fwdret_col ≡ ok m
      → ((a : ImbalanceAlpha F) × (init dec cols flow_col quote_col threshold ≡ ok a)
          × (predict np a m.x
              ≡ ok (
                  map
                    (λ r. signal np threshold (r flow_col) (r quote_col))
                    (dropna np (cols ++ label_col ∷ fwdret_col ∷ []) df.rows))))
        ↔ HasAll dec cols (flow_col ∷ quote_col ∷ [])
  unfolding init predict
  predict-signal flow_col quote_col label_col fwdret_col threshold df m e = (
    λ h. HasAll-missing dec cols (flow_col ∷ quote_col ∷ []) (ground arith),
    λ h.
        let (i, ei) = index-mem dec flow_col cols h.0 in
        let (j, ej) = index-mem dec quote_col cols h.1.0 in
        let rows = dropna np (cols ++ label_col ∷ fwdret_col ∷ []) df.rows in
        (
          record { flow = i; quote = j; threshold = threshold },
          rw (missing-HasAll dec cols (flow_col ∷ quote_col ∷ []) h, ei, ej) refl,
          rw
              (
                feature_matrix-x dec np df cols label_col fwdret_col m e,
                column-index flow_col i rows ei,
                column-index quote_col j rows ej,
                signals-map threshold flow_col quote_col rows,
              )
              refl,
        ),
  )

-- The comparison is transitive, as that of floats is.
abbrev pub IsTransitive : {F : Type 0} → Numpy F → Type 0
IsTransitive np = (x y z : _) → np.gt x y ≡ true → np.gt y z ≡ true → np.gt x z ≡ true

-- Both imbalances are over the threshold, or both under its negation.
abbrev pub BothUp : {F : Type 0} → Numpy F → F → F → F → Type 0
BothUp np th flow quote = (np.gt flow th ≡ true) × (np.gt quote th ≡ true)

abbrev pub BothDown : {F : Type 0} → Numpy F → F → F → F → Type 0
BothDown np th flow quote = (np.gt (np.neg th) flow ≡ true) × (np.gt (np.neg th) quote ≡ true)

signal_cases :
    (a b c d : Bool)
    → (c ≡ true → a ≡ true → ⊥)
    → let s = as_int (a && b) -ℤ as_int (c && d) in
      ((s ≡ pos 1) ↔ ((a ≡ true) × (b ≡ true)))
      × ((s ≡ negsuc 0) ↔ ((c ≡ true) × (d ≡ true)))
      × ((s ≡ pos 0) ↔ ((¬ ((a ≡ true) × (b ≡ true))) × (¬ ((c ≡ true) × (d ≡ true)))))
unfolding ◌-ℤ◌
signal_cases a b c d h = grind arith

-- For a threshold that is not below its negation the signal is 1 exactly if both imbalances are
-- over the threshold, -1 exactly if both are under its negation, and 0 exactly if neither holds.
pub signal_iff :
    {F : Type 0} (np : Numpy F) (th flow quote : F)
    → IsTransitive np
    → np.gt (np.neg th) th ≡ false
    → ((signal np th flow quote ≡ pos 1) ↔ BothUp np th flow quote)
      × ((signal np th flow quote ≡ negsuc 0) ↔ BothDown np th flow quote)
      × ((signal np th flow quote ≡ pos 0)
          ↔ ((¬ BothUp np th flow quote) × (¬ BothDown np th flow quote)))
unfolding signal is_long is_short ◌-ℤ◌
signal_iff np th flow quote o h =
    signal_cases (np.gt flow th) (np.gt quote th) (np.gt (np.neg th) flow) (np.gt (np.neg th) quote)
      (λ down up. absurd (ground (arith, o (np.neg th) flow th down up)))
