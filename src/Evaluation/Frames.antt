-- ===== src/Evaluation/Frames.antt =====
-- The matrix that `feature_matrix` of resources/evaluation.py makes of a frame.
use nano_tick.Base.{
  ◌≡◌, refl, true, false, List, [], ◌∷◌, ◌++◌, map, length, ltb, inl, inr, ◌↔◌, arith, Bool-cases,
  All, All-map, ok, sym, ap, ◌∙◌, ◌||◌,
}
use nano_tick.Base.Numpy.{Numpy}
use nano_tick.Evaluation.{Frame, Matrix, mem, missing, has_nan, dropna, matrix_of, feature_matrix}

module _ {C : Type 0} (dec : Discrete C) where
  -- Every name is a column.
  abbrev pub HasAll : List C → List C → Type 0
  HasAll columns names = All (λ c. mem dec c columns ≡ true) names

  pub missing-HasAll :
      (columns names : List C) → HasAll columns names → missing dec columns names ≡ []
  unfolding missing
  missing-HasAll columns [] h = refl
  missing-HasAll columns (c ∷ cs) h = rw h.0 (missing-HasAll columns cs h.1)

  pub HasAll-missing :
      (columns names : List C)
      → ltb 0 (length (missing dec columns names)) ≡ false
      → HasAll columns names
  unfolding missing
  HasAll-missing columns [] h = tt
  HasAll-missing columns (c ∷ cs) h = elim (Bool-cases (mem dec c columns)) [
    | inl there ↦ (there, HasAll-missing columns cs (ground arith))
    | inr gone ↦ ground arith
  ]

pub length-map : {A B : Type 0} (f : A → B) (xs : List A) → length (map f xs) ≡ length xs
length-map f [] = refl
length-map f (x ∷ xs) = omega (arith, length-map f xs)

All-append_parts :
    {A : Type 0} (P : A → Type 0) (xs ys : List A) → All P (xs ++ ys) → All P xs × All P ys
All-append_parts P [] ys h = (tt, h)
All-append_parts P (x ∷ xs) ys h = let (hx, hy) = All-append_parts P xs ys h.1 in ((h.0, hx), hy)

pub All-over_map :
    {A B : Type 0} (P : B → Type 0) (f : A → B) (xs : List A)
    → All (λ x. P (f x)) xs
    → All P (map f xs)
All-over_map P f [] h = tt
All-over_map P f (x ∷ xs) h = (h.0, All-over_map P f xs h.1)

-- The arrays have one length, and no number of the features or of the forward returns is a NaN.
pub record IsClean {F : Type 0} (np : Numpy F) (m : Matrix F) : Type 0 where
  pub as_many_labels : length m.y ≡ length m.x
  pub as_many_returns : length m.fwd ≡ length m.x
  pub features : All (λ row. All (λ a. np.is_nan a ≡ false) row) m.x
  pub returns : All (λ a. np.is_nan a ≡ false) m.fwd

module _ {C F : Type 0} (np : Numpy F) where
  -- No cell of these columns is a NaN.
  abbrev pub Filled : List C → (C → F) → Type 0
  Filled cols r = All (λ c. np.is_nan (r c) ≡ false) cols

  has_nan-Filled : (cols : List C) (r : C → F) → has_nan np cols r ≡ false → Filled cols r
  unfolding has_nan
  has_nan-Filled [] r h = tt
  has_nan-Filled (c ∷ cs) r h = (ground arith, has_nan-Filled cs r (ground arith))

  dropna-Filled : (cols : List C) (rows : List (C → F)) → All (Filled cols) (dropna np cols rows)
  unfolding dropna
  dropna-Filled cols [] = tt
  dropna-Filled cols (r ∷ rs) = elim (Bool-cases (has_nan np cols r)) [
    | inl bad ↦ rw bad (dropna-Filled cols rs)
    | inr good ↦ rw good (has_nan-Filled cols r good, dropna-Filled cols rs)
  ]

  -- `kept` are the rows in which all cells of these columns are filled, in their order.
  pub data Complete (cols : List C) : List (C → F) → List (C → F) → Type 0 where
    none_left : Complete cols [] []
    keep :
        {r : C → F} {rows kept : List (C → F)}
        → Filled cols r
        → Complete cols rows kept
        → Complete cols (r ∷ rows) (r ∷ kept)
    leave_out :
        {r : C → F} {rows kept : List (C → F)}
        → (Filled cols r → ⊥)
        → Complete cols rows kept
        → Complete cols (r ∷ rows) kept

  has_nan-not_Filled : (cols : List C) (r : C → F) → has_nan np cols r ≡ true → Filled cols r → ⊥
  unfolding has_nan
  has_nan-not_Filled [] r h f = absurd cc
  has_nan-not_Filled (c ∷ cs) r h f =
      has_nan-not_Filled cs r (ap (λ b. b || has_nan np cs r) (sym f.0) ∙ h) f.1

  dropna-Complete : (cols : List C) (rows : List (C → F)) → Complete cols rows (dropna np cols rows)
  unfolding dropna
  dropna-Complete cols [] = Complete.none_left
  dropna-Complete cols (r ∷ rs) = elim (Bool-cases (has_nan np cols r)) [
    | inl bad ↦
        rw bad (Complete.leave_out (has_nan-not_Filled cols r bad) (dropna-Complete cols rs))
    | inr good ↦ rw good (Complete.keep (has_nan-Filled cols r good) (dropna-Complete cols rs))
  ]

  -- The matrix has, for each complete row of the frame in its order, the features, the label and the
  -- forward return of that row.
  abbrev pub IsMatrixOf : List C → C → C → List (C → F) → Matrix F → Type 0
  IsMatrixOf cols label_col fwdret_col rows m =
      (kept : List (C → F)) × Complete (cols ++ label_col ∷ fwdret_col ∷ []) rows kept
      × (m.x ≡ map (λ r. map r cols) kept)
      × (m.y ≡ map (λ r. np.to_int (r label_col)) kept)
      × (m.fwd ≡ map (λ r. r fwdret_col) kept)

  matrix_of-IsMatrixOf :
      (cols : List C) (label_col fwdret_col : C) (rows : List (C → F))
      → IsMatrixOf cols label_col fwdret_col rows (
          matrix_of np cols label_col fwdret_col
            (dropna np (cols ++ label_col ∷ fwdret_col ∷ []) rows))
  unfolding matrix_of
  matrix_of-IsMatrixOf cols label_col fwdret_col rows =
      let used = cols ++ label_col ∷ fwdret_col ∷ [] in
      (dropna np used rows, dropna-Complete used rows, refl, refl, refl)

  pub matrix_of-IsClean :
      (cols : List C) (label_col fwdret_col : C) (rows : List (C → F))
      → let kept = dropna np (cols ++ label_col ∷ fwdret_col ∷ []) rows in
        IsClean np (matrix_of np cols label_col fwdret_col kept)
  unfolding matrix_of
  matrix_of-IsClean cols label_col fwdret_col rows =
      let used = cols ++ label_col ∷ fwdret_col ∷ [] in
      let kept = dropna np used rows in
      let filled = dropna-Filled used rows in
      let x = length-map (λ (r : C → F). map r cols) kept in
      record {
        as_many_labels = omega (arith, x, length-map (λ (r : C → F). np.to_int (r label_col)) kept);
        as_many_returns = omega (arith, x, length-map (λ (r : C → F). r fwdret_col) kept);
        features =
            All-over_map _ (λ r. map r cols) kept
              (All-map (Filled used) _
                (λ r h. All-over_map _ r cols (All-append_parts _ cols _ h).0) kept filled);
        returns =
            All-over_map _ (λ r. r fwdret_col) kept
              (All-map (Filled used) _ (λ r h. (All-append_parts _ cols _ h).1.1.0) kept filled);
      }

pub feature_matrix-ok :
    {C F : Type 0} (dec : Discrete C) (np : Numpy F) (df : Frame C F) (cols : List C)
    (label_col fwdret_col : C) (m : Matrix F)
    → feature_matrix dec np df cols label_col fwdret_col ≡ ok m
    → matrix_of np cols label_col fwdret_col
        (dropna np (cols ++ label_col ∷ fwdret_col ∷ []) df.rows)
      ≡ m
unfolding feature_matrix
feature_matrix-ok dec np df cols label_col fwdret_col m e = ground arith

pub feature_matrix-x :
    {C F : Type 0} (dec : Discrete C) (np : Numpy F) (df : Frame C F) (cols : List C)
    (label_col fwdret_col : C) (m : Matrix F)
    → feature_matrix dec np df cols label_col fwdret_col ≡ ok m
    → m.x ≡ map (λ r. map r cols) (dropna np (cols ++ label_col ∷ fwdret_col ∷ []) df.rows)
unfolding matrix_of
feature_matrix-x dec np df cols label_col fwdret_col m e =
    sym (ap (λ k. k.x) (feature_matrix-ok dec np df cols label_col fwdret_col m e))

pub feature_matrix_dropped :
    {C F : Type 0} (dec : Discrete C) (np : Numpy F) (df : Frame C F) (cols : List C)
    (label_col fwdret_col : C) (m : Matrix F)
    → feature_matrix dec np df cols label_col fwdret_col ≡ ok m
    → IsClean np m
feature_matrix_dropped dec np df cols label_col fwdret_col m e =
    rw (← feature_matrix-ok dec np df cols label_col fwdret_col m e)
      (matrix_of-IsClean np cols label_col fwdret_col df.rows)

-- `feature_matrix` returns exactly if each feature, the label and the forward return is a column of
-- the frame. X, y and fwd_ret then hold the features, the label and the forward return of each row of
-- the frame in which none of these is a NaN, in the order of the rows, and of no other row; they have
-- one length, and X and fwd_ret hold no NaN.
pub feature_matrix-IsMatrixOf :
    {C F : Type 0} (dec : Discrete C) (np : Numpy F) (df : Frame C F) (cols : List C)
    (label_col fwdret_col : C)
    → ((m : Matrix F) × (feature_matrix dec np df cols label_col fwdret_col ≡ ok m)
        × IsMatrixOf np cols label_col fwdret_col df.rows m
        × IsClean np m)
      ↔ HasAll dec df.columns (cols ++ label_col ∷ fwdret_col ∷ [])
unfolding feature_matrix
feature_matrix-IsMatrixOf dec np df cols label_col fwdret_col =
    let used = cols ++ label_col ∷ fwdret_col ∷ [] in
    (
      λ r. HasAll-missing dec df.columns used (ground arith),
      λ h. (
        matrix_of np cols label_col fwdret_col (dropna np used df.rows),
        rw (missing-HasAll dec df.columns used h) refl,
        matrix_of-IsMatrixOf np cols label_col fwdret_col df.rows,
        matrix_of-IsClean np cols label_col fwdret_col df.rows,
      ),
    )
