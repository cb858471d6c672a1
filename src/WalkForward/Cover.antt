-- ===== src/WalkForward/Cover.antt =====
-- The test folds of resources/evaluation.py: which blocks are tested, and their rows.
use nano_tick.Base.{
  ℕ, zero, suc, ◌+◌, ◌-◌, ◌*◌, ◌≤◌, ◌<◌, ◌≡◌, refl, true, false, List, [], ◌∷◌, ◌++◌, inl, inr, ◌⊎◌,
  arith, Bool-cases, count_from, count_from-append, append-nil, length, ok, sym, ap, ◌∙◌,
  ok_injective, ◌==◌,
}
use mathlib.Core.Path.{subst}
use nano_tick.Base.Int.{ℤ, pos, pos_part, -ℤ_parts, ltb_ℤ, ◌≤ℤ◌, ge_ℤ, lt_ℤ, not_lt_ℤ, ◌-ℤ◌}
use nano_tick.WalkForward.{
  Split, arange, test_end, train_end, split_at, splits_from, fold_size, walk_forward_splits,
}
use nano_tick.WalkForward.Purge.{runs-IsAccepted, accepted_runs}

-- all test rows, fold after fold
abbrev pub test_rows : List Split → List ℕ
test_rows [] = []
test_rows (s ∷ l) = s.test ++ test_rows l

pub fold_size-mul-le : (n p : ℕ) → (p + 1) * fold_size n p ≤ n
unfolding fold_size
fold_size-mul-le n p = grind arith

arange-append : (a b c : ℕ) → a ≤ b → b ≤ c → arange a b ++ arange b c ≡ arange a c
arange-append a b c h k =
    let middle : a + (b - a) ≡ b = omega arith in
    let total : b - a + (c - b) ≡ c - a = omega arith in
    ap (λ x. arange a b ++ count_from x (c - b)) (sym middle)
    ∙ count_from-append a (b - a) (c - b)
    ∙ ap (count_from a) total

le_cases : (k j : ℕ) → k ≤ j → (k ≡ j) ⊎ (k + 1 ≤ j)
le_cases k j h = grind arith

-- to prove a statement from `k` on, prove it at `k` and from `k + 1` on
from_next : (P : ℕ → Type 0) (k j : ℕ) → k ≤ j → P k → (k + 1 ≤ j → P j) → P j
from_next P k j h here later = elim (le_cases k j h) [ inl e ↦ subst P e here | inr l ↦ later l ]

module _ (n n_splits : ℕ) (horizon embargo min_train : ℤ) (fold : ℕ) where
  train_end_mono :
      (k : ℕ)
      → ltb_ℤ (train_end horizon embargo fold k) min_train ≡ false
      → ltb_ℤ (train_end horizon embargo fold (k + 1)) min_train ≡ false
  unfolding train_end
  train_end_mono k h = not_lt_ℤ (train_end horizon embargo fold (k + 1)) min_train (
      omega (
        arith,
        ge_ℤ (train_end horizon embargo fold k) min_train h,
        -ℤ_parts (pos (k * fold)) horizon,
        -ℤ_parts (pos (k * fold) -ℤ horizon) embargo,
        -ℤ_parts (pos ((k + 1) * fold)) horizon,
        -ℤ_parts (pos ((k + 1) * fold) -ℤ horizon) embargo,
      ))

  -- once a fold is tested, so are all later ones, and together they tile the rows to the end.
  tested :
      (k rounds : ℕ)
      → k + rounds ≡ n_splits
      → (n_splits + 1) * fold ≤ n
      → ltb_ℤ (train_end horizon embargo fold k) min_train ≡ false
      → let splits = splits_from n n_splits horizon embargo min_train fold k (suc rounds) in
        (test_rows splits ≡ arange (k * fold) n) × (length splits ≡ suc rounds)
  unfolding splits_from split_at test_end
  tested k zero e bound h =
      let last : (k == n_splits) ≡ true = ground arith in (rw (h, last) (append-nil _), rw h)
  tested k (suc rounds) e bound h =
      let more : (k == n_splits) ≡ false = ground arith in
      let (rows, size) = tested (k + 1) rounds (omega arith) bound (train_end_mono k h) in
      (
        rw (h, more, rows)
            (arange-append (k * fold) ((k + 1) * fold) n (omega arith) (grind arith)),
        rw h (omega (arith, size)),
      )

  -- The folds that are tested are those from the first one whose training set is long enough.
  abbrev pub TilesFrom : ℕ → ℕ → List Split → Type 0
  TilesFrom k last splits =
      (first : ℕ) × (k ≤ first)
      × (first ≤ last)
      × (min_train ≤ℤ train_end horizon embargo fold first)
      × ((j : ℕ) → k ≤ j → j < first → ¬ (min_train ≤ℤ train_end horizon embargo fold j))
      × (test_rows splits ≡ arange (first * fold) n)
      × (length splits + first ≡ last + 1)

  abbrev pub SkipsAll : ℕ → ℕ → List Split → Type 0
  SkipsAll k last splits =
      (splits ≡ [])
      × ((j : ℕ) → k ≤ j → j ≤ last → ¬ (min_train ≤ℤ train_end horizon embargo fold j))

  short_here :
      (k : ℕ)
      → ltb_ℤ (train_end horizon embargo fold k) min_train ≡ true
      → ¬ (min_train ≤ℤ train_end horizon embargo fold k)
  short_here k h = omega (arith, lt_ℤ (train_end horizon embargo fold k) min_train h)

  extend :
      (k last : ℕ) (splits : List Split)
      → ¬ (min_train ≤ℤ train_end horizon embargo fold k)
      → SkipsAll (k + 1) last splits ⊎ TilesFrom (k + 1) last splits
      → SkipsAll k last splits ⊎ TilesFrom k last splits
  extend k last splits short (inl (none_left, skipped)) =
      (inl (
        none_left,
        λ j from to.
            from_next (λ i. i ≤ last → ¬ (min_train ≤ℤ train_end horizon embargo fold i)) k j from
              (λ _. short) (skipped j) to,
      ))
  extend k last splits short (inr (first, from, to, long, skipped, rows, size)) = inr (
    first,
    omega arith,
    to,
    long,
    λ j a b.
        from_next (λ i. i < first → ¬ (min_train ≤ℤ train_end horizon embargo fold i)) k j a
          (λ _. short) (skipped j) b,
    rows,
    size,
  )

  splits_from-tiles :
      (k rounds : ℕ)
      → k + rounds ≡ n_splits + 1
      → (n_splits + 1) * fold ≤ n
      → let splits = splits_from n n_splits horizon embargo min_train fold k rounds in
        SkipsAll k n_splits splits ⊎ TilesFrom k n_splits splits
  unfolding splits_from
  splits_from-tiles k zero e bound = inl (refl, λ j from to. absurd (omega arith))
  splits_from-tiles k (suc rounds) e bound =
      elim (Bool-cases (ltb_ℤ (train_end horizon embargo fold k) min_train)) [
        | inl short ↦ rw short (
            extend k n_splits _ (short_here k short)
              (splits_from-tiles (k + 1) rounds (omega arith) bound))
        | inr long ↦
            let (rows, size) = tested k rounds (omega arith) bound long in
            inr (
              k,
              omega arith,
              omega arith,
              ge_ℤ (train_end horizon embargo fold k) min_train long,
              λ j from to. absurd (omega arith),
              rows,
              omega (arith, size),
            )
      ]

-- The test folds of a successful call: none, if every training set is shorter than min_train; else
-- those from the first fold whose training set is long enough to the last, one for each, and their
-- test rows together are the rows from the start of that fold to the end, each once and in order.
pub walk_forward_splits-tiles :
    (n : ℕ) (n_splits horizon embargo min_train : ℤ) (splits : List Split)
    → walk_forward_splits n n_splits horizon embargo min_train ≡ ok splits
    → let fold = fold_size n (pos_part n_splits) in
      SkipsAll n (pos_part n_splits) horizon embargo min_train fold 1 (pos_part n_splits) splits
      ⊎ TilesFrom n (pos_part n_splits) horizon embargo min_train fold 1 (pos_part n_splits) splits
walk_forward_splits-tiles n n_splits horizon embargo min_train splits r =
    let a = runs-IsAccepted n n_splits horizon embargo min_train splits r in
    let same = ok_injective (sym (accepted_runs n n_splits horizon embargo min_train a) ∙ r) in
    let p = pos_part n_splits in
    rw (← same) (
      splits_from-tiles n p horizon embargo min_train (fold_size n p) 1 p (omega arith)
        (fold_size-mul-le n p))
