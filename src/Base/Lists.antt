-- ===== src/Base/Lists.antt =====
-- Lists measured by native numbers, under the library's names, and predicates over them.
use Prim.Native.Nat.{ℕ, zero, suc, ◌+◌, ◌≤◌, ◌<◌}
use mathlib.Core.Path.{◌≡◌, refl, ap}
use mathlib.Core.List.{List, [], ◌∷◌, ◌++◌, map}
use mathlib.Core.Option.{Option, none, some}
use native.Mathlib.Omega.{arith}

module _ {ℓ} {A : Type ℓ} where
  abbrev pub length : List A → ℕ
  length [] = 0
  length (x ∷ xs) = suc (length xs)

  abbrev pub take : ℕ → List A → List A
  take zero xs = []
  take (suc n) [] = []
  take (suc n) (x ∷ xs) = x ∷ take n xs

  abbrev pub drop : ℕ → List A → List A
  drop zero xs = xs
  drop (suc n) [] = []
  drop (suc n) (x ∷ xs) = drop n xs

  -- the last item, as `l[-1]`
  abbrev pub last? : List A → Option A
  last? [] = none
  last? (x ∷ []) = some x
  last? (x ∷ y ∷ l) = last? (y ∷ l)

  pub length-append : (xs ys : List A) → length (xs ++ ys) ≡ length xs + length ys
  length-append [] ys = omega arith
  length-append (x ∷ xs) ys = omega (arith, length-append xs ys)

pub map-append {ℓ κ} :
    {A : Type ℓ} {B : Type κ} (f : A → B) (xs ys : List A) → map f (xs ++ ys) ≡ map f xs ++ map f ys
map-append f [] ys = refl
map-append f (x ∷ xs) ys = ap (◌∷◌ (f x)) (map-append f xs ys)

abbrev pub concat {ℓ} : {A : Type ℓ} → List (List A) → List A
concat [] = []
concat (l ∷ ls) = l ++ concat ls

-- Every item satisfies the predicate.
abbrev pub All {ℓ κ} : {A : Type ℓ} → (A → Type κ) → List A → Type κ
All P [] = Unit
All P (x ∷ xs) = P x × All P xs

pub All-append {ℓ κ} :
    {A : Type ℓ} (P : A → Type κ) (xs ys : List A) → All P xs → All P ys → All P (xs ++ ys)
All-append P [] ys hx hy = hy
All-append P (x ∷ xs) ys hx hy = (hx.0, All-append P xs ys hx.1 hy)

pub All-map {ℓ κ λ'} :
    {A : Type ℓ} (P : A → Type κ) (Q : A → Type λ') (f : (a : A) → P a → Q a) (xs : List A)
    → All P xs
    → All Q xs
All-map P Q f [] h = tt
All-map P Q f (x ∷ xs) h = (f x h.0, All-map P Q f xs h.1)

-- `numpy.arange(lo, hi)` and `range(lo, hi)`: by the count of numbers left.
abbrev pub count_from : ℕ → ℕ → List ℕ
count_from lo zero = []
count_from lo (suc n) = lo ∷ count_from (lo + 1) n

pub length-count_from : (lo n : ℕ) → length (count_from lo n) ≡ n
length-count_from lo zero = refl
length-count_from lo (suc n) = omega (arith, length-count_from (lo + 1) n)

pub count_from-append :
    (lo m n : ℕ) → count_from lo m ++ count_from (lo + m) n ≡ count_from lo (m + n)
count_from-append lo zero n = rw (zero_right lo, zero_left n)
  where
    zero_right : (a : ℕ) → a + 0 ≡ a
    zero_right a = omega arith

    zero_left : (a : ℕ) → 0 + a ≡ a
    zero_left a = omega arith
count_from-append lo (suc m) n = rw (start, total) (rw (count_from-append (lo + 1) m n))
  where
    start : lo + suc m ≡ lo + 1 + m
    start = omega arith

    total : suc m + n ≡ suc (m + n)
    total = omega arith

pub All-count_from : (lo n : ℕ) → All (λ i. (lo ≤ i) × (i < lo + n)) (count_from lo n)
All-count_from lo zero = tt
All-count_from lo (suc n) = (
  (omega arith, omega arith),
  All-map (λ i. (lo + 1 ≤ i) × (i < lo + 1 + n)) _ (λ i h. (omega arith, omega arith))
      (count_from (lo + 1) n) (All-count_from (lo + 1) n),
)
