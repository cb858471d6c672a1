-- ===== src/Evaluation/Classes.antt =====
-- The distinct values of `np.unique`, as resources/evaluation.py uses them, and sums over them.
use nano_tick.Base.{
  ℕ, ◌+◌, ◌<◌, ◌≡◌, refl, Bool, true, false, List, [], ◌∷◌, inl, inr, ◌⊎◌, ◌↔◌, arith, Bool-cases,
  All, All-map,
}
use nano_tick.Base.Int.{ℤ, pos_part, neg_part, ltb_ℤ, eq_of_parts}
use nano_tick.Evaluation.Metrics.{eqb_ℤ, insert_unique, unique}

infix 50 ◌<ℤ◌
abbrev pub ◌<ℤ◌ : ℤ → ℤ → Type 0
a <ℤ b = pos_part a + neg_part b < pos_part b + neg_part a

-- The values rise strictly.
abbrev pub Rising : List ℤ → Type 0
Rising [] = Unit
Rising (x ∷ xs) = All (λ y. x <ℤ y) xs × Rising xs

abbrev pub In : ℤ → List ℤ → Type 0
In c [] = ⊥
In c (x ∷ xs) = (c ≡ x) ⊎ In c xs

pub eqb_refl : (a : ℤ) → eqb_ℤ a a ≡ true
eqb_refl a = ground arith

pub eqb→eq_ℤ : (a b : ℤ) → eqb_ℤ a b ≡ true → a ≡ b
eqb→eq_ℤ a b h = eq_of_parts a b (ground arith)

pub insert_unique-bound :
    (b x : ℤ) (xs : List ℤ) → b <ℤ x → All (λ y. b <ℤ y) xs → All (λ y. b <ℤ y) (insert_unique x xs)
unfolding insert_unique
insert_unique-bound b x [] h k = (h, tt)
insert_unique-bound b x (y ∷ ys) h k =
    let rest = insert_unique-bound b x ys h k.1 in
    elim (Bool-cases (ltb_ℤ x y)) [
      | inl below ↦ rw below (h, k)
      | inr e ↦ elim (Bool-cases (ltb_ℤ y x)) [
        | inl above ↦ rw (e, above) (k.0, rest)
        | inr e' ↦ rw (e, e') k
      ]
    ]

pub insert_unique-Rising : (x : ℤ) (xs : List ℤ) → Rising xs → Rising (insert_unique x xs)
unfolding insert_unique
insert_unique-Rising x [] h = (tt, tt)
insert_unique-Rising x (y ∷ ys) h = elim (Bool-cases (ltb_ℤ x y)) [
  | inl below ↦ rw below ((ground arith, All-map (λ z. y <ℤ z) _ (λ z k. ground arith) ys h.0), h)
  | inr e ↦ elim (Bool-cases (ltb_ℤ y x)) [
    | inl above ↦
        rw (e, above) (insert_unique-bound y x ys (ground arith) h.0, insert_unique-Rising x ys h.1)
    | inr e' ↦ rw (e, e') h
  ]
]

pub unique-Rising : (xs : List ℤ) → Rising (unique xs)
unfolding unique
unique-Rising [] = tt
unique-Rising (x ∷ xs) = insert_unique-Rising x (unique xs) (unique-Rising xs)

pub insert_unique-In : (c x : ℤ) (xs : List ℤ) → In c (insert_unique x xs) ↔ ((c ≡ x) ⊎ In c xs)
unfolding insert_unique
insert_unique-In c x [] = (λ h. h, λ h. h)
insert_unique-In c x (y ∷ ys) =
    let rest = insert_unique-In c x ys in
    elim (Bool-cases (ltb_ℤ x y)) [
      | inl below ↦ rw below (λ h. h, λ h. h)
      | inr e ↦ elim (Bool-cases (ltb_ℤ y x)) [
        | inl above ↦ rw (e, above) (grind (arith, rest))
        | inr e' ↦ rw (e, e') (grind (arith, eq_of_parts x y (ground arith)))
      ]
    ]

-- `np.unique` holds the values that occur, and no other.
pub unique-In : (c : ℤ) (xs : List ℤ) → In c (unique xs) ↔ In c xs
unfolding unique
unique-In c [] = (λ h. h, λ h. h)
unique-In c (x ∷ xs) = grind (arith, insert_unique-In c x (unique xs), unique-In c xs)

-- a sum over the classes
abbrev pub sum_over : (ℤ → ℕ) → List ℤ → ℕ
sum_over f [] = 0
sum_over f (c ∷ cs) = f c + sum_over f cs

abbrev pub one_if : Bool → ℕ
one_if true = 1
one_if false = 0

pub sum_over-add :
    (f g h : ℤ → ℕ) (cs : List ℤ)
    → ((c : ℤ) → h c ≡ f c + g c)
    → sum_over h cs ≡ sum_over f cs + sum_over g cs
sum_over-add f g h [] e = refl
sum_over-add f g h (c ∷ cs) e = omega (arith, e c, sum_over-add f g h cs e)

pub sum_over-cong :
    (f g : ℤ → ℕ) (cs : List ℤ) → ((c : ℤ) → f c ≡ g c) → sum_over f cs ≡ sum_over g cs
sum_over-cong f g [] e = refl
sum_over-cong f g (c ∷ cs) e = omega (arith, e c, sum_over-cong f g cs e)

pub sum_over-zero : (f : ℤ → ℕ) (cs : List ℤ) → All (λ c. f c ≡ 0) cs → sum_over f cs ≡ 0
sum_over-zero f [] h = refl
sum_over-zero f (c ∷ cs) h = omega (arith, h.0, sum_over-zero f cs h.1)

pub sum_over-none : (cs : List ℤ) → sum_over (λ c. 0) cs ≡ 0
sum_over-none [] = refl
sum_over-none (c ∷ cs) = omega (arith, sum_over-none cs)

pub absent : (x : ℤ) (cs : List ℤ) → All (λ c. x <ℤ c) cs → All (λ c. one_if (eqb_ℤ x c) ≡ 0) cs
absent x cs h = All-map (λ c. x <ℤ c) _ (λ c k. ground arith) cs h

pub In-All : (P : ℤ → Type 0) (x : ℤ) (cs : List ℤ) → All P cs → In x cs → P x
In-All P x [] h i = absurd i
In-All P x (c ∷ cs) h (inl e) = rw e h.0
In-All P x (c ∷ cs) h (inr i) = In-All P x cs h.1 i
