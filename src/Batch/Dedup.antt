-- ===== src/Batch/Dedup.antt =====
-- `_dedup` of resources/feedhandler.py: its sort and its loop, and the ids that they keep.
use nano_tick.Base.{
  ℕ, ◌+◌, ◌≤◌, ◌<◌, ◌≡◌, refl, sym, ◌⊎◌, inl, inr, ◌↔◌, true, false, Option, none, some, List, [],
  ◌∷◌, leb, if◌then◌else◌, arith, tests, Bool-cases, All,
}
use mathlib.Core.Path.{subst}
use nano_tick.Batch.{insert_sorted, sorted, is_new, fresh_loop}
use nano_tick.Bridge.Pages.{Ascending}

-- the least id that is new
abbrev pub floor_of : Option ℕ → ℕ
floor_of none = 0
floor_of (some last) = last + 1

-- the item stands in the list
abbrev pub In : {T : Type 0} → T → List T → Type 0
In x [] = ⊥
In x (y ∷ ys) = (x ≡ y) ⊎ In x ys

eq_or_lt : (a b : ℕ) → a ≤ b → (a ≡ b) ⊎ (a + 1 ≤ b)
eq_or_lt a b h = grind arith

module _ {T : Type 0} (id : T → ℕ) where
  -- some item of the list has the id
  abbrev pub HasId : ℕ → List T → Type 0
  HasId n [] = ⊥
  HasId n (x ∷ xs) = (id x ≡ n) ⊎ HasId n xs

  -- the ids never fall
  abbrev pub IsSorted : ℕ → List T → Type 0
  IsSorted lo [] = Unit
  IsSorted lo (x ∷ xs) = (lo ≤ id x) × IsSorted (id x) xs

  insert_sorted-IsSorted :
      (lo : ℕ) (x : T) (l : List T) → lo ≤ id x → IsSorted lo l → IsSorted lo (insert_sorted id x l)
  unfolding insert_sorted
  insert_sorted-IsSorted lo x [] h s = (h, tt)
  insert_sorted-IsSorted lo x (y ∷ ys) h s = elim (Bool-cases (leb (id x) (id y))) [
    | inl e ↦ rw e (h, (omega tests, s.1))
    | inr e ↦ rw e (s.0, insert_sorted-IsSorted (id y) x ys (omega tests) s.1)
  ]

  pub sorted-IsSorted : (l : List T) → IsSorted 0 (sorted id l)
  unfolding sorted
  sorted-IsSorted [] = tt
  sorted-IsSorted (x ∷ xs) =
      insert_sorted-IsSorted 0 x (sorted id xs) (omega arith) (sorted-IsSorted xs)

  -- A predicate holds of every item of the sorted list exactly if of every item.
  All-insert_sorted :
      (P : T → Type 0) (x : T) (l : List T) → All P (insert_sorted id x l) ↔ (P x × All P l)
  unfolding insert_sorted
  All-insert_sorted P x [] = (λ h. h, λ h. h)
  All-insert_sorted P x (y ∷ ys) = elim (Bool-cases (leb (id x) (id y))) [
    | inl e ↦ rw e (λ h. (h.0, h.1), λ h. (h.0, h.1))
    | inr e ↦
        let ih = All-insert_sorted P x ys in
        rw e (λ h. ((ih.0 h.1).0, (h.0, (ih.0 h.1).1)), λ h. (h.1.0, ih.1 (h.0, h.1.1)))
  ]

  pub All-sorted : (P : T → Type 0) (l : List T) → All P (sorted id l) ↔ All P l
  unfolding sorted
  All-sorted P [] = (λ h. h, λ h. h)
  All-sorted P (x ∷ xs) =
      let step = All-insert_sorted P x (sorted id xs) in
      let ih = All-sorted P xs in
      (λ h. ((step.0 h).0, ih.0 (step.0 h).1), λ h. step.1 (h.0, ih.1 h.1))

  pub new_ge : (last : Option ℕ) (x : T) → is_new id last x ≡ true → floor_of last ≤ id x
  unfolding is_new
  new_ge none x e = omega arith
  new_ge (some last) x e = omega tests

  pub old_lt : (last : Option ℕ) (x : T) → is_new id last x ≡ false → id x < floor_of last
  unfolding is_new
  old_lt none x e = absurd (cc)
  old_lt (some last) x e = omega tests

  lt_old : (last : Option ℕ) (x : T) → id x < floor_of last → is_new id last x ≡ false
  unfolding is_new
  lt_old none x h = absurd (omega arith)
  lt_old (some last) x h = ground arith

  -- One step of the loop, to prove a statement of its result.
  fresh_loop-step :
      (P : List T × Option ℕ → Type 0) (last : Option ℕ) (x : T) (xs : List T)
      → (floor_of last ≤ id x
          → P (x ∷ (fresh_loop id (some (id x)) xs).0, (fresh_loop id (some (id x)) xs).1))
      → (id x < floor_of last → P (fresh_loop id last xs))
      → P (fresh_loop id last (x ∷ xs))
  unfolding fresh_loop
  fresh_loop-step P last x xs taken passed = elim (Bool-cases (is_new id last x)) [
    | inl e ↦
        let r = fresh_loop id (some (id x)) xs in
        subst (λ b. P (if b then (x ∷ r.0, r.1) else fresh_loop id last xs)) (sym e)
          (taken (new_ge last x e))
    | inr e ↦
        let r = fresh_loop id (some (id x)) xs in
        subst (λ b. P (if b then (x ∷ r.0, r.1) else fresh_loop id last xs)) (sym e)
          (passed (old_lt last x e))
  ]

  -- the loop on any list
  pub fresh_loop-Ascending :
      (last : Option ℕ) (l : List T) → Ascending id (floor_of last) (fresh_loop id last l).0
  unfolding fresh_loop
  fresh_loop-Ascending last [] = tt
  fresh_loop-Ascending last (x ∷ xs) =
      fresh_loop-step (λ r. Ascending id (floor_of last) r.0) last x xs
        (λ ge. (ge, fresh_loop-Ascending (some (id x)) xs)) (λ lt. fresh_loop-Ascending last xs)

  pub fresh_loop_mono :
      (last : Option ℕ) (l : List T) → floor_of last ≤ floor_of (fresh_loop id last l).1
  unfolding fresh_loop
  fresh_loop_mono last [] = omega arith
  fresh_loop_mono last (x ∷ xs) =
      fresh_loop-step (λ r. floor_of last ≤ floor_of r.1) last x xs
        (λ ge. omega (arith, fresh_loop_mono (some (id x)) xs)) (λ lt. fresh_loop_mono last xs)

  -- after the loop no item is new
  pub fresh_loop-below :
      (last : Option ℕ) (l : List T) → All (λ x. id x < floor_of (fresh_loop id last l).1) l
  unfolding fresh_loop
  fresh_loop-below last [] = tt
  fresh_loop-below last (x ∷ xs) =
      fresh_loop-step (λ r. All (λ y. id y < floor_of r.1) (x ∷ xs)) last x xs
        (λ ge. (omega (arith, fresh_loop_mono (some (id x)) xs), fresh_loop-below (some (id x)) xs))
        (λ lt. (omega (arith, fresh_loop_mono last xs), fresh_loop-below last xs))

  -- old items pass by
  pub fresh_loop-old :
      (last : Option ℕ) (l : List T)
      → All (λ x. id x < floor_of last) l
      → fresh_loop id last l ≡ ([], last)
  unfolding fresh_loop
  fresh_loop-old last [] h = refl
  fresh_loop-old last (x ∷ xs) h = rw (lt_old last x h.0) (fresh_loop-old last xs h.1)

  pub fresh_loop-All :
      (P : T → Type 0) (last : Option ℕ) (l : List T) → All P l → All P (fresh_loop id last l).0
  unfolding fresh_loop
  fresh_loop-All P last [] h = tt
  fresh_loop-All P last (x ∷ xs) h =
      fresh_loop-step (λ r. All P r.0) last x xs
        (λ ge. (h.0, fresh_loop-All P (some (id x)) xs h.1)) (λ lt. fresh_loop-All P last xs h.1)

  HasId-insert_sorted :
      (n : ℕ) (x : T) (l : List T) → HasId n (insert_sorted id x l) ↔ ((id x ≡ n) ⊎ HasId n l)
  unfolding insert_sorted
  HasId-insert_sorted n x [] = (λ h. h, λ h. h)
  HasId-insert_sorted n x (y ∷ ys) = elim (Bool-cases (leb (id x) (id y))) [
    | inl e ↦ rw e (λ h. h, λ h. h)
    | inr e ↦ rw e (swap_id (HasId-insert_sorted n x ys))
  ]
    where
      swap_id : {A B C D : Type 0} → D ↔ (A ⊎ C) → (B ⊎ D) ↔ (A ⊎ (B ⊎ C))
      swap_id {A} {B} {C} {D} ih = (left, right)
        where
          left : B ⊎ D → A ⊎ (B ⊎ C)
          left (inl b) = inr (inl b)
          left (inr d) = elim (ih.0 d) [ inl a ↦ inl a | inr c ↦ inr (inr c) ]

          right : A ⊎ (B ⊎ C) → B ⊎ D
          right (inl a) = inr (ih.1 (inl a))
          right (inr (inl b)) = inl b
          right (inr (inr c)) = inr (ih.1 (inr c))

  pub HasId-sorted : (n : ℕ) (l : List T) → HasId n (sorted id l) ↔ HasId n l
  unfolding sorted
  HasId-sorted n [] = (λ h. h, λ h. h)
  HasId-sorted n (x ∷ xs) =
      let step = HasId-insert_sorted n x (sorted id xs) in
      let ih = HasId-sorted n xs in
      (
        λ h. elim (step.0 h) [ inl e ↦ inl e | inr r ↦ inr (ih.0 r) ],
        λ h. step.1 (elim h [ inl e ↦ inl e | inr r ↦ inr (ih.1 r) ]),
      )

  HasId-ge : (lo n : ℕ) (l : List T) → IsSorted lo l → HasId n l → lo ≤ n
  HasId-ge lo n [] s h = absurd h
  HasId-ge lo n (x ∷ xs) s (inl e) = omega (arith, s.0)
  HasId-ge lo n (x ∷ xs) s (inr r) = omega (arith, s.0, HasId-ge (id x) n xs s.1 r)

  pub fresh_loop-HasId :
      (last : Option ℕ) (lo n : ℕ) (l : List T)
      → IsSorted lo l
      → floor_of last ≤ n
      → HasId n l
      → HasId n (fresh_loop id last l).0
  unfolding fresh_loop
  fresh_loop-HasId last lo n [] s f h = h
  fresh_loop-HasId last lo n (x ∷ xs) s f h =
      fresh_loop-step (λ r. HasId n r.0) last x xs
        (λ ge. later h (fresh_loop-HasId (some (id x)) (id x) n xs s.1))
        (λ lt. fresh_loop-HasId last (id x) n xs s.1 f (rest lt h))
    where
      rest : id x < floor_of last → HasId n (x ∷ xs) → HasId n xs
      rest lt (inl e) = absurd (omega arith)
      rest lt (inr r) = r

      later :
          HasId n (x ∷ xs)
          → (id x + 1 ≤ n → HasId n xs → HasId n (fresh_loop id (some (id x)) xs).0)
          → HasId n (x ∷ (fresh_loop id (some (id x)) xs).0)
      later (inl e) ih = inl e
      later (inr r) ih = elim (eq_or_lt (id x) n (HasId-ge (id x) n xs s.1 r)) [
        | inl e ↦ inl e
        | inr l ↦ inr (ih l r)
      ]
