-- ===== src/Evaluation/Recalls.antt =====
-- The classes of resources/evaluation.py: `np.unique`, and the recalls of `classification_metrics`.
use nano_tick.Base.{
  ◌≤◌, ◌<◌, ◌≡◌, refl, ap, sym, ◌∙◌, true, ◌&&◌, List, [], ◌∷◌, map, length, ltb, inl, inr, ◌↔◌,
  arith, Bool-cases, All, lt→ltb,
}
use nano_tick.Base.Int.{ℤ}
use nano_tick.Base.Numpy.{Numpy}
use nano_tick.Evaluation.Frames.{length-map}
use nano_tick.Evaluation.Metrics.{
  eqb_ℤ, insert_unique, unique, matches, count_of, hits_of, recalls, classification_metrics,
}
use nano_tick.Evaluation.Classes.{
  ◌<ℤ◌, Rising, In, eqb_refl, eqb→eq_ℤ, unique-Rising, unique-In, sum_over, one_if, sum_over-add,
  sum_over-cong, sum_over-zero, sum_over-none, absent, In-All,
}

-- a value of a rising list stands there once
sum_over-In :
    (x : ℤ) (cs : List ℤ) → Rising cs → In x cs → sum_over (λ c. one_if (eqb_ℤ x c)) cs ≡ 1
sum_over-In x [] r i = absurd i
sum_over-In x (c ∷ cs) r (inl e) =
    let here : one_if (eqb_ℤ x c) ≡ 1 = rw e (ap one_if (eqb_refl c)) in
    let none_after = sum_over-zero _ cs (absent x cs (rw e r.0)) in omega (arith, here, none_after)
sum_over-In x (c ∷ cs) r (inr i) =
    let later : c <ℤ x = In-All (λ y. c <ℤ y) x cs r.0 i in
    let differs : one_if (eqb_ℤ x c) ≡ 0 = ground arith in
    omega (arith, differs, sum_over-In x cs r.1 i)

-- All of the values are classes.
abbrev Known : List ℤ → List ℤ → Type 0
Known cs ts = All (λ t. In t cs) ts

count_of-sum :
    (ts cs : List ℤ) → Rising cs → Known cs ts → sum_over (λ c. count_of c ts) cs ≡ length ts
unfolding count_of
count_of-sum [] cs r k = sum_over-none cs
count_of-sum (t ∷ ts) cs r k = omega (
  arith,
  sum_over-add (λ c. count_of c ts) (λ c. one_if (eqb_ℤ t c)) (λ c. count_of c (t ∷ ts)) cs
      (λ c. ground arith),
  count_of-sum ts cs r k.1,
  sum_over-In t cs r k.0,
)

match_once :
    (t p : ℤ) (cs : List ℤ)
    → Rising cs
    → In t cs
    → sum_over (λ c. one_if (eqb_ℤ t c && eqb_ℤ p c)) cs ≡ one_if (eqb_ℤ t p)
match_once t p cs r i = elim (Bool-cases (eqb_ℤ t p)) [
  | inl e ↦
      let same : (c : ℤ) → one_if (eqb_ℤ t c && eqb_ℤ p c) ≡ one_if (eqb_ℤ t c) =
        λ c. rw (← eqb→eq_ℤ t p e) (ground arith) in
      sum_over-cong _ _ cs same ∙ sum_over-In t cs r i ∙ sym (ap one_if e)
  | inr e ↦ sum_over-cong _ (λ c. 0) cs (λ c. ground arith) ∙ sum_over-none cs ∙ sym (ap one_if e)
]

hits_of-sum :
    (ts ps cs : List ℤ)
    → Rising cs
    → Known cs ts
    → sum_over (λ c. hits_of c ts ps) cs ≡ matches ts ps
unfolding hits_of matches
hits_of-sum [] ps cs r k = sum_over-none cs
hits_of-sum (t ∷ ts) [] cs r k = sum_over-none cs
hits_of-sum (t ∷ ts) (p ∷ ps) cs r k =
    let step =
      sum_over-add (λ c. hits_of c ts ps) (λ c. one_if (eqb_ℤ t c && eqb_ℤ p c))
        (λ c. hits_of c (t ∷ ts) (p ∷ ps)) cs (λ c. ground arith) in
    let rest = hits_of-sum ts ps cs r k.1 in let here = match_once t p cs r k.0 in ground arith

count_of-pos : (c : ℤ) (ts : List ℤ) → In c ts → 0 < count_of c ts
unfolding count_of
count_of-pos c [] i = absurd i
count_of-pos c (t ∷ ts) (inl e) = rw (← e, eqb_refl c) (omega arith)
count_of-pos c (t ∷ ts) (inr i) = ground (arith, count_of-pos c ts i)

hits_of-le : (c : ℤ) (ts ps : List ℤ) → hits_of c ts ps ≤ count_of c ts
unfolding hits_of count_of
hits_of-le c [] ps = omega arith
hits_of-le c (t ∷ ts) [] = omega arith
hits_of-le c (t ∷ ts) (p ∷ ps) = ground (arith, hits_of-le c ts ps)

All-In : (P : ℤ → Type 0) (cs : List ℤ) → ((c : ℤ) → In c cs → P c) → All P cs
All-In P [] h = tt
All-In P (c ∷ cs) h = (h c (inl refl), All-In P cs (λ d i. h d (inr i)))

unique-Known : (ts : List ℤ) → Known (unique ts) ts
unique-Known ts = All-In _ ts (λ t i. (unique-In t ts).1 i)

unique-nonempty : (t : ℤ) (ts : List ℤ) → 0 < length (unique (t ∷ ts))
unfolding unique insert_unique
unique-nonempty t ts = nonempty t (unique ts)
  where
    nonempty : (x : ℤ) (xs : List ℤ) → 0 < length (insert_unique x xs)
    nonempty x [] = omega arith
    nonempty x (y ∷ ys) = ground arith

-- The counts of all classes sum to the count of the labels.
pub count_of-labels : (ts : List ℤ) → sum_over (λ c. count_of c ts) (unique ts) ≡ length ts
count_of-labels ts = count_of-sum ts (unique ts) (unique-Rising ts) (unique-Known ts)

-- What the recalls are made of: the labels of each class, and those of them that are predicted.
pub record AreRecalls (ts ps : List ℤ) (classes : List ℤ) : Type 0 where
  pub rising : Rising classes
  pub occurring : (c : ℤ) → In c classes ↔ In c ts
  pub positive : All (λ c. 0 < count_of c ts) classes
  pub within : All (λ c. hits_of c ts ps ≤ count_of c ts) classes

-- On at least one label, the classes are the labels that occur, each once; each class has a label
-- and no more hits than labels; the balanced accuracy is the mean over the classes of the hits
-- among the labels, and the accuracy is the sum of the hits of all classes among the sum of their
-- labels.
pub classification_metrics_lem :
    {F : Type 0} (np : Numpy F) (t : ℤ) (ts ps : List ℤ)
    → let ys = t ∷ ts in
      let classes = unique ys in
      AreRecalls ys ps classes
      × (classification_metrics np ys ps ≡ record {
        n = length ys;
        accuracy =
            np.share
              (sum_over (λ c. hits_of c ys ps) classes)
              (sum_over (λ c. count_of c ys) classes);
        balanced_accuracy = np.mean (map (λ c. np.share (hits_of c ys ps) (count_of c ys)) classes);
      })
unfolding classification_metrics recalls
classification_metrics_lem np t ts ps =
    let ys = t ∷ ts in
    let rising = unique-Rising ys in
    let rs = map (λ c. np.share (hits_of c ys ps) (count_of c ys)) (unique ys) in
    let some_recall : ltb 0 (length rs) ≡ true = lt→ltb 0 (length rs) (
      omega (
        arith,
        length-map (λ c. np.share (hits_of c ys ps) (count_of c ys)) (unique ys),
        unique-nonempty t ts,
      )) in
    (
      record {
        rising = rising;
        occurring = λ c. unique-In c ys;
        positive = All-In _ (unique ys) (λ c i. count_of-pos c ys ((unique-In c ys).0 i));
        within = All-In _ (unique ys) (λ c i. hits_of-le c ys ps);
      },
      rw
          (
            hits_of-sum ys ps (unique ys) rising (unique-Known ys),
            count_of-sum ys (unique ys) rising (unique-Known ys),
            some_recall,
            lt→ltb 0 (length ys) (omega arith),
          )
          refl,
    )
