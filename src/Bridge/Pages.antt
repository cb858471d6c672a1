-- ===== src/Bridge/Pages.antt =====
-- Pages of an ascending list of trades: what one round of `bridge` (resources/backfill.py) keeps, and
-- what is left for the next.
use nano_tick.Base.{
  ℕ, zero, suc, ◌+◌, ◌≤◌, ◌<◌, ◌≡◌, refl, ap, sym, ◌∙◌, true, false, Option, none, some, List, [],
  ◌∷◌, ◌++◌, length, take, drop, leb, ltb, if◌then◌else◌, arith, tests, Bool-cases, inl, inr,
}
use nano_tick.Bridge.{below_target, keep_below, last_id}

module _ {T : Type 0} (id : T → ℕ) where
  -- the ids rise strictly, from `lo` on
  abbrev pub Ascending : ℕ → List T → Type 0
  Ascending lo [] = Unit
  Ascending lo (t ∷ ts) = (lo ≤ id t) × Ascending (id t + 1) ts

  -- the trades with an id from `start` on
  unfoldable pub from_start : ℕ → List T → List T
  from_start start [] = []
  from_start start (t ∷ ts) =
      let rest = from_start start ts in if leb start (id t) then t ∷ rest else rest

  pub Ascending-weaken : (lo lo' : ℕ) (l : List T) → lo ≤ lo' → Ascending lo' l → Ascending lo l
  Ascending-weaken lo lo' [] h a = tt
  Ascending-weaken lo lo' (t ∷ ts) h a = (omega (arith, a.0), a.1)

  pub from_start_all :
      (start lo : ℕ) (l : List T) → start ≤ lo → Ascending lo l → from_start start l ≡ l
  unfolding from_start
  from_start_all start lo [] h a = refl
  from_start_all start lo (t ∷ ts) h a =
      let e : leb start (id t) ≡ true = ground (arith, a.0) in
      rw e (ap (◌∷◌ t) (from_start_all start (id t + 1) ts (omega (arith, a.0)) a.1))

  pub from_start-Ascending :
      (start lo : ℕ) (l : List T) → Ascending lo l → Ascending start (from_start start l)
  unfolding from_start
  from_start-Ascending start lo [] a = tt
  from_start-Ascending start lo (t ∷ ts) a = elim (Bool-cases (leb start (id t))) [
    | inl e ↦ rw (e, from_start_all start (id t + 1) ts (omega tests) a.1) (omega tests, a.1)
    | inr e ↦ rw e (from_start-Ascending start (id t + 1) ts a.1)
  ]

  pub from_start-twice :
      (start later : ℕ) (l : List T)
      → start ≤ later
      → from_start later (from_start start l) ≡ from_start later l
  unfolding from_start
  from_start-twice start later [] h = refl
  from_start-twice start later (t ∷ ts) h = ground (arith, from_start-twice start later ts h)

  -- above the target nothing is kept
  pub keep_below-none :
      (target : Option ℕ) (lo : ℕ) (l : List T)
      → below_target target lo ≡ false
      → Ascending lo l
      → keep_below id target l ≡ []
  unfolding keep_below below_target
  keep_below-none none lo l h a = absurd (cc)
  keep_below-none (some target) lo [] h a = refl
  keep_below-none (some target) lo (t ∷ ts) h a =
      let e : ltb (id t) target ≡ false = ground (arith, a.0) in
      let e' : ltb (id t + 1) target ≡ false = ground (arith, a.0) in
      rw e (keep_below-none (some target) (id t + 1) ts e' a.1)

  pub take-Ascending : (n lo : ℕ) (l : List T) → Ascending lo l → Ascending lo (take n l)
  take-Ascending zero lo l a = tt
  take-Ascending (suc n) lo [] a = tt
  take-Ascending (suc n) lo (t ∷ ts) a = (a.0, take-Ascending n (id t + 1) ts a.1)

  -- once past the target, always past it
  below_target_mono :
      (target : Option ℕ) (a b : ℕ)
      → a ≤ b
      → below_target target a ≡ false
      → below_target target b ≡ false
  unfolding below_target
  below_target_mono none a b h e = absurd (cc)
  below_target_mono (some target) a b h e = ground arith

  -- A page of which less than `n` trades are kept has all that are to be kept.
  pub short_page :
      (target : Option ℕ) (n lo : ℕ) (l : List T)
      → Ascending lo l
      → length (keep_below id target (take n l)) < n
      → keep_below id target (take n l) ≡ keep_below id target l
  unfolding keep_below
  short_page target zero lo l a h = absurd (omega arith)
  short_page target (suc n) lo [] a h = refl
  short_page target (suc n) lo (t ∷ ts) a h = elim (Bool-cases (below_target target (id t))) [
    | inl e ↦ rw e (ap (◌∷◌ t) (short_page target n (id t + 1) ts a.1 (ground arith)))
    | inr e ↦
        let past = below_target_mono target (id t) (id t + 1) (omega arith) e in
        rw e (
          keep_below-none target (id t + 1) (take n ts) past (take-Ascending n (id t + 1) ts a.1)
          ∙ sym (keep_below-none target (id t + 1) ts past a.1))
  ]

  length-keep_below-le :
      (target : Option ℕ) (l : List T) → length (keep_below id target l) ≤ length l
  unfolding keep_below
  length-keep_below-le target [] = omega arith
  length-keep_below-le target (t ∷ ts) = ground (arith, length-keep_below-le target ts)

  pub length-take-le : (n : ℕ) (l : List T) → length (take n l) ≤ n
  length-take-le zero l = omega arith
  length-take-le (suc n) [] = omega arith
  length-take-le (suc n) (t ∷ ts) = omega (arith, length-take-le n ts)

  -- A page of which `n` trades are kept is kept whole.
  pub full_page :
      (target : Option ℕ) (n : ℕ) (l : List T)
      → n ≤ length (keep_below id target (take n l))
      → keep_below id target (take n l) ≡ take n l
  unfolding keep_below
  full_page target zero l h = refl
  full_page target (suc n) [] h = refl
  full_page target (suc n) (t ∷ ts) h = elim (Bool-cases (below_target target (id t))) [
    | inl e ↦ rw e (ap (◌∷◌ t) (full_page target n ts (ground arith)))
    | inr e ↦ absurd (ground (arith, length-keep_below-le target (take n ts), length-take-le n ts))
  ]

  pub keep_below-append :
      (target : Option ℕ) (xs ys : List T)
      → keep_below id target (xs ++ ys) ≡ keep_below id target xs ++ keep_below id target ys
  unfolding keep_below
  keep_below-append target [] ys = refl
  keep_below-append target (x ∷ xs) ys = ground (arith, keep_below-append target xs ys)

  pub last_id-ge :
      (n : ℕ) (t : T) (ts : List T) → Ascending (id t + 1) ts → id t ≤ last_id id t (take n ts)
  unfolding last_id
  last_id-ge zero t ts a = omega arith
  last_id-ge (suc n) t [] a = omega arith
  last_id-ge (suc n) t (u ∷ us) a = omega (arith, a.0, last_id-ge n u us a.1)

  -- The trades after the last id of a page are the rest of the list.
  pub after_page :
      (n : ℕ) (t : T) (ts : List T)
      → Ascending (id t + 1) ts
      → from_start (last_id id t (take n ts) + 1) (t ∷ ts) ≡ drop n ts
  unfolding last_id from_start
  after_page zero t ts a =
      let e : leb (id t + 1) (id t) ≡ false = ground arith in
      rw e (from_start_all (id t + 1) (id t + 1) ts (omega arith) a)
  after_page (suc n) t [] a = let e : leb (id t + 1) (id t) ≡ false = ground arith in rw e
  after_page (suc n) t (u ∷ us) a =
      let e : leb (last_id id u (take n us) + 1) (id t) ≡ false =
        ground (arith, a.0, last_id-ge n u us a.1) in
      rw e (after_page n u us a.1)
