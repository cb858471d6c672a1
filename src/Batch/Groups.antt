-- ===== src/Batch/Groups.antt =====
-- `_by_symbol` of resources/feedhandler.py: the groups of a batch and the records of a symbol.
use nano_tick.Base.{
  ◌≡◌, ◌≢◌, refl, ap, sym, ◌∙◌, List, [], ◌∷◌, ◌++◌, arith, append-nil, append_assoc, All,
  All-append, Result, ok, ◌>>=◌,
}
use mathlib.Core.Logic.{ite, if_pos, if_neg}
use nano_tick.Batch.{add_to_group, group_from, by_symbol}

module _ {K T : Type 0} (dec : Discrete K) (symbol : T → K) where
  -- the records of a symbol, in order
  unfoldable pub of_symbol : K → List T → List T
  of_symbol k [] = []
  of_symbol k (x ∷ xs) = ite (dec (symbol x) k) (x ∷ of_symbol k xs) (of_symbol k xs)

  -- the group of a symbol, empty if there is none
  unfoldable pub group_of : K → List (K × List T) → List T
  group_of k [] = []
  group_of k ((j, g) ∷ groups) = ite (dec j k) g (group_of k groups)

  -- no group has the symbol
  abbrev pub Absent : K → List (K × List T) → Type 0
  Absent k groups = All (λ g. g.0 ≢ k) groups

  -- no symbol has two groups
  abbrev pub Distinct : List (K × List T) → Type 0
  Distinct [] = Unit
  Distinct ((k, g) ∷ groups) = Absent k groups × Distinct groups

  -- `by_symbol` for records that have a symbol
  unfoldable grouping_from : List (K × List T) → List T → List (K × List T)
  grouping_from groups [] = groups
  grouping_from groups (x ∷ xs) = grouping_from (add_to_group dec (symbol x) x groups) xs

  unfoldable pub grouping : List T → List (K × List T)
  unfolding grouping_from
  grouping items = grouping_from [] items

  group_from-grouping :
      (read : T → Result K) (items : List T) (groups : List (K × List T))
      → All (λ t. read t ≡ ok (symbol t)) items
      → group_from dec read groups items ≡ ok (grouping_from groups items)
  unfolding group_from grouping_from
  group_from-grouping read [] groups h = refl
  group_from-grouping read (x ∷ xs) groups h =
      ap (λ r. r >>= λ k. group_from dec read (add_to_group dec k x groups) xs) h.0
      ∙ group_from-grouping read xs (add_to_group dec (symbol x) x groups) h.1

  pub by_symbol-grouping :
      (read : T → Result K) (items : List T)
      → All (λ t. read t ≡ ok (symbol t)) items
      → by_symbol dec read items ≡ ok (grouping items)
  unfolding by_symbol grouping
  by_symbol-grouping read items h = group_from-grouping read items [] h

  -- what holds of all items holds in each group
  All-add :
      (P : T → Type 0) (k : K) (x : T) (groups : List (K × List T))
      → P x
      → All (λ g. All P g.1) groups
      → All (λ g. All P g.1) (add_to_group dec k x groups)
  unfolding add_to_group
  All-add P k x [] p h = ((p, tt), tt)
  All-add P k x ((j, g) ∷ groups) p h = elim (dec j k) [
    | yes e ↦ rw (if_pos _ e) (All-append P g (x ∷ []) h.0 (p, tt), h.1)
    | no e ↦ rw (if_neg _ e) (h.0, All-add P k x groups p h.1)
  ]

  All-grouping_from :
      (P : T → Type 0) (items : List T) (groups : List (K × List T))
      → All P items
      → All (λ g. All P g.1) groups
      → All (λ g. All P g.1) (grouping_from groups items)
  unfolding grouping_from
  All-grouping_from P [] groups h hs = hs
  All-grouping_from P (x ∷ xs) groups h hs =
      All-grouping_from P xs (add_to_group dec (symbol x) x groups) h.1
        (All-add P (symbol x) x groups h.0 hs)

  pub All-grouping :
      (P : T → Type 0) (items : List T) → All P items → All (λ g. All P g.1) (grouping items)
  unfolding grouping
  All-grouping P items h = All-grouping_from P items [] h tt

  group_of-add :
      (k : K) (x : T) (groups : List (K × List T))
      → group_of k (add_to_group dec (symbol x) x groups)
        ≡ group_of k groups ++ of_symbol k (x ∷ [])
  unfolding group_of add_to_group of_symbol
  group_of-add k x [] = refl
  group_of-add k x ((j, g) ∷ groups) =
      ground (arith, group_of-add k x groups, append-nil g, append-nil (group_of k groups))

  Absent-add :
      (k : K) (x : T) (groups : List (K × List T))
      → symbol x ≢ k
      → Absent k groups
      → Absent k (add_to_group dec (symbol x) x groups)
  unfolding add_to_group
  Absent-add k x [] ne a = (ne, tt)
  Absent-add k x ((j, g) ∷ groups) ne a = elim (dec j (symbol x)) [
    | yes e ↦ rw (if_pos _ e) (a.0, a.1)
    | no e ↦ rw (if_neg _ e) (a.0, Absent-add k x groups ne a.1)
  ]

  Distinct-add :
      (x : T) (groups : List (K × List T))
      → Distinct groups
      → Distinct (add_to_group dec (symbol x) x groups)
  unfolding add_to_group
  Distinct-add x [] d = (tt, tt)
  Distinct-add x ((j, g) ∷ groups) d = elim (dec j (symbol x)) [
    | yes e ↦ rw (if_pos _ e) (d.0, d.1)
    | no e ↦
        rw (if_neg _ e)
          (Absent-add j x groups (λ same. e (sym same)) d.0, Distinct-add x groups d.1)
  ]

  pub of_symbol-append :
      (k : K) (xs ys : List T) → of_symbol k (xs ++ ys) ≡ of_symbol k xs ++ of_symbol k ys
  unfolding of_symbol
  of_symbol-append k [] ys = refl
  of_symbol-append k (x ∷ xs) ys = ground (arith, of_symbol-append k xs ys)

  grouping_from-lem :
      (k : K) (items : List T) (groups : List (K × List T))
      → group_of k (grouping_from groups items) ≡ group_of k groups ++ of_symbol k items
  unfolding grouping_from of_symbol
  grouping_from-lem k [] groups = sym (append-nil _)
  grouping_from-lem k (x ∷ xs) groups =
      grouping_from-lem k xs (add_to_group dec (symbol x) x groups)
      ∙ ap (λ l. l ++ of_symbol k xs) (group_of-add k x groups)
      ∙ append_assoc (group_of k groups) (of_symbol k (x ∷ [])) (of_symbol k xs)
      ∙ ap (◌++◌ (group_of k groups)) (sym (of_symbol-append k (x ∷ []) xs))

  grouping_from-Distinct :
      (items : List T) (groups : List (K × List T))
      → Distinct groups
      → Distinct (grouping_from groups items)
  unfolding grouping_from
  grouping_from-Distinct [] groups d = d
  grouping_from-Distinct (x ∷ xs) groups d =
      grouping_from-Distinct xs (add_to_group dec (symbol x) x groups) (Distinct-add x groups d)

  -- every group has the records of its symbol only
  abbrev pub IsUniform : List (K × List T) → Type 0
  IsUniform groups = All (λ g. All (λ t. symbol t ≡ g.0) g.1) groups

  IsUniform-add :
      (x : T) (groups : List (K × List T))
      → IsUniform groups
      → IsUniform (add_to_group dec (symbol x) x groups)
  unfolding add_to_group
  IsUniform-add x [] u = ((refl, tt), tt)
  IsUniform-add x ((j, g) ∷ groups) u = elim (dec j (symbol x)) [
    | yes e ↦ rw (if_pos _ e) (All-append (λ t. symbol t ≡ j) g (x ∷ []) u.0 (sym e, tt), u.1)
    | no e ↦ rw (if_neg _ e) (u.0, IsUniform-add x groups u.1)
  ]

  grouping_from-IsUniform :
      (items : List T) (groups : List (K × List T))
      → IsUniform groups
      → IsUniform (grouping_from groups items)
  unfolding grouping_from
  grouping_from-IsUniform [] groups u = u
  grouping_from-IsUniform (x ∷ xs) groups u =
      grouping_from-IsUniform xs (add_to_group dec (symbol x) x groups) (IsUniform-add x groups u)

  -- The group of each symbol is all of its records in their old order, no symbol has two groups, and
  -- no group has a record of another symbol.
  pub grouping_lem :
      (items : List T)
      → ((k : K) → group_of k (grouping items) ≡ of_symbol k items)
        × Distinct (grouping items)
        × IsUniform (grouping items)
  unfolding grouping group_of
  grouping_lem items = (
    λ k. grouping_from-lem k items [],
    grouping_from-Distinct items [] tt,
    grouping_from-IsUniform items [] tt,
  )

  -- what is left of the records of one symbol
  pub of_symbol_same : (k : K) (l : List T) → All (λ t. symbol t ≡ k) l → of_symbol k l ≡ l
  unfolding of_symbol
  of_symbol_same k [] u = refl
  of_symbol_same k (x ∷ xs) u = rw (if_pos _ u.0) (ap (◌∷◌ x) (of_symbol_same k xs u.1))

  pub of_symbol_other :
      (j k : K) (l : List T) → j ≢ k → All (λ t. symbol t ≡ j) l → of_symbol k l ≡ []
  unfolding of_symbol
  of_symbol_other j k [] ne u = refl
  of_symbol_other j k (x ∷ xs) ne u =
      rw (if_neg _ (λ e. ne (sym u.0 ∙ e))) (of_symbol_other j k xs ne u.1)
