-- ===== src/Feed/Admitted.antt =====
-- What a batch of resources/feedhandler.py adds, group after group: the records that `_dedup` lets
-- through, and the last ids. Trades and quotes share this.
use nano_tick.Base.{ℕ, ◌≡◌, ◌≢◌, refl, ap, sym, ◌∙◌, Option, List, [], ◌∷◌, ◌++◌, append-nil}
use nano_tick.Base.Dict.{insert, lookup-insert_self, lookup-insert_ne}
use mathlib.Core.Path.{subst, ap₂}
use mathlib.Core.Logic.{if_pos, if_neg}
use nano_tick.Batch.{dedup}
use nano_tick.Batch.Groups.{
  of_symbol, group_of, Absent, Distinct, IsUniform, of_symbol-append, of_symbol_same,
  of_symbol_other,
}
use nano_tick.Batch.Fresh.{dedup-All}
use nano_tick.Feed.{join, last_of}

module _ {K : Type 0} (dec : Discrete K) where
  last_of-insert_self :
      (k : K) (last : Option ℕ) (d : List (K × Option ℕ))
      → last_of dec k (insert dec k last d) ≡ last
  unfolding last_of
  last_of-insert_self k last d = ap join (lookup-insert_self dec k last d)

  last_of-insert_ne :
      (j k : K) (last : Option ℕ) (d : List (K × Option ℕ))
      → j ≢ k
      → last_of dec j (insert dec k last d) ≡ last_of dec j d
  unfolding last_of
  last_of-insert_ne j k last d h = ap join (lookup-insert_ne dec j k last d h)

module _ {K X : Type 0} (dec : Discrete K) (symbol : X → K) (id : X → ℕ) where
  -- the records that a batch adds, group after group, over the last ids before it
  unfoldable pub admitted : List (K × Option ℕ) → List (K × List X) → List X
  admitted d [] = []
  admitted d ((k, group) ∷ groups) = (dedup id group (last_of dec k d)).0 ++ admitted d groups

  pub admitted-insert :
      (k : K) (last : Option ℕ) (d : List (K × Option ℕ)) (groups : List (K × List X))
      → Absent dec symbol k groups
      → admitted (insert dec k last d) groups ≡ admitted d groups
  unfolding admitted
  admitted-insert k last d [] a = refl
  admitted-insert k last d ((j, group) ∷ groups) a =
      rw (last_of-insert_ne dec j k last d a.0, admitted-insert k last d groups a.1)

  group_of-Absent :
      (k : K) (groups : List (K × List X))
      → Absent dec symbol k groups
      → group_of dec symbol k groups ≡ []
  unfolding group_of
  group_of-Absent k [] a = refl
  group_of-Absent k ((j, group) ∷ groups) a =
      if_neg (dec j k) a.0 group (group_of dec symbol k groups) ∙ group_of-Absent k groups a.1

  pub dedup-nil : (last : Option ℕ) → dedup id [] last ≡ ([], last)
  unfolding dedup
  dedup-nil last = refl

  -- the last id of a symbol after the first group and after the others
  pub last_after :
      (j k : K) (group : List X) (groups : List (K × List X)) (d : List (K × Option ℕ))
      → Absent dec symbol k groups
      → (dedup id
          (group_of dec symbol j groups)
          (last_of dec j (insert dec k (dedup id group (last_of dec k d)).1 d))).1
        ≡ (dedup id (group_of dec symbol j ((k, group) ∷ groups)) (last_of dec j d)).1
  unfolding group_of
  last_after j k group groups d a =
      let last = (dedup id group (last_of dec k d)).1 in
      elim (dec k j) [
        | yes e ↦ rw (if_pos (dec k j) e group (group_of dec symbol j groups)) (
            subst
              (λ i.
                (dedup id (group_of dec symbol i groups) (last_of dec i (insert dec k last d))).1
                ≡ (dedup id group (last_of dec i d)).1)
              e
              (ap (λ l. (dedup id l (last_of dec k (insert dec k last d))).1)
                  (group_of-Absent k groups a)
                ∙ ap (λ r. r.1) (dedup-nil (last_of dec k (insert dec k last d)))
                ∙ last_of-insert_self dec k last d))
        | no e ↦ rw (if_neg (dec k j) e group (group_of dec symbol j groups)) (
            ap (λ o. (dedup id (group_of dec symbol j groups) o).1)
              (last_of-insert_ne dec j k last d (λ same. e (sym same))))
      ]

  -- of the admitted records, those of a symbol are what the dedup of its records lets through
  pub of_symbol-admitted :
      (k : K) (d : List (K × Option ℕ)) (groups : List (K × List X))
      → Distinct dec symbol groups
      → IsUniform dec symbol groups
      → of_symbol dec symbol k (admitted d groups)
        ≡ (dedup id (group_of dec symbol k groups) (last_of dec k d)).0
  unfolding admitted group_of of_symbol
  of_symbol-admitted k d [] distinct uniform = sym (ap (λ r. r.0) (dedup-nil (last_of dec k d)))
  of_symbol-admitted k d ((j, group) ∷ groups) distinct uniform =
      let fresh = (dedup id group (last_of dec j d)).0 in
      let same = dedup-All id (λ t. symbol t ≡ j) group (last_of dec j d) uniform.0 in
      of_symbol-append dec symbol k fresh (admitted d groups) ∙ elim (dec j k) [
        | yes e ↦
            subst
              (λ i.
                of_symbol dec symbol i fresh ++ of_symbol dec symbol i (admitted d groups)
                ≡ (dedup id group (last_of dec i d)).0)
              e
              (ap₂ ◌++◌ (of_symbol_same dec symbol j fresh same) (
                  of_symbol-admitted j d groups distinct.1 uniform.1
                  ∙ ap (λ l. (dedup id l (last_of dec j d)).0) (group_of-Absent j groups distinct.0)
                  ∙ ap (λ r. r.0) (dedup-nil (last_of dec j d)))
                ∙ append-nil fresh)
            ∙ ap (λ l. (dedup id l (last_of dec k d)).0)
                (sym (if_pos (dec j k) e group (group_of dec symbol k groups)))
        | no e ↦
            ap (λ l. l ++ of_symbol dec symbol k (admitted d groups))
              (of_symbol_other dec symbol j k fresh e same)
            ∙ of_symbol-admitted k d groups distinct.1 uniform.1
            ∙ ap (λ l. (dedup id l (last_of dec k d)).0)
                (sym (if_neg (dec j k) e group (group_of dec symbol k groups)))
      ]
