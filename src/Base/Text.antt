-- ===== src/Base/Text.antt =====
-- Python's methods on ASCII texts, which are lists of character codes.
use Prim.Native.Nat.{ℕ, ◌+◌}
use mathlib.Core.Path.{◌≡◌, refl, sym, ap, ap₂, ◌∙◌}
use mathlib.Core.Logic.{inl, inr}
use native.Mathlib.Omega.{arith}
use mathlib.Core.Bool.{Bool, true, false, ◌&&◌, ◌||◌}
use mathlib.Core.List.{List, [], ◌∷◌}
use nano_tick.Base.Bools.{leb, ◌==◌, if◌then◌else◌, eqb→eq, Bool-cases}

abbrev pub Text : Type 0
Text = List ℕ

unfoldable pub is_space : ℕ → Bool
is_space c = (c == 32) || (leb 9 c && leb c 13)

-- `s.strip()`
unfoldable pub lstrip : Text → Text
unfolding is_space
lstrip [] = []
lstrip (c ∷ cs) = let rest = lstrip cs in if is_space c then rest else c ∷ cs

-- a text that ends here, or goes on with a space that is stripped if nothing else follows
unfoldable pub cons_stripped : ℕ → Text → Text
unfolding is_space
cons_stripped c [] = if is_space c then [] else c ∷ []
cons_stripped c (d ∷ ds) = c ∷ d ∷ ds

unfoldable pub rstrip : Text → Text
unfolding cons_stripped
rstrip [] = []
rstrip (c ∷ cs) = cons_stripped c (rstrip cs)

-- `s.lower()`
unfoldable pub lower_char : ℕ → ℕ
lower_char c = if leb 65 c && leb c 90 then c + 32 else c

unfoldable pub lower : Text → Text
unfolding lower_char
lower [] = []
lower (c ∷ cs) = lower_char c ∷ lower cs

-- whether two texts are the same
unfoldable pub same_text : Text → Text → Bool
same_text [] [] = true
same_text [] (d ∷ ds) = false
same_text (c ∷ cs) [] = false
same_text (c ∷ cs) (d ∷ ds) = if c == d then same_text cs ds else false

pub lstrip_plain : (c : ℕ) (x : Text) → is_space c ≡ false → lstrip (c ∷ x) ≡ c ∷ x
unfolding lstrip
lstrip_plain c x h = rw h refl

pub same_text_self : (x : Text) → same_text x x ≡ true
unfolding same_text
same_text_self [] = refl
same_text_self (c ∷ cs) = let here : (c == c) ≡ true = ground arith in rw here (same_text_self cs)

pub same_text_eq : (x y : Text) → same_text x y ≡ true → x ≡ y
unfolding same_text
same_text_eq [] [] h = refl
same_text_eq [] (d ∷ ds) h = absurd (cc)
same_text_eq (c ∷ cs) [] h = absurd (cc)
same_text_eq (c ∷ cs) (d ∷ ds) h = elim (Bool-cases (c == d)) [
  | inl e ↦
      ap₂ ◌∷◌ (eqb→eq c d e)
        (same_text_eq cs ds (sym (ap (λ b. if b then same_text cs ds else false) e) ∙ h))
  | inr e ↦
      let no : false ≡ true = sym (ap (λ b. if b then same_text cs ds else false) e) ∙ h in
      absurd (cc)
]
