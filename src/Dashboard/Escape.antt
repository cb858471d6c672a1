-- ===== src/Dashboard/Escape.antt =====
-- The escaping of the payload in resources/dashboard.py.
use nano_tick.Base.{◌≡◌, refl, false, ◌&&◌, [], ◌∷◌, ◌==◌, inl, inr, arith, Bool-cases}
use nano_tick.Base.Text.{Text}
use nano_tick.Dashboard.{escape, is_slash_next}

-- Nowhere in the text does `/` follow `<`.
abbrev pub NoClosing : Text → Type 0
NoClosing [] = Unit
NoClosing (c ∷ cs) = (((c == 60) && is_slash_next cs) ≡ false) × NoClosing cs

escape-is_slash_next : (cs : Text) → is_slash_next (escape cs) ≡ is_slash_next cs
unfolding escape
escape-is_slash_next [] = refl
escape-is_slash_next (c ∷ cs) = elim (Bool-cases ((c == 60) && is_slash_next cs)) [
  | inl e ↦ rw e (ground arith)
  | inr e ↦ rw e refl
]

escape_safe : (blob : Text) → NoClosing (escape blob)
unfolding escape
escape_safe [] = tt
escape_safe (c ∷ cs) = elim (Bool-cases ((c == 60) && is_slash_next cs)) [
  | inl e ↦ rw e (refl, (refl, escape_safe cs))
  | inr e ↦ rw e (ground (arith, escape-is_slash_next cs), escape_safe cs)
]

escape_plain : (blob : Text) → NoClosing blob → escape blob ≡ blob
unfolding escape
escape_plain [] h = refl
escape_plain (c ∷ cs) h = rw (h.0, escape_plain cs h.1) refl

-- The escaped blob has no `</`, so no text in it can close the script element of the page; and to
-- escape it again changes nothing.
pub escape-NoClosing :
    (blob : Text) → NoClosing (escape blob) × (escape (escape blob) ≡ escape blob)
escape-NoClosing blob = (escape_safe blob, escape_plain (escape blob) (escape_safe blob))
