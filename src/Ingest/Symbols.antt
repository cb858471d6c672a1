-- ===== src/Ingest/Symbols.antt =====
-- The symbols that ingest/src/config.py reads from a comma-separated text.
use nano_tick.Base.{
  ℕ, ◌≡◌, refl, ◌∙◌, ap, true, false, List, [], ◌∷◌, ◌++◌, map, All, All-append, All-map, ◌==◌,
  arith,
}
use mathlib.Core.Path.{ap₂}
use nano_tick.Base.Text.{
  lstrip_plain, Text, is_space, lstrip, rstrip, cons_stripped, lower, lower_char,
}
use nano_tick.Ingest.{split_comma, clean, symbols}

-- a character of a symbol: no comma, no white space and no capital letter
abbrev pub IsPlain : ℕ → Type 0
IsPlain c = ((c == 44) ≡ false) × (is_space c ≡ false) × (lower_char c ≡ c)

abbrev pub IsBlank : Text → Type 0
IsBlank cs = All (λ c. is_space c ≡ true) cs

-- a symbol, which is not empty, with white space around it
pub record Padded : Type 0 where
  pub before : Text
  pub head : ℕ
  pub tail : Text
  pub after : Text

abbrev pub word : Padded → Text
word p = p.head ∷ p.tail

abbrev pub text_of : Padded → Text
text_of p = p.before ++ (word p ++ p.after)

abbrev pub IsPadded : Padded → Type 0
IsPadded p = IsBlank p.before × IsPlain p.head × All IsPlain p.tail × IsBlank p.after

abbrev pub join_comma : Text → List Text → Text
join_comma first [] = first
join_comma first (next ∷ others) = first ++ (44 ∷ join_comma next others)

space_no_comma : (c : ℕ) → is_space c ≡ true → (c == 44) ≡ false
unfolding is_space
space_no_comma c h = ground arith

abbrev NoComma : Text → Type 0
NoComma cs = All (λ c. (c == 44) ≡ false) cs

split_comma_last : (x : Text) → NoComma x → split_comma x ≡ (x, [])
unfolding split_comma
split_comma_last [] h = refl
split_comma_last (c ∷ cs) h = rw (h.0, split_comma_last cs h.1) refl

split_comma_next :
    (x y : Text)
    → NoComma x
    → split_comma (x ++ 44 ∷ y) ≡ (x, (split_comma y).0 ∷ (split_comma y).1)
unfolding split_comma
split_comma_next [] y h = refl
split_comma_next (c ∷ cs) y h = rw (h.0, split_comma_next cs y h.1) refl

lstrip_blank : (pre x : Text) → IsBlank pre → lstrip (pre ++ x) ≡ lstrip x
unfolding lstrip
lstrip_blank [] x h = refl
lstrip_blank (c ∷ pre) x h = rw h.0 (lstrip_blank pre x h.1)

rstrip_blank : (post : Text) → IsBlank post → rstrip post ≡ []
unfolding rstrip cons_stripped
rstrip_blank [] h = refl
rstrip_blank (c ∷ post) h = rw (rstrip_blank post h.1, h.0) refl

cons_stripped_plain : (c : ℕ) (x : Text) → is_space c ≡ false → cons_stripped c x ≡ c ∷ x
unfolding cons_stripped
cons_stripped_plain c [] h = rw h refl
cons_stripped_plain c (d ∷ ds) h = refl

rstrip_word : (w post : Text) → All IsPlain w → IsBlank post → rstrip (w ++ post) ≡ w
unfolding rstrip
rstrip_word [] post h b = rstrip_blank post b
rstrip_word (c ∷ w) post h b =
    ap (cons_stripped c) (rstrip_word w post h.1 b) ∙ cons_stripped_plain c w h.0.1

lower_plain : (w : Text) → All IsPlain w → lower w ≡ w
unfolding lower
lower_plain [] h = refl
lower_plain (c ∷ w) h = ap₂ ◌∷◌ h.0.2 (lower_plain w h.1)

stripped : (p : Padded) → IsPadded p → rstrip (lstrip (text_of p)) ≡ word p
stripped p h =
    ap rstrip (
      lstrip_blank p.before (word p ++ p.after) h.0 ∙ lstrip_plain p.head (p.tail ++ p.after) h.1.1)
    ∙ rstrip_word (word p) p.after (h.1, h.2) h.3

clean_words : (ps : List Padded) → All IsPadded ps → clean (map text_of ps) ≡ map word ps
unfolding clean
clean_words [] h = refl
clean_words (p ∷ ps) h =
    rw (clean, stripped p h.0) (ap₂ ◌∷◌ (lower_plain (word p) (h.0.1, h.0.2)) (clean_words ps h.1))

text-NoComma : (p : Padded) → IsPadded p → NoComma (text_of p)
text-NoComma p h =
    All-append (λ c. (c == 44) ≡ false) p.before (word p ++ p.after) (blank p.before h.0)
      (All-append (λ c. (c == 44) ≡ false) (word p) p.after
        (h.1.0, All-map IsPlain _ (λ c plain. plain.0) p.tail h.2) (blank p.after h.3))
  where
    blank : (cs : Text) → IsBlank cs → NoComma cs
    blank cs b = All-map (λ c. is_space c ≡ true) _ space_no_comma cs b

split_comma-join :
    (p : Padded) (ps : List Padded)
    → IsPadded p
    → All IsPadded ps
    → split_comma (join_comma (text_of p) (map text_of ps)) ≡ (text_of p, map text_of ps)
split_comma-join p [] h hs = split_comma_last (text_of p) (text-NoComma p h)
split_comma-join p (q ∷ ps) h hs =
    split_comma_next (text_of p) (join_comma (text_of q) (map text_of ps)) (text-NoComma p h)
    ∙ ap (λ r. (text_of p, r.0 ∷ r.1)) (split_comma-join q ps hs.0 hs.1)

-- From symbols in lower case, joined by commas, with any white space around each, exactly the symbols
-- are read back, in order.
pub symbols-join :
    (p : Padded) (ps : List Padded)
    → IsPadded p
    → All IsPadded ps
    → symbols (join_comma (text_of p) (map text_of ps)) ≡ map word (p ∷ ps)
unfolding symbols
symbols-join p ps h hs =
    ap (λ r. clean (r.0 ∷ r.1)) (split_comma-join p ps h hs) ∙ clean_words (p ∷ ps) (h, hs)
