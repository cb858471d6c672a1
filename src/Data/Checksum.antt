-- ===== src/Data/Checksum.antt =====
-- `verify_checksum` of resources/binance.py against the format of a .CHECKSUM file.
use nano_tick.Base.{
  ℕ, ◌≡◌, refl, sym, ◌∙◌, ap, true, false, [], ◌∷◌, ◌++◌, All, ok, ok_injective, ◌↔◌, ◌>>=◌,
}
use nano_tick.Base.Text.{
  lstrip_plain, Text, is_space, lower, same_text, same_text_self, same_text_eq,
}
use nano_tick.Data.{first_word, split_first, verify_checksum}

first_word-append :
    (x rest : Text) → All (λ c. is_space c ≡ false) x → first_word (x ++ 32 ∷ rest) ≡ x
unfolding first_word is_space
first_word-append [] rest h = refl
first_word-append (c ∷ cs) rest h = rw h.0 (ap (◌∷◌ c) (first_word-append cs rest h.1))

-- Of a checksum file "<digest> <name>" whose digest is not empty and has no white space, a
-- download is accepted exactly if its SHA-256 in hexadecimal is the digest in lower case.
pub verify_checksum_lem :
    {B : Type 0} (hexdigest : B → Text) (zip : B) (c : ℕ) (cs name : Text)
    → All (λ d. is_space d ≡ false) (c ∷ cs)
    → (verify_checksum hexdigest zip ((c ∷ cs) ++ 32 ∷ name) ≡ ok true)
      ↔ (hexdigest zip ≡ lower (c ∷ cs))
unfolding verify_checksum
verify_checksum_lem hexdigest zip c cs name h = (
  λ e. same_text_eq (hexdigest zip) (lower (c ∷ cs)) (ok_injective (sym run ∙ e)),
  λ e. run ∙ ap ok (ap (λ x. same_text x (lower (c ∷ cs))) e ∙ same_text_self (lower (c ∷ cs))),
)
  where
    run :
        verify_checksum hexdigest zip ((c ∷ cs) ++ 32 ∷ name)
        ≡ ok (same_text (hexdigest zip) (lower (c ∷ cs)))
    run =
        ap (λ t. do expected ← split_first t; ok (same_text (hexdigest zip) (lower expected)))
          (ap first_word (lstrip_plain c (cs ++ 32 ∷ name) h.0) ∙ first_word-append (c ∷ cs) name h)
