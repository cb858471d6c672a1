-- ===== src/Ingest/Instruments.antt =====
-- The instruments of the two hosts, by ingest/src/config.py and by resources/backfill.py.
use nano_tick.Base.{ℕ, ◌≡◌, refl, sym, ap, ◌∙◌, Option, none, some, List, [], ◌∷◌, map, arith}
use nano_tick.Base.Text.{Text, lower, lower_char, lstrip, rstrip}
use nano_tick.Ingest.{split_comma, clean, symbols}
use nano_tick.Ingest.Config as IngestSettings
use nano_tick.Ingest.Config.{first_set, Config}
use nano_tick.Backfill.Config as BackfillSettings
use nano_tick.Backfill.Config.{BackfillConfig, upper, upper_char, clean_upper}

upper_char-lower_char : (c : ℕ) → upper_char (lower_char c) ≡ upper_char c
unfolding upper_char lower_char
upper_char-lower_char c = ground arith

upper-lower : (t : Text) → upper (lower t) ≡ upper t
unfolding upper lower
upper-lower [] = refl
upper-lower (c ∷ cs) =
    ap (λ d. d ∷ upper (lower cs)) (upper_char-lower_char c)
    ∙ ap (◌∷◌ (upper_char c)) (upper-lower cs)

with_word :
    (w : Text) (rest rest' : List Text)
    → rest' ≡ map upper rest
    → elim w [ [] ↦ rest' | c ∷ cs ↦ upper (c ∷ cs) ∷ rest' ]
      ≡ map upper (elim w [ [] ↦ rest | c ∷ cs ↦ lower (c ∷ cs) ∷ rest ])
with_word [] rest rest' h = h
with_word (c ∷ cs) rest rest' h =
    ap (λ t. t ∷ rest') (sym (upper-lower (c ∷ cs))) ∙ ap (◌∷◌ (upper (lower (c ∷ cs)))) h

clean_upper-clean : (parts : List Text) → clean_upper parts ≡ map upper (clean parts)
unfolding clean_upper clean
clean_upper-clean [] = refl
clean_upper-clean (part ∷ parts) =
    with_word (rstrip (lstrip part)) (clean parts) (clean_upper parts) (clean_upper-clean parts)

-- `instruments` of resources/backfill.py, by the two variables
abbrev upper_symbols : Option Text → Option Text → List Text
upper_symbols many one =
    let (part, parts) = split_comma (first_set many one BackfillSettings.default_symbol) in
    clean_upper (part ∷ parts)

upper_symbols-symbols :
    (many one : Option Text)
    → upper_symbols many one
      ≡ map upper (symbols (first_set many one IngestSettings.default_symbol))
unfolding symbols first_set clean_upper clean lower_char upper_char
upper_symbols-symbols none none = refl
upper_symbols-symbols (some []) none = refl
upper_symbols-symbols none (some t) = clean_upper-clean ((split_comma t).0 ∷ (split_comma t).1)
upper_symbols-symbols (some []) (some t) = clean_upper-clean ((split_comma t).0 ∷ (split_comma t).1)
upper_symbols-symbols (some (c ∷ cs)) one =
    clean_upper-clean ((split_comma (c ∷ cs)).0 ∷ (split_comma (c ∷ cs)).1)

-- With the same two variables of the environment, the store host backfills the instruments that the
-- ingest host streams, in the same order, in upper case.
pub instruments-upper :
    (stream : IngestSettings.Variable → Option Text)
    (store : BackfillSettings.Variable → Option Text)
    → stream IngestSettings.Variable.env_symbols ≡ store BackfillSettings.Variable.env_symbols
    → stream IngestSettings.Variable.env_symbol ≡ store BackfillSettings.Variable.env_symbol
    → BackfillSettings.instruments store ≡ map upper (IngestSettings.instruments stream)
unfolding BackfillSettings.instruments IngestSettings.instruments
instruments-upper stream store many one =
    ap (λ o. upper_symbols o (store BackfillSettings.Variable.env_symbol)) (sym many)
    ∙ ap (upper_symbols (stream IngestSettings.Variable.env_symbols)) (sym one)
    ∙ upper_symbols-symbols (stream IngestSettings.Variable.env_symbols)
        (stream IngestSettings.Variable.env_symbol)
