-- ===== src/Dates/Print.antt =====
-- Texts in a format of `strftime`, and their reading by `strptime`.
use nano_tick.Base.{
  ℕ, ◌/◌, ◌≤◌, ◌<◌, ◌≡◌, refl, ap, sym, ◌∙◌, true, false, List, [], ◌∷◌, ◌++◌, ◌==◌, ok, arith,
}
use nano_tick.Base.Text.{Text, is_space}
use nano_tick.Data.{is_digit}
use nano_tick.Dates.{
  Fields, Directive, day_number, match_one, match_all, skip_spaces, strptime, is_date,
}
use nano_tick.Dates.Digits.{digit, two, four, Ends, number-two, number-four}

-- `strftime` of one directive, and of a format
abbrev pub print_one : Directive → Fields → Text
print_one Directive.year_4 f = four f.year
print_one Directive.month_2 f = two f.month
print_one Directive.day_2 f = two f.day
print_one Directive.hour_2 f = two f.hour
print_one Directive.minute_2 f = two f.minute
print_one Directive.second_2 f = two f.second
print_one (Directive.literal c) f = c ∷ []
print_one Directive.spaces f = 32 ∷ []

abbrev pub print : List Directive → Fields → Text
print [] f = []
print (d ∷ ds) f = print_one d f ++ print ds f

-- the fields `g`, with those that the directive shows taken from `f`
abbrev pub put : Directive → Fields → Fields → Fields
put Directive.year_4 f g = record g { year = f.year }
put Directive.month_2 f g = record g { month = f.month }
put Directive.day_2 f g = record g { day = f.day }
put Directive.hour_2 f g = record g { hour = f.hour }
put Directive.minute_2 f g = record g { minute = f.minute }
put Directive.second_2 f g = record g { second = f.second }
put (Directive.literal c) f g = g
put Directive.spaces f g = g

abbrev pub put_all : List Directive → Fields → Fields → Fields
put_all [] f g = g
put_all (d ∷ ds) f g = put_all ds f (put d f g)

abbrev pub IsNumeric : Directive → Type 0
IsNumeric (Directive.literal c) = ⊥
IsNumeric Directive.spaces = ⊥
IsNumeric _ = Unit

-- A separator is a space, or a character that is no digit.
abbrev pub IsSeparator : Directive → Type 0
IsSeparator (Directive.literal c) = is_digit c ≡ false
IsSeparator Directive.spaces = Unit
IsSeparator _ = ⊥

-- Numbers and separators take turns.
abbrev pub Alternates : List Directive → Type 0
Alternates [] = ⊥
Alternates (d ∷ []) = IsNumeric d
Alternates (d ∷ s ∷ ds) = IsNumeric d × IsSeparator s × Alternates ds

-- The fields are in the ranges that the directives match.
pub record InBounds (f : Fields) : Type 0 where
  pub year_below : f.year < 10000
  pub month_from : 1 ≤ f.month
  pub month_to : f.month ≤ 12
  pub day_from : 1 ≤ f.day
  pub day_to : f.day ≤ 31
  pub hour_to : f.hour ≤ 23
  pub minute_to : f.minute ≤ 59
  pub second_to : f.second ≤ 59

day_number-two :
    (n : ℕ) (rest : Text) → 1 ≤ n → n ≤ 31 → Ends rest → day_number (two n ++ rest) ≡ ok (n, rest)
unfolding day_number
day_number-two n rest low high e =
    let digits : (digit (n / 10) == 32) ≡ false = ground arith in
    rw digits (number-two 1 31 n rest (omega arith) low high e)

pub match_numeric :
    (d : Directive) (f g : Fields) (rest : Text)
    → IsNumeric d
    → InBounds f
    → Ends rest
    → match_one d (print_one d f ++ rest) g ≡ ok (put d f g, rest)
unfolding match_one
match_numeric Directive.year_4 f g rest k b e = rw (number-four f.year rest b.year_below e) refl
match_numeric Directive.month_2 f g rest k b e =
    rw (number-two 1 12 f.month rest (omega (arith, b.month_to)) b.month_from b.month_to e) refl
match_numeric Directive.day_2 f g rest k b e =
    rw (day_number-two f.day rest b.day_from b.day_to e) refl
match_numeric Directive.hour_2 f g rest k b e =
    rw (number-two 0 23 f.hour rest (omega (arith, b.hour_to)) (omega arith) b.hour_to e) refl
match_numeric Directive.minute_2 f g rest k b e =
    rw (number-two 0 59 f.minute rest (omega (arith, b.minute_to)) (omega arith) b.minute_to e) refl
match_numeric Directive.second_2 f g rest k b e =
    rw (number-two 0 59 f.second rest (omega (arith, b.second_to)) (omega arith) b.second_to e) refl
match_numeric (Directive.literal c) f g rest k b e = absurd k
match_numeric Directive.spaces f g rest k b e = absurd k

-- A text that starts as a number does.
abbrev Starts : Text → Type 0
Starts [] = ⊥
Starts (c ∷ cs) = is_space c ≡ false

digit-no_space : (n : ℕ) → is_space (digit n) ≡ false
unfolding is_space
digit-no_space n = ground arith

pub print-Starts : (ds : List Directive) (f : Fields) → Alternates ds → Starts (print ds f)
print-Starts [] f a = a
print-Starts (Directive.year_4 ∷ ds) f a = digit-no_space _
print-Starts (Directive.month_2 ∷ ds) f a = digit-no_space _
print-Starts (Directive.day_2 ∷ ds) f a = digit-no_space _
print-Starts (Directive.hour_2 ∷ ds) f a = digit-no_space _
print-Starts (Directive.minute_2 ∷ ds) f a = digit-no_space _
print-Starts (Directive.second_2 ∷ ds) f a = digit-no_space _
print-Starts (Directive.literal c ∷ []) f a = absurd a
print-Starts (Directive.literal c ∷ d ∷ ds) f a = absurd a.0
print-Starts (Directive.spaces ∷ []) f a = absurd a
print-Starts (Directive.spaces ∷ d ∷ ds) f a = absurd a.0

skip_spaces-Starts : (cs : Text) → Starts cs → skip_spaces cs ≡ cs
unfolding skip_spaces
skip_spaces-Starts [] h = refl
skip_spaces-Starts (c ∷ cs) h = rw h refl

pub match_separator :
    (s : Directive) (f g : Fields) (rest : Text)
    → IsSeparator s
    → Starts rest
    → match_one s (print_one s f ++ rest) g ≡ ok (g, rest)
unfolding match_one
match_separator (Directive.literal c) f g rest k h = ground arith
match_separator Directive.spaces f g rest k h = rw (skip_spaces-Starts rest h) refl
match_separator Directive.year_4 f g rest k h = absurd k
match_separator Directive.month_2 f g rest k h = absurd k
match_separator Directive.day_2 f g rest k h = absurd k
match_separator Directive.hour_2 f g rest k h = absurd k
match_separator Directive.minute_2 f g rest k h = absurd k
match_separator Directive.second_2 f g rest k h = absurd k

is_digit_space : is_digit 32 ≡ false
unfolding is_digit
is_digit_space = refl

pub separator-Ends :
    (s : Directive) (f : Fields) (rest : Text) → IsSeparator s → Ends (print_one s f ++ rest)
separator-Ends (Directive.literal c) f rest k = k
separator-Ends Directive.spaces f rest k = is_digit_space
separator-Ends Directive.year_4 f rest k = absurd k
separator-Ends Directive.month_2 f rest k = absurd k
separator-Ends Directive.day_2 f rest k = absurd k
separator-Ends Directive.hour_2 f rest k = absurd k
separator-Ends Directive.minute_2 f rest k = absurd k
separator-Ends Directive.second_2 f rest k = absurd k

pub put_separator : (s : Directive) (f g : Fields) → IsSeparator s → put s f g ≡ g
put_separator s f g k = ground arith

pub match_all-print :
    (ds : List Directive) (f g : Fields)
    → Alternates ds
    → InBounds f
    → is_date (put_all ds f g) ≡ true
    → match_all ds (print ds f) g ≡ ok (put_all ds f g)
unfolding match_all
match_all-print [] f g a b v = absurd a
match_all-print (d ∷ []) f g a b v = rw (match_numeric d f g [] a b tt, v) refl
match_all-print (d ∷ s ∷ ds) f g a b v =
    let same = put_separator s f (put d f g) a.1 in
    let valid = ap (λ x. is_date (put_all ds f x)) (sym same) ∙ v in
    rw
      (
        match_numeric d f g (print_one s f ++ print ds f) a.0 b
            (separator-Ends s f (print ds f) a.1),
        match_separator s f (put d f g) (print ds f) a.1 (print-Starts ds f a.2),
        same,
      )
      (match_all-print ds f (put d f g) a.2 b valid)

-- the fields before anything is read
abbrev pub defaults : Fields
defaults = record { year = 1900; month = 1; day = 1; hour = 0; minute = 0; second = 0 }

-- What `strftime` writes in a format of numbers with separators between them, `strptime` reads back
-- with this format, as the fields that the format shows and the default for each other, if they
-- make a date of the calendar.
pub strptime-print :
    (format : List Directive) (f : Fields)
    → Alternates format
    → InBounds f
    → is_date (put_all format f defaults) ≡ true
    → strptime format (print format f) ≡ ok (put_all format f defaults)
unfolding strptime
strptime-print format f a b v = match_all-print format f defaults a b v
