-- ===== src/Dashboard/Formats.antt =====
-- Formats of resources/dashboard.py that match or do not match a text, one directive after another.
use nano_tick.Base.{
  ℕ, ◌/◌, ◌<◌, ◌≡◌, refl, false, List, [], ◌∷◌, ◌++◌, ◌==◌, ok, raise, Error, arith, All,
  All-append,
}
use nano_tick.Base.Text.{Text}
use nano_tick.Data.{is_digit}
use nano_tick.Dates.{Fields, Directive, strptime, match_one, match_all}
use nano_tick.Dates.Digits.{digit, two, four, number-four}
use nano_tick.Dates.Print.{
  print, print_one, put, defaults, IsSeparator, Alternates, InBounds, match_numeric,
  match_separator, separator-Ends, print-Starts,
}
use nano_tick.Dashboard.{normalised, instant_of, try_formats}

pub separator_needed :
    (e : Directive) (g : Fields) → IsSeparator e → match_one e [] g ≡ raise Error.value_error
unfolding match_one
separator_needed e g k = ground arith

-- A format that goes on after all of the text is read does not match.
pub match_all_short :
    (ds es : List Directive) (e : Directive) (f g : Fields)
    → Alternates ds
    → InBounds f
    → IsSeparator e
    → match_all (ds ++ e ∷ es) (print ds f) g ≡ raise Error.value_error
unfolding match_all
match_all_short [] es e f g a b k = absurd a
match_all_short (d ∷ []) es e f g a b k =
    rw (match_numeric d f g [] a b tt, separator_needed e (put d f g) k) refl
match_all_short (d ∷ s ∷ ds) es e f g a b k =
    rw
      (
        match_numeric d f g (print_one s f ++ print ds f) a.0 b
            (separator-Ends s f (print ds f) a.1),
        match_separator s f (put d f g) (print ds f) a.1 (print-Starts ds f a.2),
      )
      (match_all_short ds es e f (put d f g) a.2 b k)

pub strptime_short :
    (ds es : List Directive) (e : Directive) (f : Fields)
    → Alternates ds
    → InBounds f
    → IsSeparator e
    → strptime (ds ++ e ∷ es) (print ds f) ≡ raise Error.value_error
unfolding strptime
strptime_short ds es e f a b k = match_all_short ds es e f defaults a b k

-- A format with another separator after the year does not match.
pub strptime_other :
    (c sep : ℕ) (ds es : List Directive) (f : Fields)
    → (c == sep) ≡ false
    → is_digit c ≡ false
    → f.year < 10000
    → strptime
        (Directive.year_4 ∷ Directive.literal sep ∷ ds)
        (print (Directive.year_4 ∷ Directive.literal c ∷ es) f)
      ≡ raise Error.value_error
unfolding strptime match_all match_one
strptime_other c sep ds es f h k small = rw (number-four f.year (c ∷ print es f) small k, h) refl

-- the loop over the formats, at one that does not match and at one that does
pub try_next :
    (format : List Directive) (fs : List (List Directive)) (s : Text) (e : Error)
    → strptime format s ≡ raise e
    → try_formats (format ∷ fs) s ≡ try_formats fs s
unfolding try_formats
try_next format fs s e h = rw (try_formats, h) refl

pub try_match :
    (format : List Directive) (fs : List (List Directive)) (s : Text) (f : Fields)
    → strptime format s ≡ ok f
    → try_formats (format ∷ fs) s ≡ ok (instant_of f)
unfolding try_formats
try_match format fs s f h = rw (try_formats, h) refl

-- a character that `parse_instant` leaves as it is
abbrev pub IsKept : ℕ → Type 0
IsKept c = ((c == 90) ≡ false) × ((c == 84) ≡ false)

pub normalised_kept : (cs : Text) → All IsKept cs → normalised cs ≡ cs
unfolding normalised
normalised_kept [] h = refl
normalised_kept (c ∷ cs) h = rw (h.0.0, h.0.1, normalised_kept cs h.1) refl

pub digit-IsKept : (n : ℕ) → IsKept (digit n)
digit-IsKept n = ground arith

pub two-IsKept : (n : ℕ) → All IsKept (two n)
two-IsKept n = (digit-IsKept (n / 10), (digit-IsKept n, tt))

pub four-IsKept : (n : ℕ) → All IsKept (four n)
four-IsKept n = (
  digit-IsKept (n / 1000),
  (digit-IsKept (n / 100), (digit-IsKept (n / 10), (digit-IsKept n, tt))),
)

-- A directive whose text is kept.
abbrev pub KeepsText : Directive → Type 0
KeepsText (Directive.literal c) = IsKept c
KeepsText _ = Unit

pub print_one-IsKept : (d : Directive) (f : Fields) → KeepsText d → All IsKept (print_one d f)
print_one-IsKept Directive.year_4 f k = four-IsKept f.year
print_one-IsKept Directive.month_2 f k = two-IsKept f.month
print_one-IsKept Directive.day_2 f k = two-IsKept f.day
print_one-IsKept Directive.hour_2 f k = two-IsKept f.hour
print_one-IsKept Directive.minute_2 f k = two-IsKept f.minute
print_one-IsKept Directive.second_2 f k = two-IsKept f.second
print_one-IsKept (Directive.literal c) f k = (k, tt)
print_one-IsKept Directive.spaces f k = ((refl, refl), tt)

pub print-IsKept : (ds : List Directive) (f : Fields) → All KeepsText ds → All IsKept (print ds f)
print-IsKept [] f k = tt
print-IsKept (d ∷ ds) f k =
    All-append IsKept (print_one d f) (print ds f) (print_one-IsKept d f k.0)
      (print-IsKept ds f k.1)
