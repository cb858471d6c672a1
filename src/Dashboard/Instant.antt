-- ===== src/Dashboard/Instant.antt =====
-- The instants that resources/dashboard.py reads.
use nano_tick.Base.{
  ℕ, ◌/◌, ◌<◌, ◌≡◌, refl, ◌∙◌, true, false, List, [], ◌∷◌, ok, raise, Error, inl, inr, ◌⊎◌, arith,
  All, drop,
}
use nano_tick.Base.Text.{Text, lstrip, rstrip, cons_stripped}
use nano_tick.Data.{is_digit, all_digits, isdigit}
use nano_tick.Dates.{Fields, Directive, ymd, strptime, is_date}
use nano_tick.Dates.Digits.{digit-is_digit}
use nano_tick.Dates.Print.{print, put_all, defaults, Alternates, InBounds, strptime-print}
use nano_tick.Reader.Coerce.{digit-Solid}
use nano_tick.Dashboard.{
  normalised, with_minutes, with_seconds, formats, instant_of, try_formats, parse_instant,
}
use nano_tick.Dashboard.Formats.{
  strptime_short, strptime_other, try_next, try_match, IsKept, normalised_kept, KeepsText,
  print-IsKept,
}

-- The formats with a date separator, by their precision.
pub data Precision : Type 0 where
  by_day by_minute by_second : Precision

abbrev pub format_of : ℕ → Precision → List Directive
format_of sep by_day = ymd sep
format_of sep by_minute = with_minutes sep
format_of sep by_second = with_seconds sep

normalised-print :
    (sep : ℕ) (p : Precision) (f : Fields)
    → IsKept sep
    → normalised (print (format_of sep p) f) ≡ print (format_of sep p) f
normalised-print sep p f h =
    normalised_kept (print (format_of sep p) f) (print-IsKept (format_of sep p) f (keeps p))
  where
    keeps : (p : Precision) → All KeepsText (format_of sep p)
    keeps by_day = (tt, (h, (tt, (h, (tt, tt)))))
    keeps by_minute = (tt, (h, (tt, (h, (tt, (tt, (tt, ((refl, refl), (tt, tt)))))))))
    keeps by_second =
        (tt, (h, (tt, (h, (tt, (tt, (tt, ((refl, refl), (tt, ((refl, refl), (tt, tt)))))))))))

isdigit-print :
    (sep : ℕ) (p : Precision) (f : Fields)
    → is_digit sep ≡ false
    → isdigit (print (format_of sep p) f) ≡ false
unfolding isdigit all_digits
isdigit-print sep by_day f h =
    rw
      (
        digit-is_digit (f.year / 1000),
        digit-is_digit (f.year / 100),
        digit-is_digit (f.year / 10),
        digit-is_digit f.year,
        h,
      )
      refl
isdigit-print sep by_minute f h =
    rw
      (
        digit-is_digit (f.year / 1000),
        digit-is_digit (f.year / 100),
        digit-is_digit (f.year / 10),
        digit-is_digit f.year,
        h,
      )
      refl
isdigit-print sep by_second f h =
    rw
      (
        digit-is_digit (f.year / 1000),
        digit-is_digit (f.year / 100),
        digit-is_digit (f.year / 10),
        digit-is_digit f.year,
        h,
      )
      refl

lstrip-print :
    (sep : ℕ) (p : Precision) (f : Fields)
    → lstrip (print (format_of sep p) f) ≡ print (format_of sep p) f
unfolding lstrip
lstrip-print sep by_day f = rw (digit-Solid (f.year / 1000)) refl
lstrip-print sep by_minute f = rw (digit-Solid (f.year / 1000)) refl
lstrip-print sep by_second f = rw (digit-Solid (f.year / 1000)) refl

rstrip-print :
    (sep : ℕ) (p : Precision) (f : Fields)
    → rstrip (print (format_of sep p) f) ≡ print (format_of sep p) f
unfolding rstrip cons_stripped
rstrip-print sep by_day f = rw (digit-Solid f.day) refl
rstrip-print sep by_minute f = rw (digit-Solid f.minute) refl
rstrip-print sep by_second f = rw (digit-Solid f.second) refl

parse_instant-try_formats :
    (s : Text)
    → lstrip s ≡ s
    → rstrip s ≡ s
    → isdigit s ≡ false
    → normalised s ≡ s
    → parse_instant s ≡ try_formats formats s
unfolding parse_instant
parse_instant-try_formats s h h' k n = rw (h, h', k, n) refl

alternates : (sep : ℕ) (p : Precision) → is_digit sep ≡ false → Alternates (format_of sep p)
unfolding is_digit
alternates sep by_day h = (tt, h, (tt, h, tt))
alternates sep by_minute h = (tt, h, (tt, h, (tt, tt, (tt, refl, tt))))
alternates sep by_second h = (tt, h, (tt, h, (tt, tt, (tt, refl, (tt, refl, tt)))))

-- what the three formats with the right separator read
try_precisions :
    (sep : ℕ) (p : Precision) (fs : List (List Directive)) (f : Fields)
    → is_digit sep ≡ false
    → InBounds f
    → is_date (put_all (format_of sep p) f defaults) ≡ true
    → try_formats (with_seconds sep ∷ with_minutes sep ∷ ymd sep ∷ fs) (print (format_of sep p) f)
      ≡ ok (instant_of (put_all (format_of sep p) f defaults))
unfolding is_digit
try_precisions sep by_second fs f h b v =
    try_match (with_seconds sep) _ _ _
      (strptime-print (with_seconds sep) f (alternates sep by_second h) b v)
try_precisions sep by_minute fs f h b v =
    try_next (with_seconds sep) _ _ _
      (strptime_short (with_minutes sep) _ _ f (alternates sep by_minute h) b refl)
    ∙ try_match (with_minutes sep) _ _ _
        (strptime-print (with_minutes sep) f (alternates sep by_minute h) b v)
try_precisions sep by_day fs f h b v =
    try_next (with_seconds sep) _ _ _
      (strptime_short (ymd sep) _ _ f (alternates sep by_day h) b tt)
    ∙ try_next (with_minutes sep) _ _ _
        (strptime_short (ymd sep) _ _ f (alternates sep by_day h) b tt)
    ∙ try_match (ymd sep) _ _ _ (strptime-print (ymd sep) f (alternates sep by_day h) b v)

-- the formats with dashes do not match a date with dots
dots_fail :
    (ds : List Directive) (p : Precision) (f : Fields)
    → f.year < 10000
    → strptime (Directive.year_4 ∷ Directive.literal 45 ∷ ds) (print (format_of 46 p) f)
      ≡ raise Error.value_error
unfolding is_digit
dots_fail ds by_day f h = strptime_other 46 45 ds (drop 2 (format_of 46 by_day)) f refl refl h
dots_fail ds by_minute f h = strptime_other 46 45 ds (drop 2 (format_of 46 by_minute)) f refl refl h
dots_fail ds by_second f h = strptime_other 46 45 ds (drop 2 (format_of 46 by_second)) f refl refl h

try_formats-print :
    (sep : ℕ) (p : Precision) (f : Fields)
    → (sep ≡ 45) ⊎ (sep ≡ 46)
    → InBounds f
    → is_date (put_all (format_of sep p) f defaults) ≡ true
    → try_formats formats (print (format_of sep p) f)
      ≡ ok (instant_of (put_all (format_of sep p) f defaults))
unfolding is_digit
try_formats-print sep p f (inl e) b v = rw e (try_precisions 45 p _ f refl b (rw (← e) v))
try_formats-print sep p f (inr e) b v = rw e (
    try_next (with_seconds 45) _ _ _ (dots_fail _ p f b.year_below)
    ∙ try_next (with_minutes 45) _ _ _ (dots_fail _ p f b.year_below)
    ∙ try_next (ymd 45) _ _ _ (dots_fail _ p f b.year_below)
    ∙ try_precisions 46 p [] f refl b (rw (← e) v))

separators : (sep : ℕ) → (sep ≡ 45) ⊎ (sep ≡ 46) → (is_digit sep ≡ false) × IsKept sep
unfolding is_digit
separators sep h = ground arith

-- A date with dashes or with dots, alone, with hours and minutes, or with seconds too, is read as
-- the instant that it stands for, with zero for what is not written.
pub parse_instant-print :
    (sep : ℕ) (p : Precision) (f : Fields)
    → (sep ≡ 45) ⊎ (sep ≡ 46)
    → InBounds f
    → is_date (put_all (format_of sep p) f defaults) ≡ true
    → parse_instant (print (format_of sep p) f)
      ≡ ok (instant_of (put_all (format_of sep p) f defaults))
parse_instant-print sep p f h b v =
    let (no_digit, kept) = separators sep h in
    parse_instant-try_formats (print (format_of sep p) f) (lstrip-print sep p f)
      (rstrip-print sep p f) (isdigit-print sep p f no_digit) (normalised-print sep p f kept)
    ∙ try_formats-print sep p f h b v
