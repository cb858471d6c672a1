-- ===== src/Reader/Coerce.antt =====
-- Dates as texts (resources/reader.py).
use nano_tick.Base.{
  ℕ, ◌/◌, ◌≡◌, refl, ap, ◌∙◌, true, false, [], ◌∷◌, ◌==◌, if◌then◌else◌, ok, ◌>>=◌, arith, All,
}
use nano_tick.Base.Text.{Text, is_space, lstrip, rstrip, cons_stripped}
use nano_tick.Data.{is_digit}
use nano_tick.Dates.{Fields, ymd, strptime, date_of, is_date}
use nano_tick.Dates.Digits.{digit}
use nano_tick.Dates.Print.{print, put_all, defaults, InBounds, strptime-print}
use nano_tick.Reader.{DateLike, dotted, coerce_date}

-- There is no white space in the text.
abbrev pub Solid : Text → Type 0
Solid cs = All (λ c. is_space c ≡ false) cs

pub lstrip-Solid : (cs : Text) → Solid cs → lstrip cs ≡ cs
unfolding lstrip
lstrip-Solid [] h = refl
lstrip-Solid (c ∷ cs) h = rw h.0 refl

pub rstrip-Solid : (cs : Text) → Solid cs → rstrip cs ≡ cs
unfolding rstrip cons_stripped
rstrip-Solid [] h = refl
rstrip-Solid (c ∷ []) h = rw h.0 refl
rstrip-Solid (c ∷ d ∷ cs) h = rw (rstrip-Solid (d ∷ cs) h.1) refl

pub digit-Solid : (n : ℕ) → is_space (digit n) ≡ false
unfolding is_space
digit-Solid n = ground arith

digit-dotted : (n : ℕ) → (if digit n == 45 then 46 else digit n) ≡ digit n
digit-dotted n = ground arith

-- A date in numbers, with the separator between them.
dashed-dotted : (f : Fields) → dotted (print (ymd 45) f) ≡ print (ymd 46) f
unfolding dotted
dashed-dotted f =
    rw
      (
        digit-dotted (f.year / 1000),
        digit-dotted (f.year / 100),
        digit-dotted (f.year / 10),
        digit-dotted f.year,
        digit-dotted (f.month / 10),
        digit-dotted f.month,
        digit-dotted (f.day / 10),
        digit-dotted f.day,
      )
      refl

pub ymd-Solid : (sep : ℕ) (f : Fields) → is_space sep ≡ false → Solid (print (ymd sep) f)
ymd-Solid sep f h =
    let n = λ (k : ℕ). digit-Solid k in
    (
      n (f.year / 1000),
      (
        n (f.year / 100),
        (
          n (f.year / 10),
          (n f.year, (h, (n (f.month / 10), (n f.month, (h, (n (f.day / 10), (n f.day, tt))))))),
        ),
      ),
    )

dotted-dotted : (f : Fields) → dotted (print (ymd 46) f) ≡ print (ymd 46) f
unfolding dotted
dotted-dotted f =
    rw
      (
        digit-dotted (f.year / 1000),
        digit-dotted (f.year / 100),
        digit-dotted (f.year / 10),
        digit-dotted f.year,
        digit-dotted (f.month / 10),
        digit-dotted f.month,
        digit-dotted (f.day / 10),
        digit-dotted f.day,
      )
      refl

coerce_date-strptime :
    (s : Text) (g : Fields)
    → strptime (ymd 46) (dotted (rstrip (lstrip s))) ≡ ok g
    → coerce_date (DateLike.of_str s) ≡ ok (date_of g)
unfolding coerce_date
coerce_date-strptime s g h = ap (λ r. r >>= λ f. ok (date_of f)) h

coerce_date_trimmed :
    (s : Text) (g : Fields)
    → Solid s
    → strptime (ymd 46) (dotted s) ≡ ok g
    → coerce_date (DateLike.of_str s) ≡ ok (date_of g)
coerce_date_trimmed s g h e = coerce_date-strptime s g (
    ap (λ x. strptime (ymd 46) (dotted (rstrip x))) (lstrip-Solid s h)
    ∙ ap (λ x. strptime (ymd 46) (dotted x)) (rstrip-Solid s h)
    ∙ e)

-- A date of the calendar that is written as `YYYY-MM-DD`, as Python writes it, or as `YYYY.MM.DD`,
-- as q does, is read back as this date.
pub coerce_date-print :
    (f : Fields)
    → InBounds f
    → is_date (put_all (ymd 46) f defaults) ≡ true
    → (coerce_date (DateLike.of_str (print (ymd 45) f)) ≡ ok (date_of f))
      × (coerce_date (DateLike.of_str (print (ymd 46) f)) ≡ ok (date_of f))
unfolding is_space is_digit
coerce_date-print f b v =
    let read = strptime-print (ymd 46) f (tt, refl, (tt, refl, tt)) b v in
    (
      coerce_date_trimmed (print (ymd 45) f) _ (ymd-Solid 45 f refl)
          (ap (strptime (ymd 46)) (dashed-dotted f) ∙ read),
      coerce_date_trimmed (print (ymd 46) f) _ (ymd-Solid 46 f refl)
          (ap (strptime (ymd 46)) (dotted-dotted f) ∙ read),
    )
