-- ===== src/Dates/Digits.antt =====
-- Digits of numbers, as `strftime` and `isoformat` write them, and as `strptime` reads them.
use nano_tick.Base.{
  ℕ, ◌+◌, ◌-◌, ◌*◌, ◌/◌, ◌%◌, ◌≤◌, ◌<◌, ◌≡◌, refl, true, false, [], ◌∷◌, ◌++◌, ok, arith,
}
use nano_tick.Base.Text.{Text}
use nano_tick.Data.{is_digit, digits_value}
use nano_tick.Dates.{span_digits, number}

abbrev pub digit : ℕ → ℕ
digit n = 48 + n % 10

-- two and four digits, with leading zeros
abbrev pub two : ℕ → Text
two n = digit (n / 10) ∷ digit n ∷ []

abbrev pub four : ℕ → Text
four n = digit (n / 1000) ∷ digit (n / 100) ∷ digit (n / 10) ∷ digit n ∷ []

-- The text does not go on with a digit.
abbrev pub Ends : Text → Type 0
Ends [] = Unit
Ends (c ∷ cs) = is_digit c ≡ false

pub digit-is_digit : (n : ℕ) → is_digit (digit n) ≡ true
unfolding is_digit
digit-is_digit n = ground arith

span_digits-Ends : (rest : Text) → Ends rest → span_digits rest ≡ ([], rest)
unfolding span_digits
span_digits-Ends [] h = refl
span_digits-Ends (c ∷ cs) h = rw h refl

pub number-two :
    (lo hi n : ℕ) (rest : Text)
    → n < 100
    → lo ≤ n
    → n ≤ hi
    → Ends rest
    → number 1 2 lo hi (two n ++ rest) ≡ ok (n, rest)
unfolding number span_digits digits_value
number-two lo hi n rest small low high e =
    let value : (0 * 10 + (digit (n / 10) - 48)) * 10 + (digit n - 48) ≡ n = omega arith in
    rw (digit-is_digit (n / 10), digit-is_digit n, span_digits-Ends rest e, value) (ground arith)

pub number-four :
    (n : ℕ) (rest : Text)
    → n < 10000
    → Ends rest
    → number 4 4 0 9999 (four n ++ rest) ≡ ok (n, rest)
unfolding number span_digits digits_value
number-four n rest small e =
    let value : (((0 * 10 + (digit (n / 1000) - 48)) * 10 + (digit (n / 100) - 48)) * 10
              + (digit (n / 10) - 48))
            * 10
          + (digit n - 48)
        ≡ n =
      omega arith in
    rw
      (
        digit-is_digit (n / 1000),
        digit-is_digit (n / 100),
        digit-is_digit (n / 10),
        digit-is_digit n,
        span_digits-Ends rest e,
        value,
      )
      (ground arith)
