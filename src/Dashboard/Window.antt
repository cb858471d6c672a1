-- ===== src/Dashboard/Window.antt =====
-- The window mode of resources/dashboard.py against an archive of bars.
use nano_tick.Base.{
  ℕ, zero, suc, ◌+◌, ◌-◌, ◌*◌, ◌≤◌, ◌<◌, ◌≡◌, refl, sym, ap, ◌∙◌, Bool, true, false, ◌&&◌, List, [],
  ◌∷◌, ◌++◌, count_from, leb, ltb, ◌==◌, if◌then◌else◌, Result, ◌>>=◌, Error, inl, inr, arith,
  Bool-cases, All, All-map, leb→le, leb→gt,
}
use nano_tick.Base.Int.{
  ℤ, pos, negsuc, pos_part, ◌+ℤ◌, ◌-ℤ◌, ◌≤ℤ◌, leb_ℤ, +ℤ_parts, -ℤ_parts, one_part_zero,
}
use nano_tick.Experiment.{load_frames}
use nano_tick.Experiment.Days.{rows_of, rows_of_days, some_rows, load_frames-rows_of_days}
use nano_tick.Experiment.Range.{map-count_from}
use nano_tick.Dashboard.{
  epoch, day_of, window_bounds, window_days, filter_window, or_empty, window_bars,
}

-- the ordinal of the day of an instant
abbrev pub ordinal : ℤ → ℕ
ordinal t = pos_part (pos epoch +ℤ day_of t)

-- A later instant is not on an earlier day.
day_of_mono : (a b : ℤ) → a ≤ℤ b → day_of a ≤ℤ day_of b
unfolding day_of
day_of_mono (pos m) (pos n) h = grind arith
day_of_mono (pos m) (negsuc n) h = absurd (omega arith)
day_of_mono (negsuc m) (pos n) h = omega arith
day_of_mono (negsuc m) (negsuc n) h = grind arith

pub ordinal_mono : (a b : ℤ) → a ≤ℤ b → ordinal a ≤ ordinal b
ordinal_mono a b h = omega (
  arith,
  day_of_mono a b h,
  +ℤ_parts (pos epoch) (day_of a),
  +ℤ_parts (pos epoch) (day_of b),
  one_part_zero (pos epoch +ℤ day_of a),
  one_part_zero (pos epoch +ℤ day_of b),
)

abbrev pub in_span : ℕ → ℕ → ℕ → Bool
in_span first n x = leb first x && ltb x (first + n)

outside :
    (lo hi t : ℤ) (n : ℕ)
    → ordinal hi < ordinal lo + n
    → in_span (ordinal lo) n (ordinal t) ≡ false
    → (leb_ℤ lo t && leb_ℤ t hi) ≡ false
outside lo hi t n h out = elim (Bool-cases (leb_ℤ lo t)) [
  | inr before ↦ rw before refl
  | inl after ↦ elim (Bool-cases (leb_ℤ t hi)) [
    | inr late ↦ rw (after, late) refl
    | inl early ↦
        let from = ordinal_mono lo t (leb→le _ _ after) in
        let upto = ordinal_mono t hi (leb→le _ _ early) in absurd (ground arith)
  ]
]

module _ {B : Type 0} (day : B → ℕ) where
  -- the bars of one day, and those of `n` days
  unfoldable pub on_day : ℕ → List B → List B
  on_day d [] = []
  on_day d (b ∷ bars) = let rest = on_day d bars in if day b == d then b ∷ rest else rest

  unfoldable pub on_days : ℕ → ℕ → List B → List B
  on_days first n [] = []
  on_days first n (b ∷ bars) =
      let rest = on_days first n bars in if in_span first n (day b) then b ∷ rest else rest

  -- The days of the bars do not fall.
  abbrev pub InOrder : List B → Type 0
  InOrder [] = Unit
  InOrder (b ∷ bars) = All (λ c. day b ≤ day c) bars × InOrder bars

  on_day_later : (d : ℕ) (bars : List B) → All (λ c. d < day c) bars → on_day d bars ≡ []
  unfolding on_day
  on_day_later d [] h = refl
  on_day_later d (b ∷ bars) h =
      let other : (day b == d) ≡ false = ground (arith, h.0) in rw other (on_day_later d bars h.1)

  on_days_later :
      (d n : ℕ) (bars : List B)
      → All (λ c. d < day c) bars
      → on_days (d + 1) n bars ≡ on_days d (suc n) bars
  unfolding on_days
  on_days_later d n [] h = refl
  on_days_later d n (b ∷ bars) h =
      let same : in_span (d + 1) n (day b) ≡ in_span d (suc n) (day b) = ground (arith, h.0) in
      rw (same, on_days_later d n bars h.1) refl

  -- The first day, and then the others: as the bars are in order, so is what is read by days.
  on_day-on_days :
      (d n : ℕ) (bars : List B)
      → InOrder bars
      → on_day d bars ++ on_days (d + 1) n bars ≡ on_days d (suc n) bars
  unfolding on_day on_days
  on_day-on_days d n [] h = refl
  on_day-on_days d n (b ∷ bars) h =
      let rest = on_day-on_days d n bars h.1 in
      elim (Bool-cases (leb (day b) d)) [
        | inl upto ↦ elim (Bool-cases (day b == d)) [
          | inl here ↦
              let after : in_span (d + 1) n (day b) ≡ false = ground arith in
              let within : in_span d (suc n) (day b) ≡ true = ground arith in
              rw (here, after, within) (ap (◌∷◌ b) rest)
          | inr other ↦
              let after : in_span (d + 1) n (day b) ≡ false = ground arith in
              let before : in_span d (suc n) (day b) ≡ false = ground arith in
              rw (other, after, before) rest
        ]
        | inr beyond ↦
            let later =
              All-map (λ c. day b ≤ day c) _ (λ c w. omega (arith, leb→gt (day b) d beyond)) bars
                h.0 in
            let all : All (λ c. d < day c) (b ∷ bars) = (leb→gt (day b) d beyond, later) in
            rw (on_day_later d (b ∷ bars) all) (on_days_later d n (b ∷ bars) all)
      ]

  on_days_none : (d : ℕ) (bars : List B) → on_days d 0 bars ≡ []
  unfolding on_days
  on_days_none d [] = refl
  on_days_none d (b ∷ bars) =
      let out : in_span d 0 (day b) ≡ false = ground arith in rw out (on_days_none d bars)

  -- A reader that has for each day the bars of an archive, or fails if there are none.
  abbrev pub Serves : List B → (ℕ → Result (List B)) → Type 0
  Serves archive read = (d : ℕ) → rows_of (read d) ≡ on_day d archive

  pub rows_of_days-on_days :
      (archive : List B) (read : ℕ → Result (List B)) (d n : ℕ)
      → InOrder archive
      → Serves archive read
      → rows_of_days read (count_from d n) ≡ on_days d n archive
  rows_of_days-on_days archive read d zero o s = sym (on_days_none d archive)
  rows_of_days-on_days archive read d (suc n) o s =
      rw (s d, rows_of_days-on_days archive read (d + 1) n o s) (on_day-on_days d n archive o)

module _ {B : Type 0} (time : B → ℤ) where
  -- the day of a bar
  abbrev pub day_at : B → ℕ
  day_at b = ordinal (time b)

  -- The bars of the days that a window spans hold all of the bars of the window.
  filter_window-on_days :
      (lo hi : ℤ) (n : ℕ) (bars : List B)
      → ordinal hi < ordinal lo + n
      → filter_window time lo hi (on_days day_at (ordinal lo) n bars)
        ≡ filter_window time lo hi bars
  unfolding filter_window on_days
  filter_window-on_days lo hi n [] h = refl
  filter_window-on_days lo hi n (b ∷ bars) h =
      let rest = filter_window-on_days lo hi n bars h in
      elim (Bool-cases (in_span (ordinal lo) n (day_at b))) [
        | inl within ↦ rw (within, rest) refl
        | inr out ↦
            let outside : (leb_ℤ lo (time b) && leb_ℤ (time b) hi) ≡ false =
              outside lo hi (time b) n h out in
            rw (out, outside) rest
      ]

  -- the rows of a window, when those of its days are loaded
  some_rows-filter_window :
      (lo hi : ℤ) (rows : List B)
      → (some_rows Error.value_error rows >>= λ df. or_empty time (filter_window time lo hi df))
        ≡ or_empty time (filter_window time lo hi rows)
  unfolding filter_window
  some_rows-filter_window lo hi [] = refl
  some_rows-filter_window lo hi (b ∷ bars) = refl

  window_days_count :
      (lo hi : ℤ)
      → lo ≤ℤ hi
      → 1 ≤ ordinal lo
      → (n : ℕ) × (window_days lo hi ≡ count_from (ordinal lo) (suc n))
        × (ordinal hi < ordinal lo + suc n)
  unfolding window_days
  window_days_count lo hi h k =
      let first = day_of lo in
      let last = day_of hi in
      let count = pos_part (last -ℤ first +ℤ pos 1) in
      let start : ordinal lo + 0 ≡ ordinal lo = omega arith in
      let size : count ≡ suc (ordinal hi - ordinal lo) = omega (
        arith,
        day_of_mono lo hi h,
        +ℤ_parts (pos epoch) first,
        +ℤ_parts (pos epoch) last,
        -ℤ_parts last first,
        +ℤ_parts (last -ℤ first) (pos 1),
        one_part_zero (pos epoch +ℤ first),
        one_part_zero (pos epoch +ℤ last),
        one_part_zero (last -ℤ first),
        one_part_zero (last -ℤ first +ℤ pos 1),
      ) in
      (
        ordinal hi - ordinal lo,
        map-count_from (ordinal lo) 0 count
            ∙ ap (λ x. count_from x count) start
            ∙ ap (count_from (ordinal lo)) size,
        omega arith,
      )

  -- Let an archive of bars be in order of their days, and let the reader return for each day the
  -- bars of this day, or fail if there are none. Then the window mode shows the bars of the archive
  -- from `window` minutes before the instant to `window` minutes after it, all of them and in order,
  -- whichever days the window spans, if its first day is a date; and it raises a ValueError if there
  -- is none.
  pub window_bars-filter_window :
      (archive : List B) (read : ℕ → Result (List B)) (center : ℤ) (w : ℕ)
      → InOrder day_at archive
      → Serves day_at archive read
      → 1 ≤ ordinal (window_bounds center (pos w)).0
      → window_bars time read center (pos w)
        ≡ or_empty time
            (filter_window time (center -ℤ pos (w * 60_000)) (center +ℤ pos (w * 60_000)) archive)
  unfolding window_bars window_bounds
  window_bars-filter_window archive read center w o s k =
      let lo = center -ℤ pos (w * 60_000) in
      let hi = center +ℤ pos (w * 60_000) in
      let (n, days, enough) =
        window_days_count lo hi
          (omega (arith, -ℤ_parts center (pos (w * 60_000)), +ℤ_parts center (pos (w * 60_000))))
          k in
      let shown : List B → Result (List B) = λ df. or_empty time (filter_window time lo hi df) in
      ap (λ ds. load_frames read ds >>= shown) days
      ∙ ap (λ r. r >>= shown) (load_frames-rows_of_days read (count_from (ordinal lo) (suc n)))
      ∙ ap (λ rows. some_rows Error.value_error rows >>= shown)
          (rows_of_days-on_days day_at archive read (ordinal lo) (suc n) o s)
      ∙ some_rows-filter_window lo hi (on_days day_at (ordinal lo) (suc n) archive)
      ∙ ap (or_empty time) (filter_window-on_days lo hi (suc n) archive enough)
