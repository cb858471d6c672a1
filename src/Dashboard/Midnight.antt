-- ===== src/Dashboard/Midnight.antt =====
-- The day of an instant of resources/dashboard.py.
use nano_tick.Base.{ℕ, ◌+◌, ◌*◌, ◌<◌, ◌≡◌, inl, inr, arith, Bool-cases, leb}
use nano_tick.Base.Int.{pos, ◌+ℤ◌, ◌-ℤ◌}
use nano_tick.Dates.{Fields, date_of}
use nano_tick.Dates.Print.{InBounds}
use nano_tick.Dashboard.{instant_of, day_of, epoch, day_ms}
use nano_tick.Dashboard.Window.{ordinal}

ordinal_of_ms : (d r : ℕ) → r < day_ms → ordinal (pos (d * day_ms + r) -ℤ pos (epoch * day_ms)) ≡ d
unfolding day_of ◌+ℤ◌ ◌-ℤ◌
ordinal_of_ms d r h = elim (Bool-cases (leb (epoch * day_ms + 0) (d * day_ms + r + 0))) [
  | inl after ↦ rw after (ground arith)
  | inr before ↦ rw before (ground arith)
]

-- An instant that is written with a date and a time of the day is on this date.
pub ordinal-instant_of : (f : Fields) → InBounds f → ordinal (instant_of f) ≡ date_of f
unfolding instant_of
ordinal-instant_of f b =
    let r = f.hour * 3_600_000 + f.minute * 60_000 + f.second * 1_000 in
    let total : date_of f * day_ms + f.hour * 3_600_000 + f.minute * 60_000 + f.second * 1_000
        ≡ date_of f * day_ms + r =
      omega arith in
    rw total (ordinal_of_ms (date_of f) r (omega (arith, b.hour_to, b.minute_to, b.second_to)))
