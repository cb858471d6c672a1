-- ===== src/App/Startup.antt =====
-- The store that platform/app.py hands to the live feed.
use nano_tick.Base.{Option, some, [], Bool, true, false, ℕ, ◌-◌, none, List, [], map, count_from}
use nano_tick.Store.{Store}
use nano_tick.Store.Parts.{part_of}
use nano_tick.Backfill
use nano_tick.Backfill.{Fetch, plan_dates, prune}
use nano_tick.Backfill.Fill.{filled}

-- the dates on disk before
abbrev pub on_disk : {R S : Type 0} → Store R S → List ℕ
on_disk s = map (λ p. p.0) s.trade.parts

abbrev pub is_some : {A : Type 0} → Option A → Bool
is_some none = false
is_some (some a) = true

module _ {K R S : Type 0} where
  -- what stands in the trade partition of a date when the window of `n` days before `today` is filled
  abbrev pub filled_part : ℕ → ℕ → List K → Fetch K R → Store R S → ℕ → Option (List R)
  filled_part today n ks fetch s d =
      filled fetch (on_disk s) ks (count_from (today - n) n) d (part_of d s.trade.parts)
