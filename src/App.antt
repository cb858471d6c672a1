-- ===== src/App.antt =====
-- `main` of platform/app.py: the backfill of the window, the pruning of what is older, and the live
-- feed over the same store. The clock is read by `run` and again by `prune`; the fetch of a day, the REST bridge and
-- the events of the live session are parameters, as in the parts themselves.
pub mod Startup
mod Tests
use nano_tick.Base.{ℕ, List, [], Option, none, some, false, Result, ok, raise, ◌>>=◌}
use nano_tick.Base.Int.{ℤ}
use nano_tick.Store.{Store}
use nano_tick.Backfill
use nano_tick.Backfill.{Fetch, prune}
use nano_tick.Feed.{Handler, Wire, Bridging}
use nano_tick.Feed.Run.{Event}
use nano_tick.Feed.Run

module _ {K R S : Type 0} where
  -- the maintenance of the window; `run` and `prune` each read the clock
  unfoldable pub startup : ℕ → ℕ → ℤ → List K → Fetch K R → Store R S → Result (Store R S)
  startup run_day prune_day days symbols fetch s = do
    (filled, _) ← Backfill.run run_day days symbols fetch s
    (kept, _, _) ← prune prune_day days filled
    ok kept

-- `FeedHandler(config, writer)`
abbrev pub new_handler : {K T Q R S : Type 0} → Store R S → Handler K T Q R S
new_handler s = record {
  roller = record { store = s; current_day = none };
  queue = [];
  last_id = [];
  last_quote_id = [];
  pending_rebridge = [];
  dropped = 0;
  stop = false;
  connected_once = false;
}

module _ {K T Q R S : Type 0} (dec : Discrete K) (w : Wire K T Q R S) (bridge : Bridging K R) where
  unfoldable pub main :
      ℕ → ℕ → ℤ → List K → Fetch K R → List (Event T Q) → Store R S → Result (Handler K T Q R S)
  unfolding startup
  main run_day prune_day days symbols fetch events s = do
    s' ← startup run_day prune_day days symbols fetch s
    Run.run dec w bridge symbols events (new_handler s')
