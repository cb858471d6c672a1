-- ===== src/Feed/Apply.antt =====
-- `_apply_trades` of resources/feedhandler.py between two gaps: what a batch adds to the store, and
-- what it leaves as the last id of each symbol.
use nano_tick.Roller.{Roller}
