-- ===== src/Feed/Run.antt =====
-- `FeedHandler.run` of resources/feedhandler.py as a machine: the callbacks of paho's thread and the
-- signal handler come between the rounds of the main loop, in any order. An event is atomic, as the
-- queue is a `queue.Queue` and the flags are single assignments.
use nano_tick.Base.{ℕ, zero, suc, Option, List, [], ◌∷◌, if◌then◌else◌, Result, ok, ◌>>=◌}
use nano_tick.Feed.{
  Handler, Record, Wire, Bridging, on_connect, on_message, round, request_stop, shutdown, start,
}

pub data Event (T Q : Type 0) : Type 0 where
  -- `_on_connect`, and `_on_message` with what it parses
  connected : Event T Q
  received : Option (Record T Q) → Event T Q
  -- a signal, which calls `_request_stop`
  signalled : Event T Q
  -- one round of `while not self._stop`
  looped : Event T Q

module _ {K T Q R S : Type 0} (dec : Discrete K) (w : Wire K T Q R S) (bridge : Bridging K R)
    (symbols : List K) where
  -- `while not self._stop`
  unfoldable pub loop_round : Handler K T Q R S → Result (Handler K T Q R S)
  loop_round h = if h.stop then ok h else round dec w bridge h

  unfoldable pub step : Event T Q → Handler K T Q R S → Result (Handler K T Q R S)
  unfolding loop_round
  step connected h = ok (on_connect symbols h)
  step (received m) h = ok (on_message m h)
  step signalled h = ok (request_stop h)
  step looped h = loop_round h

  unfoldable pub run_events : List (Event T Q) → Handler K T Q R S → Result (Handler K T Q R S)
  unfolding step
  run_events [] h = ok h
  run_events (e ∷ events) h = do h' ← step e h; run_events events h'

  -- rounds with nothing between them
  unfoldable pub rounds : ℕ → Handler K T Q R S → Result (Handler K T Q R S)
  unfolding loop_round
  rounds zero h = ok h
  rounds (suc n) h = do h' ← loop_round h; rounds n h'

  -- The loop ends when the flag is set, and then `_shutdown` flushes.
  abbrev pub leave : Handler K T Q R S → Handler K T Q R S
  leave h = if h.stop then shutdown h else h

  -- `run`, over the events while it runs
  unfoldable pub run : List (Event T Q) → Handler K T Q R S → Result (Handler K T Q R S)
  unfolding run_events
  run events h = do h₁ ← start dec w bridge symbols h; h₂ ← run_events events h₁; ok (leave h₂)
