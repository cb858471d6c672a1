-- ===== src/Stream.antt =====
-- `WebsocketStream.messages` of ingest/src/streams/base.py as a state machine: connect, yield the
-- messages that parse, and after an error sleep for the backoff. The backoff is in whole seconds,
-- 1.0 to 60.0 in the code, which doubles exactly.
pub mod Backoff
pub mod Url
mod Tests
use nano_tick.Base.{ℕ, ◌*◌, Bool, true, false, Option, none, some, List, [], ◌∷◌, ◌++◌, min}

abbrev pub initial_backoff : ℕ
initial_backoff = 1

abbrev pub max_backoff : ℕ
max_backoff = 60

-- `yielded` and `sleeps` are what the generator has yielded and slept for so far
pub record Stream (M : Type 0) : Type 0 where
  pub connected : Bool
  pub backoff : ℕ
  pub yielded : List M
  pub sleeps : List ℕ

-- What the websocket does next: it opens, refuses, delivers a text (`none` if it is no JSON), breaks
-- with one of the caught exceptions, or ends the iteration with a normal close.
pub data Event (M : Type 0) : Type 0 where
  opened refused broken closed : Event M
  raw : Option M → Event M

module _ {M : Type 0} where
  unfoldable pub initial : Stream M
  initial = record { connected = false; backoff = initial_backoff; yielded = []; sleeps = [] }

  -- the `except` clause
  unfoldable pub retry : Stream M → Stream M
  retry s = record s {
    connected = false;
    backoff = min (s.backoff * 2) max_backoff;
    sleeps = s.sleeps ++ s.backoff ∷ [];
  }

  unfoldable pub receive : Option M → Stream M → Stream M
  receive none s = s
  receive (some m) s = record s { yielded = s.yielded ++ m ∷ [] }

  unfoldable pub connected_step : Event M → Stream M → Stream M
  unfolding retry receive
  connected_step (Event.raw m) s = receive m s
  connected_step Event.broken s = retry s
  connected_step Event.closed s = record s { connected = false }
  connected_step Event.opened s = s
  connected_step Event.refused s = s

  unfoldable pub waiting_step : Event M → Stream M → Stream M
  unfolding retry
  waiting_step Event.opened s = record s { connected = true; backoff = initial_backoff }
  waiting_step Event.refused s = retry s
  waiting_step (Event.raw m) s = s
  waiting_step Event.broken s = s
  waiting_step Event.closed s = s

  unfoldable pub step_from : Bool → Event M → Stream M → Stream M
  unfolding connected_step waiting_step
  step_from true = connected_step
  step_from false = waiting_step

  unfoldable pub step : Event M → Stream M → Stream M
  unfolding step_from
  step e s = step_from s.connected e s

  unfoldable pub run : List (Event M) → Stream M → Stream M
  unfolding step
  run [] s = s
  run (e ∷ es) s = run es (step e s)
