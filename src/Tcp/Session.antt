-- ===== src/Tcp/Session.antt =====
-- `_run` of ingest/src/sinks/tcp.py as a state machine: connect, requeue, run the two loops until
-- one ends, and connect again; any `send` of the ingest task may come between two turns.
use nano_tick.Base.{ℕ, List, [], ◌∷◌, ◌++◌, Result, ok, raise, Error, ◌>>=◌}
use nano_tick.Tcp.{TcpSink, send, requeue, send_turn, Turn, wait, write, AckLine, ack_turn}

-- what the run task is doing; `failed` is a task that an uncaught exception has ended
pub data Phase : Type 0 where
  connecting live failed : Phase

pub record Session : Type 0 where
  pub sink : TcpSink
  pub phase : Phase
  pub written : List (List ℕ)  -- the lines written so far, for the statements

-- what the event loop may do next
pub data Event (M : Type 0) : Type 0 where
  message : M → Event M
  connect_refused connect connection_lost sender_turn : Event M
  ack_line : AckLine → Event M

-- the handler of `except (OSError, ConnectionError)`: any other exception ends the task
unfoldable pub after_ack : Session → Result TcpSink → Session
after_ack c (ok s) = record c { sink = s }
after_ack c (raise Error.connection_error) = record c { phase = Phase.connecting }
after_ack c (raise Error.os_error) = record c { phase = Phase.connecting }
after_ack c (raise e) = record c { phase = Phase.failed }

unfoldable pub after_turn : Session → Turn → Session
after_turn c (wait s) = record c { sink = s }
after_turn c (write line s) = record c { sink = s; written = c.written ++ line ∷ [] }

-- An exception of `send` reaches the caller, and leaves the model by `raise`.
module _ {M : Type 0} (encode : ℕ → M → List ℕ) where
  unfoldable pub after_send : Session → Result TcpSink → Result Session
  after_send c (ok s) = ok (record c { sink = s })
  after_send c (raise e) = raise e

  unfoldable pub live_step : Session → Event M → Result Session
  unfolding after_ack after_turn after_send
  live_step c (Event.message m) = after_send c (send encode c.sink m)
  live_step c Event.connection_lost = ok (record c { phase = Phase.connecting })
  live_step c Event.sender_turn = ok (after_turn c (send_turn c.sink))
  live_step c (Event.ack_line l) = ok (after_ack c (ack_turn c.sink l))
  live_step c Event.connect_refused = ok c
  live_step c Event.connect = ok c

  unfoldable pub idle_step : Session → Event M → Result Session
  unfolding after_send
  idle_step c (Event.message m) = after_send c (send encode c.sink m)
  idle_step c Event.connect = ok (record c { sink = requeue c.sink; phase = Phase.live })
  idle_step c Event.connect_refused = ok c
  idle_step c _ = ok c

  unfoldable pub failed_step : Session → Event M → Result Session
  unfolding after_send
  failed_step c (Event.message m) = after_send c (send encode c.sink m)
  failed_step c _ = ok c

  unfoldable pub phase_step : Phase → Session → Event M → Result Session
  phase_step Phase.connecting = idle_step
  phase_step Phase.live = live_step
  phase_step Phase.failed = failed_step

  unfoldable pub step : Session → Event M → Result Session
  unfolding phase_step
  step c ev = phase_step c.phase c ev

  -- a schedule of the event loop
  unfoldable pub run_events : Session → List (Event M) → Result Session
  run_events c [] = ok c
  run_events c (ev ∷ evs) = do c' ← step c ev; run_events c' evs
