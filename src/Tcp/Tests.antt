-- ===== src/Tcp/Tests.antt =====
-- Runs of the model of ingest/src/sinks/tcp.py, and the theorems about it at concrete inputs.
use nano_tick.Base.{arith, ℕ, ◌≡◌, refl, true, List, [], ◌∷◌, ◌++◌, map, length, ok}
use nano_tick.Base.Int.{pos}
use nano_tick.Tcp.{
  Entry, init, send, evict, extendleft, reversed, requeue, send_turn, AckLine, pop_acked, ack_turn,
}
use nano_tick.Tcp.Session.{
  Phase, Session, Event, live_step, idle_step, failed_step, step, run_events,
}
use nano_tick.Tcp.Refine.{Window, window_start, Refines}
use nano_tick.Tcp.Schedule.{WindowRun, session_start, run_events-Refines}
use nano_tick.Tcp.Delivery.{turns, line_of, reconnect_resends}
use nano_tick.Tcp.Stopped.{incomparable_ack_stops}
use nano_tick.Tcp.Buffer.{total_cost, Runs}

program : Unit {0}
unfolding run_events step idle_step live_step failed_step init requeue extendleft reversed send
    evict send_turn ack_turn pop_acked
program = tt

-- a line of two bytes for each tick, so that an entry costs 122
abbrev encode : ℕ → ℕ → List ℕ
encode n m = n ∷ m ∷ []

abbrev entry : ℕ → ℕ → Entry
entry n m = record { seq = n; line = encode n m }

abbrev events : List (Event ℕ)
events =
    Event.message 7
    ∷ Event.connect
    ∷ Event.sender_turn
    ∷ Event.message 8
    ∷ Event.message 9
    ∷ Event.ack_line (AckLine.number (pos 2))
    ∷ Event.connection_lost
    ∷ []

-- a cap of 300 bytes has room for two entries
abbrev after_events : Session
after_events = record {
  sink = record {
    max_buffer_bytes = 300;
    unsent = entry 2 8 ∷ entry 3 9 ∷ [];
    unacked = [];
    buffered_bytes = 244;
    next_seq = 4;
    has_data = true;
    dropped = 1;
  };
  phase = Phase.connecting;
  written = encode 1 7 ∷ [];
}

run_events_test : run_events encode (session_start 300) events ≡ ok after_events
unfolding program
run_events_test = refl

run_events-Refines_example :
    (c : Session) × (w : Window) × (run_events encode (session_start 300) events ≡ ok c)
    × WindowRun encode 300 events (session_start 300) window_start c w
    × Refines 300 w c.sink
run_events-Refines_example = run_events-Refines encode 300 events

reconnect_resends_example :
    let pending = after_events.sink.unacked ++ after_events.sink.unsent in
    (c' : Session) × (run_events encode after_events (Event.connect ∷ turns (length pending))
      ≡ ok c')
    × (c'.written ≡ after_events.written ++ map line_of pending)
    × (c'.sink.unacked ≡ pending)
    × (c'.sink.unsent ≡ [])
reconnect_resends_example = reconnect_resends encode after_events refl

abbrev waiting : Session
waiting = record {
  sink = record {
    max_buffer_bytes = 300;
    unsent = [];
    unacked = entry 1 7 ∷ [];
    buffered_bytes = 122;
    next_seq = 2;
    has_data = true;
    dropped = 0;
  };
  phase = Phase.live;
  written = encode 1 7 ∷ [];
}

abbrev one_pending : Window
one_pending = record { lo = 1; hi = 2; lost = 0; confirmed = 0 }

waiting-Refines : Refines 300 one_pending waiting.sink
unfolding total_cost Runs
waiting-Refines = record {
  capped = refl;
  counted = refl;
  bounded = omega arith;
  runs = (refl, refl);
  numbered = refl;
  losses = refl;
  ledger = refl;
}

incomparable_ack_stops_example :
    (c' : Session) × (v : Window) × (run_events encode waiting
        (Event.ack_line AckLine.incomparable ∷ events)
      ≡ ok c')
    × (c'.phase ≡ Phase.failed)
    × (c'.written ≡ waiting.written)
    × Refines 300 v c'.sink
incomparable_ack_stops_example =
    incomparable_ack_stops encode 300 one_pending waiting (entry 1 7) [] events waiting-Refines refl
      refl

abbrev failed_end : Session
failed_end = record {
  sink = record waiting.sink { unsent = entry 2 8 ∷ []; buffered_bytes = 244; next_seq = 3 };
  phase = Phase.failed;
  written = encode 1 7 ∷ [];
}
