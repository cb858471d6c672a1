-- ===== src/Tcp/Schedule.antt =====
-- `_run` of ingest/src/sinks/tcp.py: the schedules of its event loop against the window.
use nano_tick.Base.{ℕ, ◌+◌, ◌≤◌, ◌≡◌, refl, List, [], ◌∷◌, Result, ok, raise, Error}
use nano_tick.Tcp.{cost, TcpSink, init, send, send_turn, Turn, wait, write, AckLine, ack_turn}
use nano_tick.Tcp.Refine.{
  Window, AckStep, Refines, window_start, pushed, init-Refines, requeue-Refines, turned,
  send_turn-Refines, send-Refines, AckRefines, ack_turn-Refines,
}
use nano_tick.Tcp.Session.{
  Phase, Session, Event, after_ack, after_turn, after_send, live_step, idle_step, failed_step,
  phase_step, step, run_events,
}

-- Every turn of the session keeps the refinement.
abbrev pub SessionRefines : ℕ → Window → Session → Type 0
SessionRefines limit w c = Refines limit w c.sink

-- what a line does, which is read in a live session only
abbrev pub LineStep : Phase → AckLine → Window → Window → TcpSink → Type 0
LineStep Phase.live l w v s' = AckStep l w v s'
LineStep _ l w v s' = v ≡ w

-- What an event may do to the window, from a phase and a sink to the next sink. Only a tick pushes, and
-- loses older ones only if there is no room for it; only a line with a number confirms, and all that
-- wait up to that number; anything else leaves the window as it was.
abbrev pub WindowStep :
    {M : Type 0}
    → (ℕ → M → List ℕ)
    → ℕ
    → Phase
    → TcpSink
    → Event M
    → Window
    → Window
    → TcpSink
    → Type 0
WindowStep encode limit p s (Event.message m) w v s' =
    (k : ℕ) × (v ≡ pushed w k)
    × (s.buffered_bytes + cost (record { seq = s.next_seq; line = encode s.next_seq m }) ≤ limit
        → k ≡ 0)
WindowStep encode limit p s (Event.ack_line l) w v s' = LineStep p l w v s'
WindowStep encode limit p s _ w v s' = v ≡ w

-- The session and its window after these events, one step for each, where the sink refines the window
-- after each step.
abbrev pub WindowRun :
    {M : Type 0}
    → (ℕ → M → List ℕ)
    → ℕ
    → List (Event M)
    → Session
    → Window
    → Session
    → Window
    → Type 0
WindowRun encode limit [] c w c' v = (c' ≡ c) × (v ≡ w)
WindowRun encode limit (ev ∷ evs) c w c' v =
    (c₁ : Session) × (u : Window) × (step encode c ev ≡ ok c₁)
    × WindowStep encode limit c.phase c.sink ev w u c₁.sink
    × SessionRefines limit u c₁
    × WindowRun encode limit evs c₁ u c' v

abbrev StepRefines :
    {M : Type 0}
    → (ℕ → M → List ℕ)
    → ℕ
    → Phase
    → TcpSink
    → Event M
    → Window
    → Result Session
    → Type 0
StepRefines encode limit p s ev w r =
    (c' : Session) × (v : Window) × (r ≡ ok c')
    × WindowStep encode limit p s ev w v c'.sink
    × SessionRefines limit v c'

after_turn-Refines :
    (limit : ℕ) (w : Window) (c : Session) (t : Turn)
    → Refines limit w (turned t)
    → SessionRefines limit w (after_turn c t)
unfolding after_turn
after_turn-Refines limit w c (wait s) h = h
after_turn-Refines limit w c (write line s) h = h

after_ack-Refines :
    (limit : ℕ) (w : Window) (c : Session) (l : AckLine) (r : Result TcpSink)
    → SessionRefines limit w c
    → AckRefines limit w c.sink l r
    → (v : Window) × AckStep l w v (after_ack c r).sink × SessionRefines limit v (after_ack c r)
unfolding after_ack
after_ack-Refines limit w c l (ok s) h (v, st, h') = (v, st, h')
after_ack-Refines limit w c l (raise Error.connection_error) h a = (w, a, h)
after_ack-Refines limit w c l (raise e) h a = (w, a, h)

abbrev pub session_start : ℕ → Session
session_start limit = record { sink = init limit; phase = Phase.connecting; written = [] }

module _ {M : Type 0} (encode : ℕ → M → List ℕ) (limit : ℕ) where
  message-Refines :
      (p : Phase) (w : Window) (c : Session) (m : M)
      → SessionRefines limit w c
      → StepRefines encode limit p c.sink
          (Event.message m)
          w
          (after_send encode c (send encode c.sink m))
  unfolding after_send
  message-Refines p w c m h =
      let (s, k, run, r, room) = send-Refines encode limit w c.sink m h in
      (record c { sink = s }, pushed w k, rw run, (k, refl, room), r)

  live_step-Refines :
      (w : Window) (c : Session) (ev : Event M)
      → SessionRefines limit w c
      → StepRefines encode limit Phase.live c.sink ev w (live_step encode c ev)
  unfolding live_step
  live_step-Refines w c (Event.message m) h = message-Refines Phase.live w c m h
  live_step-Refines w c Event.connection_lost h = (_, w, refl, refl, h)
  live_step-Refines w c Event.sender_turn h = (
    _,
    w,
    refl,
    refl,
    after_turn-Refines limit w c (send_turn c.sink) (send_turn-Refines limit w c.sink h),
  )
  live_step-Refines w c (Event.ack_line l) h =
      let (v, st, r) =
        after_ack-Refines limit w c l (ack_turn c.sink l) h (ack_turn-Refines limit w c.sink l h) in
      (_, v, refl, st, r)
  live_step-Refines w c Event.connect_refused h = (c, w, refl, refl, h)
  live_step-Refines w c Event.connect h = (c, w, refl, refl, h)

  idle_step-Refines :
      (w : Window) (c : Session) (ev : Event M)
      → SessionRefines limit w c
      → StepRefines encode limit Phase.connecting c.sink ev w (idle_step encode c ev)
  unfolding idle_step
  idle_step-Refines w c (Event.message m) h = message-Refines Phase.connecting w c m h
  idle_step-Refines w c Event.connect h = (_, w, refl, refl, requeue-Refines limit w c.sink h)
  idle_step-Refines w c ev h = (c, w, refl, refl, h)

  failed_step-Refines :
      (w : Window) (c : Session) (ev : Event M)
      → SessionRefines limit w c
      → StepRefines encode limit Phase.failed c.sink ev w (failed_step encode c ev)
  unfolding failed_step
  failed_step-Refines w c (Event.message m) h = message-Refines Phase.failed w c m h
  failed_step-Refines w c ev h = (c, w, refl, refl, h)

  phase_step-Refines :
      (p : Phase) (w : Window) (c : Session) (ev : Event M)
      → SessionRefines limit w c
      → StepRefines encode limit p c.sink ev w (phase_step encode p c ev)
  unfolding phase_step
  phase_step-Refines Phase.connecting = idle_step-Refines
  phase_step-Refines Phase.live = live_step-Refines
  phase_step-Refines Phase.failed = failed_step-Refines

  step-Refines :
      (w : Window) (c : Session) (ev : Event M)
      → SessionRefines limit w c
      → StepRefines encode limit c.phase c.sink ev w (step encode c ev)
  unfolding step
  step-Refines w c ev h = phase_step-Refines c.phase w c ev h

  pub run_from-Refines :
      (evs : List (Event M)) (w : Window) (c : Session)
      → SessionRefines limit w c
      → (c' : Session) × (v : Window) × (run_events encode c evs ≡ ok c')
        × WindowRun encode limit evs c w c' v
        × Refines limit v c'.sink
  unfolding run_events
  run_from-Refines [] w c h = (c, w, refl, (refl, refl), h)
  run_from-Refines (ev ∷ evs) w c h =
      let (c₁, u, run, st, h₁) = step-Refines w c ev h in
      let (c', v, run', sts, h') = run_from-Refines evs u c₁ h₁ in
      (c', v, rw run run', (c₁, u, run, st, h₁, sts), h')

  -- Whatever ticks, acknowledgements, connects and disconnects the event loop meets, and in whatever
  -- order, no `send` raises, and the sink holds after each event exactly the sequence numbers of a
  -- window that follows the events one by one. A tick enters at its end, where some of the oldest are
  -- lost, none if there is room for it. In a live session a line with a number confirms none but
  -- oldest ticks up to this number, and leaves none of those waiting for an acknowledgement. No other
  -- event changes the window. The byte count is that of the entries, never above the cap, and every
  -- number below the window is counted as lost or confirmed.
  pub run_events-Refines :
      (evs : List (Event M))
      → (c : Session) × (w : Window) × (run_events encode (session_start limit) evs ≡ ok c)
        × WindowRun encode limit evs (session_start limit) window_start c w
        × Refines limit w c.sink
  run_events-Refines evs =
      run_from-Refines evs window_start (session_start limit) (init-Refines limit)
