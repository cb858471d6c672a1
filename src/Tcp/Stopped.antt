-- ===== src/Tcp/Stopped.antt =====
-- A run task of ingest/src/sinks/tcp.py that an exception has ended.
use nano_tick.Base.{ℕ, ◌≡◌, refl, ◌∙◌, ap, sym, List, ◌∷◌, ok, ◌>>=◌}
use nano_tick.Tcp.{Entry, AckLine}
use nano_tick.Tcp.Session.{Phase, Session, Event, run_events}
use nano_tick.Tcp.Refine.{Window, Refines}
use nano_tick.Tcp.Schedule.{SessionRefines, run_from-Refines}
use nano_tick.Tcp.Delivery.{failed_stays, incomparable_ack_fails}

module _ {M : Type 0} (encode : ℕ → M → List ℕ) (limit : ℕ) where
  -- In a live session that has kept its window, when some tick waits for an acknowledgement, a line whose
  -- value does not compare with a number stops the delivery for good: whatever ticks, connects and
  -- lines come after it, in whatever order, no `send` raises, the run task stays ended and no further
  -- line is written, while the ticks are still buffered within the cap.
  pub incomparable_ack_stops :
      (w : Window) (c : Session) (e : Entry) (l : List Entry) (evs : List (Event M))
      → SessionRefines limit w c
      → c.phase ≡ Phase.live
      → c.sink.unacked ≡ e ∷ l
      → (c' : Session) × (v : Window) × (run_events encode c
            (Event.ack_line AckLine.incomparable ∷ evs)
          ≡ ok c')
        × (c'.phase ≡ Phase.failed)
        × (c'.written ≡ c.written)
        × Refines limit v c'.sink
  unfolding run_events
  incomparable_ack_stops w c e l evs h live waits =
      let (c', v, run, steps, h') =
        run_from-Refines encode limit (Event.ack_line AckLine.incomparable ∷ evs) w c h in
      let first =
        ap (λ r. r >>= λ x. run_events encode x evs)
          (incomparable_ack_fails encode c e l live waits) in
      let (ended, silent) =
        failed_stays encode evs (record c { phase = Phase.failed }) c' refl (sym first ∙ run) in
      (c', v, run, ended, silent, h')
