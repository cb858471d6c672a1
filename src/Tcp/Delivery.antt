-- ===== src/Tcp/Delivery.antt =====
-- What one connection of `TcpSink` (ingest/src/sinks/tcp.py) delivers, and what ends its run task.
use nano_tick.Base.{
  ℕ, zero, suc, ◌+◌, ◌≤◌, ◌≡◌, refl, ap, List, [], ◌∷◌, ◌++◌, map, length, arith, Result, ok, raise,
  append-nil, append_assoc, Error, if◌then◌else◌, ◌∙◌, ◌>>=◌, sym, true,
}
use nano_tick.Tcp.{
  entry_overhead_bytes, Entry, TcpSink, cost, send, requeue, send_turn, AckLine, ack_turn, is_empty,
  turn_with,
}
use nano_tick.Tcp.Buffer.{extendleft-reversed, evict_fits}
use nano_tick.Tcp.Session.{
  Phase, Session, Event, after_ack, after_turn, after_send, live_step, idle_step, failed_step,
  phase_step, step, run_events,
}

-- `n` turns of the send loop, with nothing in between

abbrev pub turns : {M : Type 0} → ℕ → List (Event M)
turns zero = []
turns (suc n) = Event.sender_turn ∷ turns n

abbrev pub line_of : Entry → List ℕ
line_of e = e.line

module _ {M : Type 0} (encode : ℕ → M → List ℕ) where
  step-phase :
      (c : Session) (ev : Event M) (p : Phase)
      → c.phase ≡ p
      → step encode c ev ≡ phase_step encode p c ev
  unfolding step
  step-phase c ev p e = ap (λ q. phase_step encode q c ev) e

  live_turn :
      (c : Session) (x : Entry) (l : List Entry)
      → c.phase ≡ Phase.live
      → c.sink.unsent ≡ x ∷ l
      → step encode c Event.sender_turn ≡ ok (after_turn c (turn_with c.sink (x ∷ l)))
  unfolding phase_step live_step send_turn
  live_turn c x l p e =
      step-phase c Event.sender_turn Phase.live p
      ∙ ap (λ u. ok (after_turn c (turn_with c.sink u))) e

  drain :
      (l : List Entry) (c : Session)
      → c.phase ≡ Phase.live
      → c.sink.unsent ≡ l
      → (c' : Session) × (run_events encode c (turns (length l)) ≡ ok c')
        × (c'.written ≡ c.written ++ map line_of l)
        × (c'.sink.unacked ≡ c.sink.unacked ++ l)
        × (c'.sink.unsent ≡ [])
  unfolding run_events after_turn turn_with
  drain [] c p e = (c, refl, sym (append-nil c.written), sym (append-nil c.sink.unacked), e)
  drain (x ∷ l) c p e =
      let s' : TcpSink = record c.sink { unsent = l; unacked = c.sink.unacked ++ x ∷ [] } in
      let c₁ : Session = record c { sink = s'; written = c.written ++ x.line ∷ [] } in
      let stepped : step encode c Event.sender_turn ≡ ok c₁ = live_turn c x l p e in
      let (c', run, lines, waiting, empty) = drain l c₁ p refl in
      (
        c',
        rw stepped run,
        lines ∙ append_assoc c.written (x.line ∷ []) (map line_of l),
        waiting ∙ append_assoc c.sink.unacked (x ∷ []) l,
        empty,
      )

  -- After a reconnect the sender first writes again, in order, every line that was written and not
  -- acknowledged, and then what was still to be sent; all of it then waits for acknowledgement.
  pub reconnect_resends :
      (c : Session)
      → c.phase ≡ Phase.connecting
      → let pending = c.sink.unacked ++ c.sink.unsent in
        (c' : Session) × (run_events encode c (Event.connect ∷ turns (length pending)) ≡ ok c')
        × (c'.written ≡ c.written ++ map line_of pending)
        × (c'.sink.unacked ≡ pending)
        × (c'.sink.unsent ≡ [])
  unfolding run_events phase_step idle_step requeue
  reconnect_resends c p =
      let pending = c.sink.unacked ++ c.sink.unsent in
      let c₁ : Session = record c { sink = requeue c.sink; phase = Phase.live } in
      rw (step-phase c Event.connect Phase.connecting p)
        (drain pending c₁ refl (extendleft-reversed c.sink.unsent c.sink.unacked))

  -- A tick that fits under the cap is queued last, with the next number, and nothing is dropped.
  pub send_fits :
      (s : TcpSink) (m : M)
      → s.buffered_bytes + (length (encode s.next_seq m) + entry_overhead_bytes)
        ≤ s.max_buffer_bytes
      → let e : Entry = record { seq = s.next_seq; line = encode s.next_seq m } in
        send encode s m
        ≡ ok (record s {
          unsent = s.unsent ++ e ∷ [];
          buffered_bytes = s.buffered_bytes + cost e;
          next_seq = s.next_seq + 1;
          has_data = true;
        })
  unfolding send
  send_fits s m h = rw (evict_fits s.max_buffer_bytes s.unacked _ _ s.dropped h)

  after_send-failed :
      (c c₁ : Session) (r : Result TcpSink)
      → after_send encode c r ≡ ok c₁
      → (c₁.phase ≡ c.phase) × (c₁.written ≡ c.written)
  unfolding after_send
  after_send-failed c c₁ (ok s) e = ground arith
  after_send-failed c c₁ (raise x) e = absurd (cc)

  failed_step-stays :
      (c c₁ : Session) (ev : Event M)
      → failed_step encode c ev ≡ ok c₁
      → (c₁.phase ≡ c.phase) × (c₁.written ≡ c.written)
  unfolding failed_step
  failed_step-stays c c₁ (Event.message m) e = after_send-failed c c₁ (send encode c.sink m) e
  failed_step-stays c c₁ ev e = ground arith

  -- A run task that an exception has ended stays ended: whatever happens then, no line is written.
  pub failed_stays :
      (evs : List (Event M)) (c c' : Session)
      → c.phase ≡ Phase.failed
      → run_events encode c evs ≡ ok c'
      → (c'.phase ≡ Phase.failed) × (c'.written ≡ c.written)
  unfolding run_events phase_step
  failed_stays [] c c' p r = ground arith
  failed_stays (ev ∷ evs) c c' p r =
      failed_next evs c c' p (failed_step encode c ev) (rw (step-phase c ev Phase.failed p) at r)
        (λ c₁ e. failed_step-stays c c₁ ev e) (λ c₁ q s. failed_stays evs c₁ c' q s)
    where
      failed_next :
          (evs : List (Event M)) (c c' : Session)
          → c.phase ≡ Phase.failed
          → (r : Result Session) → (r >>= λ c₁. run_events encode c₁ evs) ≡ ok c'
          → ((c₁ : Session) → r ≡ ok c₁ → (c₁.phase ≡ c.phase) × (c₁.written ≡ c.written))
          → ((c₁ : Session)
              → c₁.phase ≡ Phase.failed
              → run_events encode c₁ evs ≡ ok c'
              → (c'.phase ≡ Phase.failed) × (c'.written ≡ c₁.written))
          → (c'.phase ≡ Phase.failed) × (c'.written ≡ c.written)
      failed_next evs c c' p (ok c₁) run kept ih =
          let (same, wrote) = kept c₁ refl in
          let (end, lines) = ih c₁ (same ∙ p) run in (end, lines ∙ wrote)
      failed_next evs c c' p (raise x) run kept ih = absurd (cc)

  -- An acknowledgement whose value is no number ends the run task, if some tick waits for one.
  pub incomparable_ack_fails :
      (c : Session) (e : Entry) (l : List Entry)
      → c.phase ≡ Phase.live
      → c.sink.unacked ≡ e ∷ l
      → step encode c (Event.ack_line AckLine.incomparable) ≡ ok (record c { phase = Phase.failed })
  unfolding phase_step live_step after_ack ack_turn
  incomparable_ack_fails c e l p w =
      step-phase c (Event.ack_line AckLine.incomparable) Phase.live p
      ∙ ap (λ b. ok (after_ack c (if b then ok c.sink else raise Error.type_error))) (ap is_empty w)
