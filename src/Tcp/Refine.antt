-- ===== src/Tcp/Refine.antt =====
-- What the sink of ingest/src/sinks/tcp.py promises, as a window of sequence numbers, and its
-- operations against that.
use nano_tick.Base.{
  All, ℕ, ◌+◌, ◌≤◌, max, ◌≡◌, refl, ap, inl, inr, true, List, [], ◌∷◌, ◌++◌, length, arith, Result,
  ok, raise, Bool-cases, append_assoc,
}
use nano_tick.Base.Int.{ℤ, pos, pos_part, ◌≤ℤ◌}
use nano_tick.Tcp.{
  Entry, TcpSink, cost, init, send, requeue, send_turn, Turn, wait, write, pop_acked, AckLine,
  ack_turn, is_empty, turn_with,
}
use nano_tick.Tcp.Buffer.{
  total_cost, Runs, total_cost-append, Runs-snoc, evict-Evicted, extendleft-reversed,
  pop_acked-prefix,
}

-- The ticks with a number from `lo` up to below `hi` are pending; `lost` have been evicted and
-- `confirmed` have been acknowledged.
pub record Window : Type 0 where
  pub lo : ℕ
  pub hi : ℕ
  pub lost : ℕ
  pub confirmed : ℕ

abbrev pub window_start : Window
window_start = record { lo = 1; hi = 1; lost = 0; confirmed = 0 }

-- a new tick enters at `hi`, and the `k` oldest are lost
abbrev pub pushed : Window → ℕ → Window
pushed w k = record { lo = w.lo + k; hi = w.hi + 1; lost = w.lost + k; confirmed = w.confirmed }

-- the `k` oldest are confirmed
abbrev pub acked : Window → ℕ → Window
acked w k = record { lo = w.lo + k; hi = w.hi; lost = w.lost; confirmed = w.confirmed + k }

-- What a line of the acknowledgement loop does to the window and leaves of the sink: a number confirms
-- oldest ticks up to it, and leaves none of those that wait for one; any other line does nothing.
abbrev pub AckStep : AckLine → Window → Window → TcpSink → Type 0
AckStep (AckLine.number ack) w v s =
    (k : ℕ) × (w.lo + k ≤ max w.lo (pos_part ack + 1))
    × (v ≡ acked w k)
    × All (λ e. ¬ (pos e.seq ≤ℤ ack)) s.unacked
AckStep _ w v s = v ≡ w

-- The detailed sink holds exactly the window, in order, unacknowledged entries first; the byte
-- count is that of its entries and stays under the cap.
pub record Refines (limit : ℕ) (w : Window) (s : TcpSink) : Type 0 where
  pub capped : s.max_buffer_bytes ≡ limit
  pub counted : s.buffered_bytes ≡ total_cost (s.unacked ++ s.unsent)
  pub bounded : s.buffered_bytes ≤ limit
  pub runs : Runs w.lo (s.unacked ++ s.unsent) w.hi
  pub numbered : s.next_seq ≡ w.hi
  pub losses : s.dropped ≡ w.lost
  pub ledger : w.lo ≡ 1 + w.lost + w.confirmed

pub init-Refines : (limit : ℕ) → Refines limit window_start (init limit)
unfolding init total_cost Runs
init-Refines limit = omega arith

pub requeue-Refines :
    (limit : ℕ) (w : Window) (s : TcpSink) → Refines limit w s → Refines limit w (requeue s)
unfolding requeue
requeue-Refines limit w s h =
    let e = extendleft-reversed s.unsent s.unacked in
    record {
      capped = h.capped;
      counted = rw e h.counted;
      bounded = h.bounded;
      runs = rw e h.runs;
      numbered = h.numbered;
      losses = h.losses;
      ledger = h.ledger;
    }

-- the sink after a turn of the send loop
abbrev pub turned : Turn → TcpSink
turned (wait s) = s
turned (write line s) = s

turn_with-Refines :
    (limit : ℕ) (w : Window) (s : TcpSink) (l : List Entry)
    → s.unsent ≡ l
    → Refines limit w s
    → Refines limit w (turned (turn_with s l))
unfolding turn_with
turn_with-Refines limit w s [] e h = record {
  capped = h.capped;
  counted = h.counted;
  bounded = h.bounded;
  runs = h.runs;
  numbered = h.numbered;
  losses = h.losses;
  ledger = h.ledger;
}
turn_with-Refines limit w s (x ∷ l) e h =
    let moved : (s.unacked ++ x ∷ []) ++ l ≡ s.unacked ++ s.unsent =
      rw e (append_assoc s.unacked (x ∷ []) l) in
    record {
      capped = h.capped;
      counted = rw moved h.counted;
      bounded = h.bounded;
      runs = rw moved h.runs;
      numbered = h.numbered;
      losses = h.losses;
      ledger = h.ledger;
    }

pub send_turn-Refines :
    (limit : ℕ) (w : Window) (s : TcpSink)
    → Refines limit w s
    → Refines limit w (turned (send_turn s))
unfolding send_turn
send_turn-Refines limit w s h = turn_with-Refines limit w s s.unsent refl h

-- A send never raises: it numbers the tick, and evicts some of the oldest, none if there is room.
pub send-Refines :
    {M : Type 0} (encode : ℕ → M → List ℕ) (limit : ℕ) (w : Window) (s : TcpSink) (m : M)
    → Refines limit w s
    → (s' : TcpSink) × (k : ℕ) × (send encode s m ≡ ok s')
      × Refines limit (pushed w k) s'
      × (s.buffered_bytes + cost (record { seq = s.next_seq; line = encode s.next_seq m }) ≤ limit
          → k ≡ 0)
unfolding send total_cost
send-Refines encode limit w s m h =
    let e : Entry = record { seq = s.next_seq; line = encode s.next_seq m } in
    let regroup = append_assoc s.unacked s.unsent (e ∷ []) in
    let (b, k, run, ev, room) =
      evict-Evicted s.max_buffer_bytes w.lo (w.hi + 1) s.unacked (s.unsent ++ e ∷ [])
        (s.buffered_bytes + cost e) s.dropped
        (rw (← regroup)
          (omega (arith, h.counted, total_cost-append (s.unacked ++ s.unsent) (e ∷ []))))
        (rw (← regroup) (Runs-snoc w.lo w.hi (s.unacked ++ s.unsent) e h.runs h.numbered)) in
    (
      record s {
        unsent = b.unsent;
        unacked = b.unacked;
        buffered_bytes = b.bytes;
        next_seq = s.next_seq + 1;
        has_data = true;
        dropped = b.dropped;
      },
      k,
      rw run,
      record {
        capped = h.capped;
        counted = ev.counted;
        bounded = omega arith;
        runs = ev.runs;
        numbered = omega arith;
        losses = omega arith;
        ledger = omega arith;
      },
      λ le. room (omega (arith, le, h.capped)),
    )

-- An acknowledgement confirms some of the oldest ticks that were written, none above it.
pub pop_acked-Refines :
    (limit : ℕ) (w : Window) (s : TcpSink) (ack : ℤ)
    → Refines limit w s
    → let popped = pop_acked ack s.unacked s.buffered_bytes in
      (k : ℕ) × (w.lo + k ≤ max w.lo (pos_part ack + 1))
      × All (λ e. ¬ (pos e.seq ≤ℤ ack)) popped.0
      × Refines limit (acked w k) (record s { unacked = popped.0; buffered_bytes = popped.1 })
pop_acked-Refines limit w s ack h =
    let (gone, split, counted, runs, le, gt, bound) =
      pop_acked-prefix w.lo w.hi ack s.unacked s.unsent s.buffered_bytes h.counted h.runs in
    (
      length gone,
      bound,
      gt,
      record {
        capped = h.capped;
        counted = counted;
        bounded = omega (
          arith,
          ap total_cost split,
          total_cost-append gone (pop_acked ack s.unacked s.buffered_bytes).0,
          total_cost-append (pop_acked ack s.unacked s.buffered_bytes).0 s.unsent,
          total_cost-append s.unacked s.unsent,
        );
        runs = runs;
        numbered = h.numbered;
        losses = h.losses;
        ledger = omega arith;
      },
    )

-- What a turn of the acknowledgement loop leaves behind, by how it ended.
abbrev pub AckRefines : ℕ → Window → TcpSink → AckLine → Result TcpSink → Type 0
AckRefines limit w s l (ok s') = (v : Window) × AckStep l w v s' × Refines limit v s'
AckRefines limit w s l (raise e) = AckStep l w w s

pub ack_turn-Refines :
    (limit : ℕ) (w : Window) (s : TcpSink) (l : AckLine)
    → Refines limit w s
    → AckRefines limit w s l (ack_turn s l)
unfolding ack_turn
ack_turn-Refines limit w s AckLine.closed h = refl
ack_turn-Refines limit w s AckLine.undecodable h = refl
ack_turn-Refines limit w s AckLine.malformed h = (w, refl, h)
ack_turn-Refines limit w s AckLine.incomparable h = elim (Bool-cases (is_empty s.unacked)) [
  | inl e ↦ rw e (w, refl, h)
  | inr e ↦ rw e refl
]
ack_turn-Refines limit w s (AckLine.number ack) h =
    let (k, bound, gt, r) = pop_acked-Refines limit w s ack h in
    (acked w k, (k, bound, refl, gt), r)
