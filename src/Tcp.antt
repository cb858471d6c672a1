-- ===== src/Tcp.antt =====
-- `TcpSink` of ingest/src/sinks/tcp.py: the buffer of encoded ticks, and the event handlers that
-- the asyncio tasks run between two awaits. The text that `json.dumps` makes of a tick is a
-- parameter; the loop of `_run` is the child Session.
pub mod Session
pub mod Buffer
pub mod Refine
pub mod Schedule
pub mod Stopped
pub mod Delivery
mod Tests
use nano_tick.Base.{
  ℕ, suc, ◌+◌, ◌-◌, Bool, true, false, List, [], ◌∷◌, ◌++◌, length, if◌then◌else◌, ltb, ◌&&◌,
  Result, ok, raise, Error, ◌>>=◌,
}
use nano_tick.Base.Int.{ℤ, pos, leb_ℤ}

abbrev pub entry_overhead_bytes : ℕ
entry_overhead_bytes = 120

-- a buffered (seq, encoded line) pair
pub record Entry : Type 0 where
  pub seq : ℕ
  pub line : List ℕ

-- the instance attributes of a `TcpSink` that the handlers read and write
pub record TcpSink : Type 0 where
  pub max_buffer_bytes : ℕ
  pub unsent : List Entry
  pub unacked : List Entry
  pub buffered_bytes : ℕ
  pub next_seq : ℕ
  pub has_data : Bool
  pub dropped : ℕ

abbrev pub cost : Entry → ℕ
cost e = length e.line + entry_overhead_bytes

unfoldable pub init : ℕ → TcpSink
init max_buffer_bytes = record {
  max_buffer_bytes = max_buffer_bytes;
  unsent = [];
  unacked = [];
  buffered_bytes = 0;
  next_seq = 1;
  has_data = false;
  dropped = 0;
}

-- what the eviction loop reads and writes
pub record Buffers : Type 0 where
  pub unacked : List Entry
  pub unsent : List Entry
  pub bytes : ℕ
  pub dropped : ℕ

-- `while self._buffered_bytes > self.max_buffer_bytes`: `popleft` on an empty deque raises
unfoldable pub evict : ℕ → List Entry → List Entry → ℕ → ℕ → Result Buffers
evict limit (e ∷ unacked) unsent bytes dropped =
    let rest = evict limit unacked unsent (bytes - cost e) (dropped + 1) in
    if ltb limit bytes
    then rest
    else ok (record { unacked = e ∷ unacked; unsent = unsent; bytes = bytes; dropped = dropped })
evict limit [] (e ∷ unsent) bytes dropped =
    let rest = evict limit [] unsent (bytes - cost e) (dropped + 1) in
    if ltb limit bytes
    then rest
    else ok (record { unacked = []; unsent = e ∷ unsent; bytes = bytes; dropped = dropped })
evict limit [] [] bytes dropped =
    if ltb limit bytes
    then raise Error.index_error
    else ok (record { unacked = []; unsent = []; bytes = bytes; dropped = dropped })

-- `send`, with `encode` for the encoded line of a message under its sequence number
unfoldable pub send : {M : Type 0} → (ℕ → M → List ℕ) → TcpSink → M → Result TcpSink
send encode s message =
    let e : Entry = record { seq = s.next_seq; line = encode s.next_seq message } in
    do
      b ←
          evict s.max_buffer_bytes s.unacked (s.unsent ++ e ∷ []) (s.buffered_bytes + cost e)
            s.dropped
      ok (record s {
        unsent = b.unsent;
        unacked = b.unacked;
        buffered_bytes = b.bytes;
        next_seq = s.next_seq + 1;
        has_data = true;
        dropped = b.dropped;
      })

-- `d.extendleft(xs)`: each item in turn goes to the left end
unfoldable pub extendleft : List Entry → List Entry → List Entry
extendleft d [] = d
extendleft d (x ∷ xs) = extendleft (x ∷ d) xs

abbrev pub is_empty {ℓ} : {A : Type ℓ} → List A → Bool
is_empty [] = true
is_empty (x ∷ xs) = false

unfoldable pub reversed : List Entry → List Entry
reversed [] = []
reversed (x ∷ xs) = reversed xs ++ x ∷ []

-- the part of `_run` right after a connection opens
unfoldable pub requeue : TcpSink → TcpSink
requeue s =
    let unsent = extendleft s.unsent (reversed s.unacked) in
    record s {
      unsent = unsent;
      unacked = [];
      has_data = if is_empty unsent then s.has_data else true;
    }

-- one turn of `_send_loop`: the state, and the line that is written, if any
pub data Turn : Type 0 where
  wait : TcpSink → Turn
  write : List ℕ → TcpSink → Turn

unfoldable pub turn_with : TcpSink → List Entry → Turn
turn_with s [] = wait (record s { has_data = false })
turn_with s (e ∷ unsent) =
    write e.line (record s { unsent = unsent; unacked = s.unacked ++ e ∷ [] })

unfoldable pub send_turn : TcpSink → Turn
unfolding turn_with
send_turn s = turn_with s s.unsent

-- what `reader.readline()` and the parse of it give: the end of the stream, a line that is too long or
-- no UTF-8, whose ValueError is not caught, a line that one of the caught exceptions rejects, a
-- number, or a value that does not compare with a number
pub data AckLine : Type 0 where
  closed undecodable malformed incomparable : AckLine
  number : ℤ → AckLine

-- `while self._unacked and self._unacked[0][0] <= ack`
unfoldable pub pop_acked : ℤ → List Entry → ℕ → List Entry × ℕ
pop_acked ack [] bytes = ([], bytes)
pop_acked ack (e ∷ unacked) bytes =
    let rest = pop_acked ack unacked (bytes - cost e) in
    if leb_ℤ (pos e.seq) ack then rest else (e ∷ unacked, bytes)

-- one turn of `_ack_loop`; the comparison with a value that is no number is a `TypeError`, and it
-- is made only if something waits for an acknowledgement
unfoldable pub ack_turn : TcpSink → AckLine → Result TcpSink
ack_turn s AckLine.closed = raise Error.connection_error
ack_turn s AckLine.undecodable = raise Error.value_error
ack_turn s AckLine.malformed = ok s
ack_turn s AckLine.incomparable = if is_empty s.unacked then ok s else raise Error.type_error
ack_turn s (AckLine.number ack) =
    let popped = pop_acked ack s.unacked s.buffered_bytes in
    ok (record s { unacked = popped.0; buffered_bytes = popped.1 })
