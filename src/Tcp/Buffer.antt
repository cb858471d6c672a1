-- ===== src/Tcp/Buffer.antt =====
-- The buffer of ingest/src/sinks/tcp.py: its byte count, its cap and its sequence numbers.
use nano_tick.Base.{
  ℕ, ◌∙◌, max, ◌+◌, ◌-◌, ◌≤◌, ◌≡◌, refl, ap, inl, inr, false, List, [], ◌∷◌, ◌++◌, length, arith,
  tests, ltb, ok, Bool-cases, All,
}
use nano_tick.Base.Int.{ℤ, pos, pos_part, leb_ℤ, ◌≤ℤ◌}
use nano_tick.Tcp.{Entry, Buffers, cost, evict, extendleft, reversed, pop_acked}

-- the memory that a list of entries accounts for
unfoldable pub total_cost : List Entry → ℕ
total_cost [] = 0
total_cost (e ∷ l) = cost e + total_cost l

-- the sequence numbers of the entries run without a gap from `lo` up to below `hi`
unfoldable pub Runs : ℕ → List Entry → ℕ → Type 0
Runs lo [] hi = lo ≡ hi
Runs lo (e ∷ l) hi = (e.seq ≡ lo) × Runs (lo + 1) l hi

pub total_cost-append : (xs ys : List Entry) → total_cost (xs ++ ys) ≡ total_cost xs + total_cost ys
unfolding total_cost
total_cost-append [] ys = omega arith
total_cost-append (x ∷ xs) ys = omega (arith, total_cost-append xs ys)

pub Runs-snoc :
    (lo hi : ℕ) (l : List Entry) (e : Entry)
    → Runs lo l hi
    → e.seq ≡ hi
    → Runs lo (l ++ e ∷ []) (hi + 1)
unfolding Runs
Runs-snoc lo hi [] e r s = (omega arith, omega arith)
Runs-snoc lo hi (x ∷ l) e r s = (r.0, Runs-snoc (lo + 1) hi l e r.1 s)

-- the result of the eviction loop: `k` entries have gone from the front
pub record Evicted (limit lo hi dropped k : ℕ) (b : Buffers) : Type 0 where
  pub bounded : b.bytes ≤ limit
  pub counted : b.bytes ≡ total_cost (b.unacked ++ b.unsent)
  pub runs : Runs (lo + k) (b.unacked ++ b.unsent) hi
  pub lost : b.dropped ≡ dropped + k

Evicted-shift :
    (limit lo hi dropped k : ℕ) (b : Buffers)
    → Evicted limit (lo + 1) hi (dropped + 1) k b
    → Evicted limit lo hi dropped (k + 1) b
Evicted-shift limit lo hi dropped k b ev =
    let e : lo + (k + 1) ≡ lo + 1 + k = omega arith in
    record {
      bounded = ev.bounded;
      counted = ev.counted;
      runs = rw e ev.runs;
      lost = omega (arith, ev.lost);
    }

Evicted-here :
    (limit lo hi : ℕ) (us ns : List Entry) (bytes dropped : ℕ)
    → ltb limit bytes ≡ false
    → bytes ≡ total_cost (us ++ ns)
    → Runs lo (us ++ ns) hi
    → Evicted limit lo hi dropped 0
        (record { unacked = us; unsent = ns; bytes = bytes; dropped = dropped })
Evicted-here limit lo hi us ns bytes dropped fits h r =
    let e : lo + 0 ≡ lo = omega arith in
    record { bounded = omega tests; counted = h; runs = rw e r; lost = omega arith }

pub evict-Evicted :
    (limit lo hi : ℕ) (unacked unsent : List Entry) (bytes dropped : ℕ)
    → bytes ≡ total_cost (unacked ++ unsent)
    → Runs lo (unacked ++ unsent) hi
    → (b : Buffers) × (k : ℕ) × (evict limit unacked unsent bytes dropped ≡ ok b)
      × Evicted limit lo hi dropped k b
      × (bytes ≤ limit → k ≡ 0)
unfolding evict total_cost Runs
evict-Evicted limit lo hi (e ∷ us) ns bytes dropped h r = elim (Bool-cases (ltb limit bytes)) [
  | inl over ↦
      let (b, k, run, ev, _) =
        evict-Evicted limit (lo + 1) hi us ns (bytes - cost e) (dropped + 1) (omega arith) r.1 in
      (
        b,
        k + 1,
        rw over run,
        Evicted-shift limit lo hi dropped k b ev,
        λ le. absurd (omega (tests, over, le)),
      )
  | inr fits ↦
      (_, 0, rw fits, Evicted-here limit lo hi (e ∷ us) ns bytes dropped fits h r, λ le. refl)
]
evict-Evicted limit lo hi [] (e ∷ ns) bytes dropped h r = elim (Bool-cases (ltb limit bytes)) [
  | inl over ↦
      let (b, k, run, ev, _) =
        evict-Evicted limit (lo + 1) hi [] ns (bytes - cost e) (dropped + 1) (omega arith) r.1 in
      (
        b,
        k + 1,
        rw over run,
        Evicted-shift limit lo hi dropped k b ev,
        λ le. absurd (omega (tests, over, le)),
      )
  | inr fits ↦
      (_, 0, rw fits, Evicted-here limit lo hi [] (e ∷ ns) bytes dropped fits h r, λ le. refl)
]
evict-Evicted limit lo hi [] [] bytes dropped h r = elim (Bool-cases (ltb limit bytes)) [
  | inl over ↦ absurd (omega (tests))
  | inr fits ↦ (_, 0, rw fits, Evicted-here limit lo hi [] [] bytes dropped fits h r, λ le. refl)
]

-- If the buffer is within its limit nothing is evicted.
pub evict_fits :
    (limit : ℕ) (unacked unsent : List Entry) (bytes dropped : ℕ)
    → bytes ≤ limit
    → evict limit unacked unsent bytes dropped
      ≡ ok (record { unacked = unacked; unsent = unsent; bytes = bytes; dropped = dropped })
unfolding evict
evict_fits limit (e ∷ us) ns bytes dropped h =
    let t : ltb limit bytes ≡ false = ground arith in rw t
evict_fits limit [] (e ∷ ns) bytes dropped h =
    let t : ltb limit bytes ≡ false = ground arith in rw t
evict_fits limit [] [] bytes dropped h = let t : ltb limit bytes ≡ false = ground arith in rw t

extendleft-append : (d l : List Entry) (x : Entry) → extendleft d (l ++ x ∷ []) ≡ x ∷ extendleft d l
unfolding extendleft
extendleft-append d [] x = refl
extendleft-append d (y ∷ l) x = extendleft-append (y ∷ d) l x

-- The requeued entries come first, in their old order.
pub extendleft-reversed : (d l : List Entry) → extendleft d (reversed l) ≡ l ++ d
unfolding extendleft reversed
extendleft-reversed d [] = refl
extendleft-reversed d (x ∷ l) =
    extendleft-append d (reversed l) x ∙ ap (◌∷◌ x) (extendleft-reversed d l)

-- Of waiting entries with consecutive numbers an acknowledgement takes a prefix: all with a number
-- up to it and no other. The byte count stays that of the entries left, and their numbers run on.
pub pop_acked-prefix :
    (lo hi : ℕ) (ack : ℤ) (us ns : List Entry) (bytes : ℕ)
    → bytes ≡ total_cost (us ++ ns)
    → Runs lo (us ++ ns) hi
    → (gone : List Entry) × (us ≡ gone ++ (pop_acked ack us bytes).0)
      × ((pop_acked ack us bytes).1 ≡ total_cost ((pop_acked ack us bytes).0 ++ ns))
      × Runs (lo + length gone) ((pop_acked ack us bytes).0 ++ ns) hi
      × All (λ e. pos e.seq ≤ℤ ack) gone
      × All (λ e. ¬ (pos e.seq ≤ℤ ack)) (pop_acked ack us bytes).0
      × (lo + length gone ≤ max lo (pos_part ack + 1))
unfolding pop_acked total_cost Runs
pop_acked-prefix lo hi ack [] ns bytes h r =
    let e : lo + 0 ≡ lo = omega arith in ([], refl, h, rw e r, tt, tt, omega arith)
pop_acked-prefix lo hi ack (e ∷ us) ns bytes h r = elim (Bool-cases (leb_ℤ (pos e.seq) ack)) [
  | inl acked ↦
      let (gone, split, counted, runs, le, gt, bound) =
        pop_acked-prefix (lo + 1) hi ack us ns (bytes - cost e) (omega arith) r.1 in
      let shift : lo + length (e ∷ gone) ≡ lo + 1 + length gone = omega arith in
      rw acked (
        e ∷ gone,
        ap (◌∷◌ e) split,
        counted,
        rw shift runs,
        (omega (tests, acked), le),
        gt,
        omega (tests, acked, r.0, bound),
      )
  | inr waits ↦
      let here : lo + 0 ≡ lo = omega arith in
      rw waits (
        [],
        refl,
        h,
        rw here r,
        tt,
        (omega (tests, waits), later_unacked (lo + 1) hi ack us ns (omega (tests, waits)) r.1),
        omega arith,
      )
]
  where
    later_unacked :
        (lo hi : ℕ) (ack : ℤ) (us ns : List Entry)
        → ¬ (pos lo ≤ℤ ack)
        → Runs lo (us ++ ns) hi
        → All (λ e. ¬ (pos e.seq ≤ℤ ack)) us
    later_unacked lo hi ack [] ns h r = tt
    later_unacked lo hi ack (e ∷ us) ns h r =
        (omega (arith, r.0), later_unacked (lo + 1) hi ack us ns (omega arith) r.1)
