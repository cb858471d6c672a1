-- ===== src/Feed/Queue.antt =====
-- The queue and the rebridge flag of resources/feedhandler.py.
use nano_tick.Base.{
  ℕ, zero, suc, ◌+◌, ◌≤◌, ◌<◌, ◌≡◌, refl, ap, Option, none, some, List, [], ◌∷◌, ◌++◌, length, min,
  length-append, arith, tests, ltb, inl, inr, ◌⊎◌, Bool-cases, Error, Result-cases, All, All-map,
  Result, ok, raise,
}
use mathlib.Core.Path.{subst}
use nano_tick.Base.Dict.{insert}
use nano_tick.Store.{Table, max_stored}
use nano_tick.Batch.{is_new}
use nano_tick.Batch.Dedup.{floor_of, HasId, new_ge, old_lt}
use nano_tick.Feed.{
  Handler, Record, Wire, Bridging, queue_maxsize, put, on_message, drain_loop, drain, first_new,
  least, last_of, rebridge_from, maybe_rebridge, close_gap, discard,
}

module _ {K T Q R S : Type 0} where
  -- On a queue within its bound a malformed message changes nothing. A well-formed one is queued
  -- behind the others while there is room, and is else dropped and counted, so the queue stays within
  -- its bound.
  pub on_message_bounded :
      (r : Record T Q) (h : Handler K T Q R S)
      → length h.queue ≤ queue_maxsize
      → (on_message none h ≡ h)
        × (length (on_message (some r) h).queue ≤ queue_maxsize)
        × (((length h.queue < queue_maxsize)
              × (on_message (some r) h ≡ record h { queue = h.queue ++ r ∷ [] }))
            ⊎ ((length h.queue ≡ queue_maxsize)
                × (on_message (some r) h ≡ record h { dropped = h.dropped + 1 })))
  unfolding on_message
  on_message_bounded r h b = elim (Bool-cases (ltb (length h.queue) queue_maxsize)) [
    | inl e ↦
        rw (e, put)
          (refl, omega (tests, e, length-append h.queue (r ∷ [])), inl (omega (tests, e), refl))
    | inr e ↦ rw (e, put) (refl, b, inr (omega (tests, e), refl))
  ]

module _ {T Q : Type 0} where
  drain_loop-lem :
      (room : ℕ) (queue : List (Record T Q))
      → let (batch, rest) = drain_loop room queue in
        (batch ++ rest ≡ queue) × (length batch ≤ room) × ((rest ≡ []) ⊎ (length batch ≡ room))
  unfolding drain_loop
  drain_loop-lem zero queue = (refl, omega arith, inr refl)
  drain_loop-lem (suc room) [] = (refl, omega arith, inl refl)
  drain_loop-lem (suc room) (r ∷ queue) =
      let (split, fits, full) = drain_loop-lem room queue in
      (ap (◌∷◌ r) split, omega arith, elim full [ inl e ↦ inl e | inr e ↦ inr (ap suc e) ])

  -- A drained batch is the front of the queue, in order, and what is left stays queued; it takes all
  -- that is there, up to its bound.
  pub drain_lem :
      (room : ℕ) (first : Record T Q) (queue : List (Record T Q))
      → let (batch, rest) = drain room first queue in
        (batch ++ rest ≡ first ∷ queue)
        × (length batch ≤ room + 1)
        × ((rest ≡ []) ⊎ (length batch ≡ room + 1))
  unfolding drain
  drain_lem room first queue =
      let (split, fits, full) = drain_loop-lem room queue in
      (ap (◌∷◌ first) split, omega arith, elim full [ inl e ↦ inl e | inr e ↦ inr (omega arith) ])

module _ {T : Type 0} (id : T → ℕ) where
  -- What `first_new` finds: nothing if no id is above the last one, else the least that is.
  abbrev pub IsFirstNew : Option ℕ → List T → Option ℕ → Type 0
  IsFirstNew last l none = All (λ t. id t < floor_of last) l
  IsFirstNew last l (some m) =
      HasId id m l × (floor_of last ≤ m) × All (λ t. floor_of last ≤ id t → m ≤ id t) l

  least-IsFirstNew :
      (last : Option ℕ) (t : T) (ts : List T) (o : Option ℕ)
      → floor_of last ≤ id t
      → IsFirstNew last ts o
      → IsFirstNew last (t ∷ ts) (least (id t) o)
  unfolding least
  least-IsFirstNew last t ts none new h = (
    inl refl,
    new,
    (
      λ _. omega arith,
      All-map (λ u. id u < floor_of last) _ (λ u old above. absurd (omega arith)) ts h,
    ),
  )
  least-IsFirstNew last t ts (some m) new h = (
    min_has m h.0,
    omega (arith, h.1),
    (
      λ _. omega arith,
      All-map (λ u. floor_of last ≤ id u → m ≤ id u) _ (λ u le above. omega (arith, le above)) ts
          h.2,
    ),
  )
    where
      min_has : (m : ℕ) → HasId id m ts → HasId id (min (id t) m) (t ∷ ts)
      min_has m has = elim (Bool-cases (ltb m (id t))) [
        | inl e ↦ inr (subst (λ i. HasId id i ts) (omega (tests, e)) has)
        | inr e ↦ inl (omega (tests, e))
      ]

  old-IsFirstNew :
      (last : Option ℕ) (t : T) (ts : List T) (o : Option ℕ)
      → id t < floor_of last
      → IsFirstNew last ts o
      → IsFirstNew last (t ∷ ts) o
  old-IsFirstNew last t ts none old h = (old, h)
  old-IsFirstNew last t ts (some m) old h = (inr h.0, h.1, (λ le. absurd (omega (arith, le)), h.2))

  -- `first_new` is the least id of the trades that is above the last one, if there is any.
  pub first_new-IsFirstNew :
      (last : Option ℕ) (l : List T) → IsFirstNew last l (first_new id last l)
  unfolding first_new
  first_new-IsFirstNew last [] = tt
  first_new-IsFirstNew last (t ∷ ts) =
      let ih = first_new-IsFirstNew last ts in
      elim (Bool-cases (is_new id last t)) [
        | inl e ↦ rw e (least-IsFirstNew last t ts _ (new_ge id last t e) ih)
        | inr e ↦ rw e (old-IsFirstNew last t ts _ (old_lt id last t e) ih)
      ]

module _ {K T Q R S : Type 0} (dec : Discrete K) (w : Wire K T Q R S) (bridge : Bridging K R) where
  -- What a rebridge with a last id and a first new id leaves of a handler.
  abbrev pub Outcome :
      K → Option ℕ → Option ℕ → Handler K T Q R S → Result (Handler K T Q R S) → Type 0
  Outcome k last none h r = r ≡ ok h
  Outcome k none (some first) h r =
      r ≡ ok (record h { pending_rebridge = discard dec k h.pending_rebridge })
  Outcome k (some last) (some first) h r =
      ((first ≤ last + 1)
        × (r ≡ ok (record h { pending_rebridge = discard dec k h.pending_rebridge })))
      ⊎ ((last + 1 < first)
          × (((table : Table R) × (bridge k (some first) h.roller.store.trade ≡ ok table)
                × (r
                    ≡ ok (record h {
                      roller = record h.roller { store = record h.roller.store { trade = table } };
                      last_id =
                          insert dec k (max_stored dec w.row_symbol w.row_id k table) h.last_id;
                      pending_rebridge = discard dec k h.pending_rebridge;
                    })))
              ⊎ ((e : Error) × (bridge k (some first) h.roller.store.trade ≡ raise e)
                  × (r ≡ raise e))))

  rebridge_from-Outcome :
      (k : K) (last first : Option ℕ) (h : Handler K T Q R S)
      → Outcome k last first h (rebridge_from dec w bridge k last first h)
  unfolding rebridge_from close_gap
  rebridge_from-Outcome k last none h = refl
  rebridge_from-Outcome k none (some first) h = refl
  rebridge_from-Outcome k (some last) (some first) h = elim (Bool-cases (ltb (last + 1) first)) [
    | inl e ↦ inr (
      omega (tests, e),
      elim (Result-cases (bridge k (some first) h.roller.store.trade)) [
        | inl (table, run) ↦ inl (table, run, rw (e, run) refl)
        | inr (error, run) ↦ inr (error, run, rw (e, run) refl)
      ],
    )
    | inr e ↦ inl (omega (tests, e), rw e refl)
  ]

  -- A rebridge looks for the least id of the batch that is above the last one of its symbol. Without
  -- one it changes nothing and the symbol stays pending. Else the symbol is pending no more. If at
  -- least one id lies between the two, the gap is bridged up to the new id, the bridged table
  -- replaces the trades and the last id is read back from it, or the bridge's error is raised.
  pub maybe_rebridge-Outcome :
      (k : K) (trades : List T) (h : Handler K T Q R S)
      → (first : Option ℕ) × IsFirstNew w.id (last_of dec k h.last_id) trades first
        × Outcome k (last_of dec k h.last_id) first h (maybe_rebridge dec w bridge k trades h)
  unfolding maybe_rebridge
  maybe_rebridge-Outcome k trades h =
      let last = last_of dec k h.last_id in
      (
        first_new w.id last trades,
        first_new-IsFirstNew w.id last trades,
        rebridge_from-Outcome k last (first_new w.id last trades) h,
      )
