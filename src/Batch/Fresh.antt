-- ===== src/Batch/Fresh.antt =====
-- What `_dedup` of resources/feedhandler.py promises, for one batch and for a stream of batches.
use nano_tick.Base.{
  ℕ, ◌+◌, ◌≤◌, ◌<◌, ◌≡◌, refl, Option, List, [], ◌∷◌, ◌++◌, arith, All, All-map, inl, inr,
}
use nano_tick.Batch.{sorted, fresh_loop, dedup}
use nano_tick.Batch.Dedup.{
  floor_of, In, HasId, sorted-IsSorted, All-sorted, fresh_loop-Ascending, fresh_loop_mono,
  fresh_loop-below, fresh_loop-old, fresh_loop-All, fresh_loop-HasId, HasId-sorted,
}
use nano_tick.Bridge.Pages.{Ascending, Ascending-weaken}

In-All : {T : Type 0} (l : List T) → All (λ x. In x l) l
In-All [] = tt
In-All (x ∷ xs) = (inl refl, All-map (λ y. In y xs) _ (λ y h. inr h) xs (In-All xs))

module _ {T : Type 0} (id : T → ℕ) where
  -- What is let through of a batch, over the last id seen, and the last id seen after it.
  pub record IsFresh (last : Option ℕ) (items : List T) (r : List T × Option ℕ) : Type 0 where
    -- the ids rise strictly, from above the last one seen
    pub ascending : Ascending id (floor_of last) r.0
    -- every new id of the batch is let through
    pub complete : (n : ℕ) → floor_of last ≤ n → HasId id n items → HasId id n r.0
    -- nothing else is
    pub sound : All (λ x. In x items) r.0
    -- and no id of the batch is new after it
    pub seen : All (λ x. id x < floor_of r.1) items
    pub forward : floor_of last ≤ floor_of r.1

  pub dedup-All :
      (P : T → Type 0) (items : List T) (last : Option ℕ)
      → All P items
      → All P (dedup id items last).0
  unfolding dedup
  dedup-All P items last h =
      fresh_loop-All id P last (sorted id items) ((All-sorted id P items).1 h)

  -- Of any batch `_dedup` lets through records of the batch with strictly rising ids above the last
  -- one seen, one for each such id, and moves the last id up to where no id of the batch is new.
  pub dedup-IsFresh : (items : List T) (last : Option ℕ) → IsFresh last items (dedup id items last)
  unfolding dedup
  dedup-IsFresh items last = record {
    ascending = fresh_loop-Ascending id last (sorted id items);
    complete = λ n f h.
        fresh_loop-HasId id last 0 n (sorted id items) (sorted-IsSorted id items) f
          ((HasId-sorted id n items).1 h);
    sound =
        fresh_loop-All id (λ x. In x items) last (sorted id items)
          ((All-sorted id (λ x. In x items) items).1 (In-All items));
    seen =
        (All-sorted id (λ x. id x < floor_of (fresh_loop id last (sorted id items)).1) items).0
          (fresh_loop-below id last (sorted id items));
    forward = fresh_loop_mono id last (sorted id items);
  }

  -- A batch whose ids are all old is dropped whole, and the last id stays.
  pub dedup_old :
      (items : List T) (last : Option ℕ)
      → All (λ x. id x < floor_of last) items
      → dedup id items last ≡ ([], last)
  unfolding dedup
  dedup_old items last h =
      fresh_loop-old id last (sorted id items)
        ((All-sorted id (λ x. id x < floor_of last) items).1 h)

  -- A batch that is delivered again is dropped whole.
  pub dedup_again :
      (items : List T) (last : Option ℕ)
      → dedup id items (dedup id items last).1 ≡ ([], (dedup id items last).1)
  dedup_again items last = dedup_old items (dedup id items last).1 (dedup-IsFresh items last).seen

  -- batch after batch, over the last id that the one before it has left
  unfoldable pub dedup_all : List (List T) → Option ℕ → List T × Option ℕ
  dedup_all [] last = ([], last)
  dedup_all (batch ∷ batches) last =
      let (fresh, next) = dedup id batch last in
      let (more, end) = dedup_all batches next in (fresh ++ more, end)

  Ascending-append :
      (lo mid : ℕ) (xs ys : List T)
      → lo ≤ mid
      → All (λ x. id x < mid) xs
      → Ascending id lo xs
      → Ascending id mid ys
      → Ascending id lo (xs ++ ys)
  Ascending-append lo mid [] ys h b a c = Ascending-weaken id lo mid ys h c
  Ascending-append lo mid (x ∷ xs) ys h b a c =
      (a.0, Ascending-append (id x + 1) mid xs ys (omega (arith, b.0)) b.1 a.1 c)

  -- Over any stream of batches, redelivered ones included, the ids that are let through rise
  -- strictly, so none is let through twice.
  pub dedup_all-Ascending :
      (batches : List (List T)) (last : Option ℕ)
      → Ascending id (floor_of last) (dedup_all batches last).0
  unfolding dedup_all
  dedup_all-Ascending [] last = tt
  dedup_all-Ascending (batch ∷ batches) last =
      let (fresh, next) = dedup id batch last in
      let f = dedup-IsFresh batch last in
      Ascending-append (floor_of last) (floor_of next) fresh (dedup_all batches next).0 f.forward
        (dedup-All (λ x. id x < floor_of next) batch last f.seen) f.ascending
        (dedup_all-Ascending batches next)
