-- ===== src/Bridge/Gapless.antt =====
-- `bridge` of resources/backfill.py against an API that serves an ascending archive page by page.
use nano_tick.Base.{
  map-append, ℕ, zero, suc, ◌+◌, ◌≤◌, ◌<◌, ◌≡◌, refl, ap, sym, ◌∙◌, Option, some, List, [], ◌∷◌,
  ◌++◌, length, length-append, map, take, drop, ltb, arith, tests, Bool-cases, inl, inr, Result, ok,
  append-nil, append_assoc,
}
use mathlib.Core.Path.{subst}
use nano_tick.Store.{Table, insert_raw}
use nano_tick.Bridge.{
  Out, below_target, keep_below, last_id, insert_page, after_fetch, bridge_loop, finish, bridge,
}
use nano_tick.Bridge.Pages.{
  Ascending, from_start, from_start-Ascending, from_start-twice, keep_below-none, short_page,
  full_page, keep_below-append, after_page, last_id-ge,
}

take-append-drop : {A : Type 0} (n : ℕ) (l : List A) → take n l ++ drop n l ≡ l
take-append-drop zero l = refl
take-append-drop (suc n) [] = refl
take-append-drop (suc n) (x ∷ l) = ap (◌∷◌ x) (take-append-drop n l)

length-drop-le : {A : Type 0} (n : ℕ) (l : List A) → length (drop n l) ≤ length l
length-drop-le zero l = omega arith
length-drop-le (suc n) [] = omega arith
length-drop-le (suc n) (x ∷ l) = omega (arith, length-drop-le n l)

length-map-lem : {A B : Type 0} (f : A → B) (xs : List A) → length (map f xs) ≡ length xs
length-map-lem f [] = refl
length-map-lem f (x ∷ xs) = ap suc (length-map-lem f xs)

-- the table with more trades, and the count of them
abbrev pub with_trades : {T R : Type 0} → (T → R) → List T → Table R → Table R
with_trades row ts table = record table { rdb = table.rdb ++ map row ts }

module _ {T R : Type 0} (id : T → ℕ) (row : T → R) (fetch : ℕ → ℕ → Result (List T)) (p : ℕ)
    (archive : List T) (ascending : Ascending id 0 archive)
    (serves : (s : ℕ) → fetch s (suc p) ≡ ok (take (suc p) (from_start id s archive))) where
  -- the trades that are to be bridged
  abbrev pub wanted : Option ℕ → ℕ → List T
  wanted target start = keep_below id target (from_start id start archive)

  -- how the loop is to end
  abbrev Done : Option ℕ → ℕ → ℕ → Table R → Out R
  Done target start inserted table =
      let l = wanted target start in some (ok (with_trades row l table, inserted + length l))

  abbrev Bridges : ℕ → Option ℕ → ℕ → ℕ → Table R → Type 0
  Bridges fuel target start inserted table =
      bridge_loop id row fetch (suc p) fuel target start inserted table
      ≡ Done target start inserted table

  done_none :
      (target : Option ℕ) (start inserted : ℕ) (table : Table R)
      → wanted target start ≡ []
      → ◌≡◌ {A = Out R} (some (ok (table, inserted))) (Done target start inserted table)
  done_none target start inserted table e =
      let rows = append-nil table.rdb in
      let count : inserted + 0 ≡ inserted = omega arith in
      subst
        (λ l.
          ◌≡◌ {A = Out R} (some (ok (table, inserted)))
            (some (ok (with_trades row l table, inserted + length l))))
        (sym e) (rw (count, rows))

  done_more :
      (target : Option ℕ) (start next inserted n : ℕ) (table : Table R) (xs : List T)
      → n ≡ length xs
      → wanted target start ≡ xs ++ wanted target next
      → Done target next (inserted + n) (with_trades row xs table)
        ≡ Done target start inserted table
  done_more target start next inserted n table xs size e =
      let ys = wanted target next in
      let count : inserted + length (xs ++ ys) ≡ inserted + n + length ys =
        omega (arith, length-append xs ys) in
      subst
        (λ l.
          Done target next (inserted + n) (with_trades row xs table)
          ≡ some (ok (with_trades row l table, inserted + length l)))
        (sym e) (rw (count, map-append, append_assoc))

  next_start :
      (start : ℕ) (t : T) (ts : List T)
      → from_start id start archive ≡ t ∷ ts
      → from_start id (last_id id t (take p ts) + 1) archive ≡ drop p ts
  next_start start t ts e =
      let last = last_id id t (take p ts) in
      let up : Ascending id start (t ∷ ts) =
        subst (λ l. Ascending id start l) e (from_start-Ascending id start 0 archive ascending) in
      sym (
        from_start-twice id start (last + 1) archive
          (omega (arith, up.0, last_id-ge id p t ts up.1)))
      ∙ ap (from_start id (last + 1)) e
      ∙ after_page id p t ts up.1

  wanted_next :
      (target : Option ℕ) (start : ℕ) (t : T) (ts : List T)
      → from_start id start archive ≡ t ∷ ts
      → keep_below id target (t ∷ take p ts) ≡ t ∷ take p ts
      → wanted target start ≡ (t ∷ take p ts) ++ wanted target (last_id id t (take p ts) + 1)
  wanted_next target start t ts e kept =
      ap (keep_below id target) (e ∙ sym (take-append-drop (suc p) (t ∷ ts)))
      ∙ keep_below-append id target (t ∷ take p ts) (drop p ts)
      ∙ ap (λ l. l ++ keep_below id target (drop p ts)) kept
      ∙ ap (λ l. (t ∷ take p ts) ++ keep_below id target l) (sym (next_start start t ts e))

  -- a short page has all that is wanted
  kept_whole :
      (start : ℕ) (t : T) (ts kept : List T) (target : Option ℕ)
      → from_start id start archive ≡ t ∷ ts
      → keep_below id target (t ∷ take p ts) ≡ kept
      → length kept < suc p
      → keep_below id target (t ∷ ts) ≡ kept
  kept_whole start t ts kept target e k h =
      let up : Ascending id start (t ∷ ts) =
        subst (λ l. Ascending id start l) e (from_start-Ascending id start 0 archive ascending) in
      sym (short_page id target (suc p) start (t ∷ ts) up (omega (arith, ap length k))) ∙ k

  -- after a full page, what is wanted from the next start, and that less is left
  abbrev NextOf : Option ℕ → ℕ → ℕ → List T → Type 0
  NextOf target start left [] = Unit
  NextOf target start left (x ∷ xs) =
      let next = last_id id x xs + 1 in
      (wanted target start ≡ (x ∷ xs) ++ wanted target next)
      × (length (from_start id next archive) ≤ left)

  full_next :
      (start : ℕ) (t : T) (ts kept : List T) (target : Option ℕ)
      → from_start id start archive ≡ t ∷ ts
      → keep_below id target (t ∷ take p ts) ≡ kept
      → suc p ≤ length kept
      → NextOf target start (length ts) kept
  full_next start t ts kept target e k h =
      let whole = full_page id target (suc p) (t ∷ ts) (omega (arith, ap length k)) in
      subst (NextOf target start (length ts)) (sym whole ∙ k) (
        wanted_next target start t ts e whole,
        omega (arith, ap length (next_start start t ts e), length-drop-le p ts),
      )

  module _ (fuel : ℕ) (target : Option ℕ)
      (ih : (start inserted : ℕ) (table : Table R)
        → length (from_start id start archive) < fuel
        → Bridges fuel target start inserted table) where
    page_inserted :
        (start inserted : ℕ) (table : Table R) (t : T) (ts kept : List T)
        → from_start id start archive ≡ t ∷ ts
        → length (t ∷ ts) ≤ fuel
        → keep_below id target (t ∷ take p ts) ≡ kept
        → insert_page id row fetch
            (suc p)
            (bridge_loop id row fetch (suc p) fuel target)
            kept
            inserted
            table
          ≡ Done target start inserted table
    unfolding insert_page insert_raw
    page_inserted start inserted table t ts [] e f k =
        done_none target start inserted table (ap (keep_below id target) e ∙ all_kept)
      where
        all_kept : keep_below id target (t ∷ ts) ≡ []
        all_kept = kept_whole start t ts [] target e k (omega arith)
    page_inserted start inserted table t ts (x ∷ xs) e f k =
        elim (Bool-cases (ltb (length (x ∷ xs)) (suc p))) [
          | inl short ↦
              let whole =
                ap (keep_below id target) e
                ∙ kept_whole start t ts (x ∷ xs) target e k (omega tests) in
              rw (short, length-map-lem)
                (subst
                  (λ l.
                    ◌≡◌ {A = Out R}
                      (some (ok (with_trades row (x ∷ xs) table, inserted + suc (length xs))))
                      (some (ok (with_trades row l table, inserted + length l))))
                  (sym whole) refl)
          | inr full ↦
              let (next, fewer) = full_next start t ts (x ∷ xs) target e k (omega tests) in
              let n = suc (length (map row xs)) in
              rw full (
                ih (last_id id x xs + 1) (inserted + n) (with_trades row (x ∷ xs) table)
                  (omega arith)
                ∙ done_more target start (last_id id x xs + 1) inserted n table (x ∷ xs)
                    (ap suc (length-map-lem row xs)) next)
        ]

    fetched :
        (start inserted : ℕ) (table : Table R) (l : List T)
        → from_start id start archive ≡ l
        → length l ≤ fuel
        → after_fetch id row fetch
            (suc p)
            (bridge_loop id row fetch (suc p) fuel target)
            target
            (ok (take (suc p) l))
            inserted
            table
          ≡ Done target start inserted table
    unfolding after_fetch keep_below
    fetched start inserted table [] e f =
        done_none target start inserted table (ap (keep_below id target) e)
    fetched start inserted table (t ∷ ts) e f =
        page_inserted start inserted table t ts (keep_below id target (t ∷ take p ts)) e f refl

  -- The loop ends, and has inserted what is wanted from its start.
  bridge_loop-Done :
      (fuel : ℕ) (target : Option ℕ) (start inserted : ℕ) (table : Table R)
      → length (from_start id start archive) < fuel
      → Bridges fuel target start inserted table
  unfolding bridge_loop after_fetch
  bridge_loop-Done zero target start inserted table f = absurd (omega arith)
  bridge_loop-Done (suc fuel) target start inserted table f =
      elim (Bool-cases (below_target target start)) [
        | inl e ↦
            rw (e, serves)
              (fetched fuel target (bridge_loop-Done fuel target) start inserted table
                (from_start id start archive) refl (omega arith))
        | inr e ↦ rw e (
            done_none target start inserted table (
              keep_below-none id target start (from_start id start archive) e
                (from_start-Ascending id start 0 archive ascending)))
      ]

  -- Against an API that serves, for each start, the first page of the archive's trades from there on,
  -- the bridge ends if it has fuel for one round more than the trades that are left, and has then
  -- inserted every trade of the archive with an id above the stored one and below the target (or
  -- without a bound, if there is no target), each once and in order. It reports their number and the
  -- first id that it asked for.
  pub bridge-gapless :
      (fuel : ℕ) (target : Option ℕ) (floor : ℕ) (table : Table R)
      → length (from_start id (floor + 1) archive) < fuel
      → bridge id row fetch (suc p) fuel target (some floor) table
        ≡ some (
            ok (record {
              table = with_trades row (wanted target (floor + 1)) table;
              inserted = length (wanted target (floor + 1));
              from_id = some (floor + 1);
            }))
  unfolding bridge finish
  bridge-gapless fuel target floor table f =
      let zero_add : 0 + length (wanted target (floor + 1)) ≡ length (wanted target (floor + 1)) =
        omega arith in
      rw (bridge_loop-Done fuel target (floor + 1) 0 table f, zero_add)
