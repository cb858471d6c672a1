-- ===== src/Store/Rows.antt =====
-- Which rows a table holds, in memory and on disk, under the writes of platform/schema.q.
use nano_tick.Base.{
  ℕ, ◌<◌, ◌≡◌, refl, ap, ◌∙◌, sym, List, [], ◌∷◌, ◌++◌, All, arith, append-nil, append_assoc, false,
  true, ◌==◌,
}
use mathlib.Core.Path.{subst}
use nano_tick.Store.{Table, write_part, save_rows, save_table, insert_raw}

module _ {R : Type 0} where
  abbrev pub part_rows : List (ℕ × List R) → List R
  part_rows [] = []
  part_rows ((d, rows) ∷ parts) = rows ++ part_rows parts

  -- all rows of a table, oldest partition first and the RDB last
  abbrev pub all_rows : Table R → List R
  all_rows t = part_rows t.parts ++ t.rdb

  -- no partition is of the date, or of a later one
  abbrev pub AllBefore : ℕ → Table R → Type 0
  AllBefore day t = All (λ p. p.0 < day) t.parts

  part_rows-write_part :
      (day : ℕ) (rows : List R) (parts : List (ℕ × List R))
      → All (λ p. p.0 < day) parts
      → part_rows (write_part day rows parts) ≡ part_rows parts ++ rows
  unfolding write_part
  part_rows-write_part day rows [] h = append-nil rows
  part_rows-write_part day rows ((d, old) ∷ parts) h =
      let other : (d == day) ≡ false = ground arith in
      rw other (
        ap (◌++◌ old) (part_rows-write_part day rows parts h.1)
        ∙ sym (append_assoc old (part_rows parts) rows))

  write_part-before :
      (day later : ℕ) (rows : List R) (parts : List (ℕ × List R))
      → day < later
      → All (λ p. p.0 < day) parts
      → All (λ p. p.0 < later) (write_part day rows parts)
  unfolding write_part
  write_part-before day later rows [] l h = (l, tt)
  write_part-before day later rows ((d, old) ∷ parts) l h =
      let other : (d == day) ≡ false = ground arith in
      rw other (omega (arith, h.0), write_part-before day later rows parts l h.1)

  save_rows-lem :
      (day later : ℕ) (rows : List R) (t : Table R)
      → t.rdb ≡ rows
      → AllBefore day t
      → day < later
      → (all_rows (save_rows day rows t) ≡ all_rows t) × AllBefore later (save_rows day rows t)
  unfolding save_rows
  save_rows-lem day later [] t e h l = (refl, before_later t.parts h)
    where
      before_later :
          (parts : List (ℕ × List R)) → All (λ p. p.0 < day) parts → All (λ p. p.0 < later) parts
      before_later [] h = tt
      before_later (p ∷ parts) h = (omega (arith, h.0), before_later parts h.1)
  save_rows-lem day later (r ∷ rows) t e h l = (
    append-nil _
        ∙ part_rows-write_part day (r ∷ rows) t.parts h
        ∙ ap (◌++◌ (part_rows t.parts)) (sym e),
    write_part-before day later (r ∷ rows) t.parts l h,
  )

  -- To save a day that is not on disk yet loses no row.
  pub save_table-all_rows :
      (day later : ℕ) (t : Table R)
      → AllBefore day t
      → day < later
      → (all_rows (save_table day t) ≡ all_rows t) × AllBefore later (save_table day t)
  unfolding save_table
  save_table-all_rows day later t h l = save_rows-lem day later t.rdb t refl h l

  pub insert_raw-all_rows :
      (rows : List R) (t : Table R) → all_rows (insert_raw rows t).0 ≡ all_rows t ++ rows
  unfolding insert_raw
  insert_raw-all_rows rows t = sym (append_assoc (part_rows t.parts) t.rdb rows)

  pub save_table-rdb : (day : ℕ) (t : Table R) → (save_table day t).rdb ≡ []
  unfolding save_table
  save_table-rdb day t = cleared t.rdb refl
    where
      cleared : (rows : List R) → t.rdb ≡ rows → (save_rows day rows t).rdb ≡ []
      cleared [] e = e
      cleared (r ∷ rows) e = refl

  write_part-twice :
      (day : ℕ) (old new : List R) (parts : List (ℕ × List R))
      → All (λ p. p.0 < day) parts
      → part_rows (write_part day new (write_part day old parts)) ≡ part_rows parts ++ new
  unfolding write_part
  write_part-twice day old new [] h =
      let same : (day == day) ≡ true = ground arith in rw same (append-nil new)
  write_part-twice day old new ((d, rows) ∷ parts) h =
      let other : (d == day) ≡ false = ground arith in
      rw (other, other)
        (ap (◌++◌ rows) (write_part-twice day old new parts h.1)
          ∙ sym (append_assoc rows (part_rows parts) new))

  -- To save a day twice leaves the rows of the second save only.
  pub save_table-twice :
      (day : ℕ) (t : Table R) (x y : R) (xs ys : List R)
      → t.rdb ≡ x ∷ xs
      → AllBefore day t
      → all_rows (save_table day (insert_raw (y ∷ ys) (save_table day t)).0)
        ≡ part_rows t.parts ++ y ∷ ys
  unfolding save_table insert_raw
  save_table-twice day t x y xs ys e h =
      subst
        (λ l.
          all_rows (save_table day (insert_raw (y ∷ ys) (save_rows day l t)).0)
          ≡ part_rows t.parts ++ y ∷ ys)
        (sym e) (append-nil _ ∙ write_part-twice day (x ∷ xs) (y ∷ ys) t.parts h)
