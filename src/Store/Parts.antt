-- ===== src/Store/Parts.antt =====
-- The partitions of a table by date, under the writes of platform/schema.q.
use nano_tick.Base.{
  ℕ, ◌≡◌, refl, true, false, Option, none, some, List, [], ◌∷◌, ◌==◌, if◌then◌else◌, arith,
  Bool-cases, inl, inr,
}
use mathlib.Core.Path.{subst}
use nano_tick.Store.{Table, write_part, save_rows}

-- the rows of a date
abbrev pub part_of : {A : Type 0} → ℕ → List (ℕ × A) → Option A
part_of day [] = none
part_of day ((d, rows) ∷ parts) = if d == day then some rows else part_of day parts

pub part_of-write_part :
    {R : Type 0} (d day : ℕ) (rows : List R) (parts : List (ℕ × List R))
    → part_of d (write_part day rows parts) ≡ (if day == d then some rows else part_of d parts)
unfolding write_part
part_of-write_part d day rows [] = refl
part_of-write_part d day rows ((e, old) ∷ parts) = elim (Bool-cases (e == day)) [
  | inl same ↦
      let at_day : e ≡ day = ground arith in
      subst
        (λ i.
          part_of d (write_part i rows ((e, old) ∷ parts))
          ≡ (if i == d then some rows else part_of d ((e, old) ∷ parts)))
        at_day
        (let here : (e == e) ≡ true = ground arith in
          rw here (elim (Bool-cases (e == d)) [ inl t ↦ rw t refl | inr f ↦ rw f refl ]))
  | inr other ↦ elim (Bool-cases (e == d)) [
    | inl t ↦ let apart : (day == d) ≡ false = ground arith in rw (other, t, apart) refl
    | inr f ↦ rw (other, f) (part_of-write_part d day rows parts)
  ]
]

-- The rows of a date replace what stood there, if there are any.
abbrev pub laid : {A : Type 0} → List A → Option (List A) → Option (List A)
laid [] before = before
laid (r ∷ rows) before = some (r ∷ rows)

pub save_rows-part_of :
    {R : Type 0} (d day : ℕ) (rows : List R) (t : Table R)
    → part_of d (save_rows day rows t).parts
      ≡ (if day == d then laid rows (part_of d t.parts) else part_of d t.parts)
unfolding save_rows
save_rows-part_of d day [] t = elim (Bool-cases (day == d)) [
  | inl e ↦ rw e refl
  | inr e ↦ rw e refl
]
save_rows-part_of d day (r ∷ rows) t = part_of-write_part d day (r ∷ rows) t.parts
