-- ===== src/Store/Partitions.antt =====
-- The date partitions that resources/backfill.py finds in the directory of the store. An entry of
-- the directory is its name, whether it is a directory, and the tables that it holds.
use nano_tick.Base.{
  ℕ, ◌≡◌, refl, Bool, true, false, ◌&&◌, Option, none, some, List, [], ◌∷◌, map, ltb, if◌then◌else◌,
  Result, ok, raise, Error, All, ap, ◌∙◌, ◌⊎◌, inl, inr, ◌≤◌, Bool-cases, arith, All-map, ◌++◌,
}
use nano_tick.Base.Text.{Text}
use nano_tick.Dates.{Fields, ymd, strptime, date_of, is_date}
use nano_tick.Dates.Print.{print, put_all, defaults, InBounds, strptime-print}
use nano_tick.Data.{is_digit}

pub data TableName : Type 0 where
  trade_table quote_table : TableName

pub record Entry : Type 0 where
  pub name : Text
  pub is_dir : Bool
  pub has_table : TableName → Bool

-- the loop over `hdb_path.iterdir()`; without the directory there is no entry
unfoldable pub add_partition : Bool → Entry → Result Fields → List (ℕ × Entry) → List (ℕ × Entry)
add_partition false e r rest = rest
add_partition true e (ok f) rest = (date_of f, e) ∷ rest
add_partition true e (raise x) rest = rest

unfoldable pub partitions_of : TableName → List Entry → List (ℕ × Entry)
unfolding add_partition
partitions_of table [] = []
partitions_of table (e ∷ entries) =
    add_partition (e.is_dir && e.has_table table) e (strptime (ymd 46) e.name)
      (partitions_of table entries)

-- `_iter_partitions` and `existing_partition_dates`
unfoldable pub iter_partitions : List Entry → List (ℕ × Entry)
unfolding partitions_of
iter_partitions entries = partitions_of TableName.trade_table entries

unfoldable pub existing_partition_dates : List Entry → List ℕ
unfolding iter_partitions
existing_partition_dates entries = map (λ p. p.0) (iter_partitions entries)

-- `max(dates)[1]`; two entries never have one date and one name
abbrev pub later_of : ℕ × Entry → Option (ℕ × Entry) → Option (ℕ × Entry)
later_of p none = some p
later_of p (some q) = if ltb p.0 q.0 then some q else some p

unfoldable pub latest : List (ℕ × Entry) → Option (ℕ × Entry)
latest [] = none
latest (p ∷ ps) = later_of p (latest ps)

abbrev pub entry_of : Option (ℕ × Entry) → Option Entry
entry_of none = none
entry_of (some p) = some p.1

-- `latest_partition_dir`
unfoldable pub latest_partition_dir : TableName → List Entry → Option Entry
unfolding partitions_of latest
latest_partition_dir table entries = entry_of (latest (partitions_of table entries))

-- `latest_partition_col`: the directory, the table and the column of a path
unfoldable pub latest_partition_col :
    {C : Type 0} → TableName → C → List Entry → Option (Entry × TableName × C)
unfolding latest_partition_dir
latest_partition_col table col entries = elim (latest_partition_dir table entries) [
  | none ↦ none
  | some e ↦ some (e, table, col)
]

-- A directory that .Q.dpft made: its name is a date.
abbrev pub IsPartition : Fields → Entry → Type 0
IsPartition f e =
    (e.is_dir ≡ true)
    × (e.name ≡ print (ymd 46) f)
    × InBounds f
    × (is_date (put_all (ymd 46) f defaults) ≡ true)

-- Any other entry, as the sym file: it is no directory, or its name is no date.
abbrev pub IsOther : Entry → Type 0
IsOther e = (e.is_dir ≡ false) ⊎ ((x : Error) × (strptime (ymd 46) e.name ≡ raise x))

-- An entry is a partition of the date that stands with it, or another entry if none does.
abbrev pub IsEntry : Option Fields × Entry → Type 0
IsEntry (some f, e) = IsPartition f e
IsEntry (none, e) = IsOther e

-- the entries of the directory
abbrev pub entries_of : List (Option Fields × Entry) → List Entry
entries_of [] = []
entries_of ((o, e) ∷ l) = e ∷ entries_of l

-- those partitions that hold a table
abbrev pub holding : TableName → List (Option Fields × Entry) → List (ℕ × Entry)
holding table [] = []
holding table ((none, e) ∷ l) = holding table l
holding table ((some f, e) ∷ l) =
    let rest = holding table l in if e.has_table table then (date_of f, e) ∷ rest else rest

add_partition-ok :
    (b : Bool) (e : Entry) (f : Fields) (rest : List (ℕ × Entry))
    → add_partition b e (ok f) rest ≡ (if b then (date_of f, e) ∷ rest else rest)
unfolding add_partition
add_partition-ok true e f rest = refl
add_partition-ok false e f rest = refl

add_partition-raise :
    (b : Bool) (e : Entry) (x : Error) (rest : List (ℕ × Entry))
    → add_partition b e (raise x) rest ≡ rest
unfolding add_partition
add_partition-raise true e x rest = refl
add_partition-raise false e x rest = refl

-- The partitions that are found for a table are exactly the directories that are named by a date and
-- hold it, each with that date.
pub partitions_of-holding :
    (table : TableName) (l : List (Option Fields × Entry))
    → All IsEntry l
    → partitions_of table (entries_of l) ≡ holding table l
unfolding partitions_of is_digit
partitions_of-holding table [] h = refl
partitions_of-holding table ((some f, e) ∷ l) h =
    let (dir, name, bounds, valid) = h.0 in
    let read =
      ap (strptime (ymd 46)) name
      ∙ strptime-print (ymd 46) f (tt, refl, (tt, refl, tt)) bounds valid in
    let rest = holding table l in
    let has = e.has_table table in
    ap
      (λ b.
        add_partition (b && has) e (strptime (ymd 46) e.name) (partitions_of table (entries_of l)))
      dir
    ∙ ap (λ r. add_partition has e r (partitions_of table (entries_of l))) read
    ∙ ap (add_partition has e (ok (put_all (ymd 46) f defaults)))
        (partitions_of-holding table l h.1)
    ∙ add_partition-ok has e (put_all (ymd 46) f defaults) rest
partitions_of-holding table ((none, e) ∷ l) h =
    let found = partitions_of table (entries_of l) in
    let has = e.has_table table in
    elim h.0 [
      | inl file ↦ ap (λ b. add_partition (b && has) e (strptime (ymd 46) e.name) found) file
      | inr (x, unread) ↦
          ap (λ r. add_partition (e.is_dir && has) e r found) unread
          ∙ add_partition-raise (e.is_dir && has) e x found
    ]
    ∙ partitions_of-holding table l h.1

-- the last of the found directories is one of them, and none is later
abbrev pub IsNewest : List (ℕ × Entry) → ℕ × Entry → Type 0
IsNewest ps p =
    (before : List (ℕ × Entry)) × (after : List (ℕ × Entry)) × (ps ≡ before ++ p ∷ after)
    × All (λ q. q.0 ≤ p.0) ps

latest-IsNewest :
    (ps : List (ℕ × Entry))
    → ((ps ≡ []) × (latest ps ≡ none)) ⊎ ((p : ℕ × Entry) × (latest ps ≡ some p) × IsNewest ps p)
unfolding latest
latest-IsNewest [] = inl (refl, refl)
latest-IsNewest (p ∷ ps) = elim (latest-IsNewest ps) [
  | inl (empty, found) ↦ inr (p, rw found refl, ([], ps, refl, (omega arith, rw empty tt)))
  | inr (q, found, (before, after, split, below)) ↦ elim (Bool-cases (ltb p.0 q.0)) [
    | inl lt ↦
        inr (q, rw (found, lt) refl, (p ∷ before, after, ap (◌∷◌ p) split, (ground arith, below)))
    | inr ge ↦ inr (
      p,
      rw (found, ge) refl,
      (
        [],
        ps,
        refl,
        (omega arith, All-map (λ r. r.0 ≤ q.0) (λ r. r.0 ≤ p.0) (λ r h. ground arith) ps below),
      ),
    )
  ]
]

-- Whatever else stands in the directory of the store, as files or with names that are no dates, no
-- directory is found for a table exactly if no directory named by a date holds it; and otherwise
-- the one that is found is named by a date and holds it, and no other such directory has a later date.
pub latest_partition_dir-IsNewest :
    (table : TableName) (l : List (Option Fields × Entry))
    → All IsEntry l
    → ((holding table l ≡ []) × (latest_partition_dir table (entries_of l) ≡ none))
      ⊎ ((p : ℕ × Entry) × (latest_partition_dir table (entries_of l) ≡ some p.1)
          × IsNewest (holding table l) p)
unfolding latest_partition_dir
latest_partition_dir-IsNewest table l h =
    let same = ap latest (partitions_of-holding table l h) in
    elim (latest-IsNewest (holding table l)) [
      | inl (empty, found) ↦ inl (empty, ap entry_of (same ∙ found))
      | inr (p, found, newest) ↦ inr (p, ap entry_of (same ∙ found), newest)
    ]
