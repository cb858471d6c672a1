-- ===== src/Recorder/Files.antt =====
-- The files of resources/recorder.py: where a message is written, and what a failing disk leaves.
use nano_tick.Base.{
  eqb→eq, ℕ, ◌+◌, ◌≡◌, refl, sym, ◌∙◌, ap, true, false, Option, none, some, List, [], ◌∷◌, ◌++◌,
  append-nil, ◌==◌, le→leb, Bool-cases, inl, inr, arith, if◌then◌else◌, ok, raise, Error,
}
use nano_tick.Base.Int.{ℤ, leb_ℤ}
use nano_tick.Base.Dict.{lookup, insert, lookup-insert_self}
use mathlib.Core.Path.{ap₂}
use mathlib.Core.Logic.{ite, if_pos, if_neg}
use nano_tick.Recorder.Once.{last_seen_self}
use nano_tick.Recorder.{
  Disk, Handle, Recorder, last_seen, append_line, flush, open_file, close_file, file_from, file_for,
  write, record_tick, counted, record_message,
}

module _ {F T : Type 0} (dec : Discrete F) where
  -- the lines of a file
  unfoldable pub lines_of : F → ℕ → List ((F × ℕ) × List T) → List T
  lines_of f date [] = []
  lines_of f date (((g, day), lines) ∷ disk) =
      ite (dec g f) (if day == date then lines else lines_of f date disk) (lines_of f date disk)

  -- the line, in its own file only
  unfoldable pub only_in : F → ℕ → F → ℕ → T → List T
  only_in f date g day line = ite (dec f g) (if date == day then line ∷ [] else []) []

  append_line-lines_of :
      (f g : F) (date day : ℕ) (line : T) (disk : List ((F × ℕ) × List T))
      → lines_of g day (append_line dec f date line disk)
        ≡ lines_of g day disk ++ only_in f date g day line
  unfolding lines_of append_line only_in
  append_line-lines_of f g date day line [] = refl
  append_line-lines_of f g date day line (((e, d), lines) ∷ disk) = ground (
    arith,
    append_line-lines_of f g date day line disk,
    append-nil lines,
    append-nil (lines_of g day disk),
  )

flush-closed :
    {F : Type 0} (dec : Discrete F) (f : F) (h : Handle) (files : List (F × Handle))
    → h.is_closed ≡ true
    → flush (insert dec f h files) ≡ raise Error.value_error
unfolding flush insert
flush-closed dec f h [] e = rw e refl
flush-closed dec f h ((g, h') ∷ files) e = elim (dec g f) [
  | yes same ↦ rw (if_pos (dec g f) same ((g, h) ∷ files) ((g, h') ∷ insert dec f h files), e) refl
  | no other ↦
      rw (if_neg (dec g f) other ((g, h) ∷ files) ((g, h') ∷ insert dec f h files))
        (elim (Bool-cases h'.is_closed) [
          | inl c ↦ rw c refl
          | inr c ↦ rw c (flush-closed dec f h files e)
        ])
]

module _ {K F T : Type 0} (dec_k : Discrete K) (dec : Discrete F) (key : T → K) (id : T → ℤ)
    (directory : T → F) (date : T → ℕ) where
  -- The message is above the last trade id of its key.
  abbrev pub IsFresh : T → Recorder K F T → Type 0
  IsFresh t r = leb_ℤ (id t) (last_seen dec_k (key t) r.seen) ≡ false

  -- The file of the message, if one is open, has not been closed by a rollover that failed.
  abbrev pub IsOpen : Option Handle → Type 0
  IsOpen none = Unit
  IsOpen (some h) = h.is_closed ≡ false

  -- the file that a message of a date rolls over
  abbrev pub rolled : F → ℕ → Option Handle → List (F × ℕ)
  rolled f day none = []
  rolled f day (some h) = if h.date == day then [] else (f, h.date) ∷ []

  abbrev pub opened : ℕ → Handle
  opened day = record { date = day; is_closed = false }

  -- The message stands behind the other lines of its file, which is open, and the file of another
  -- date that it replaces is compressed.
  abbrev pub Written : T → Option Handle → Recorder K F T → Recorder K F T → Type 0
  Written t o r r' =
      (lookup dec (directory t) r'.open_files ≡ some (opened (date t)))
      × ((f : F) (day : ℕ)
          → lines_of dec f day r'.disk
            ≡ lines_of dec f day r.disk ++ only_in dec (directory t) (date t) f day t)
      × (r'.to_compress ≡ r.to_compress ++ rolled (directory t) (date t) o)
      × (r'.recorded ≡ r.recorded + 1)
      × (r'.repeated ≡ r.repeated)
      × (r'.seen ≡ r.seen)

  write-Written :
      (t : T) (o : Option Handle) (r : Recorder K F T)
      → lookup dec (directory t) r.open_files ≡ o
      → IsOpen o
      → (r' : Recorder K F T) × (counted dec_k dec key id directory date (
            write dec Disk.fine
              (directory t)
              t
              (file_from dec Disk.fine (directory t) (date t) o r))
          ≡ (r', ok tt))
        × Written t o r r'
  unfolding write file_from counted open_file close_file
  write-Written t none r e is_open = (
    record r {
      open_files = insert dec (directory t) (opened (date t)) r.open_files;
      disk = append_line dec (directory t) (date t) t r.disk;
      recorded = r.recorded + 1;
    },
    refl,
    (
      lookup-insert_self dec (directory t) (opened (date t)) r.open_files,
      λ f day. append_line-lines_of dec (directory t) f (date t) day t r.disk,
      sym (append-nil r.to_compress),
      refl,
      refl,
      refl,
    ),
  )
  write-Written t (some h) r e is_open = elim (Bool-cases (h.date == date t)) [
    | inl same ↦
        let at_date : h.date ≡ date t = eqb→eq h.date (date t) same in
        let whole : h ≡ opened (date t) =
          ap₂ (λ d c. record { date = d; is_closed = c }) at_date is_open in
        rw (same, is_open)
          (
            record r {
              disk = append_line dec (directory t) h.date t r.disk;
              recorded = r.recorded + 1;
            },
            refl,
            (
              e ∙ ap some whole,
              λ f day.
                  append_line-lines_of dec (directory t) f h.date day t r.disk
                  ∙ ap (λ d. lines_of dec f day r.disk ++ only_in dec (directory t) d f day t)
                      at_date,
              sym (append-nil r.to_compress),
              refl,
              refl,
              refl,
            ),
          )
    | inr other ↦ rw other (
      record r {
        open_files =
            insert dec (directory t) (opened (date t))
              (insert dec (directory t) (record h { is_closed = true }) r.open_files);
        disk = append_line dec (directory t) (date t) t r.disk;
        to_compress = r.to_compress ++ (directory t, h.date) ∷ [];
        recorded = r.recorded + 1;
      },
      refl,
      (
        lookup-insert_self dec (directory t) (opened (date t)) _,
        λ f day. append_line-lines_of dec (directory t) f (date t) day t r.disk,
        refl,
        refl,
        refl,
        refl,
      ),
    )
  ]

  -- While the disk is fine and the file of a new message has not been closed by a failed rollover,
  -- the message is written behind the other lines of its file and to no other file, its date is
  -- open, the file of another date that it replaces is compressed, and its id is the last of its key.
  pub record_message-Written :
      (t : T) (r : Recorder K F T)
      → IsFresh t r
      → IsOpen (lookup dec (directory t) r.open_files)
      → (r' : Recorder K F T) × (record_message dec_k dec key id directory date Disk.fine (some t) r
          ≡ (r', ok tt))
        × Written t
            (lookup dec (directory t) r.open_files)
            (record r { seen = insert dec_k (key t) (id t) r.seen })
            r'
  unfolding record_message record_tick file_for
  record_message-Written t r fresh is_open = rw fresh (
      write-Written t (lookup dec (directory t) r.open_files)
        (record r { seen = insert dec_k (key t) (id t) r.seen }) refl is_open)

  write-fails :
      (t : T) (o : Option Handle) (r : Recorder K F T)
      → IsOpen o
      → (r' : Recorder K F T) × (counted dec_k dec key id directory date (
            write dec Disk.cannot_write
              (directory t)
              t
              (file_from dec Disk.cannot_write (directory t) (date t) o r))
          ≡ (r', ok tt))
        × (r'.disk ≡ r.disk)
        × (r'.seen ≡ r.seen)
  unfolding write file_from counted open_file close_file
  write-fails t none r is_open = (_, refl, refl, refl)
  write-fails t (some h) r is_open = elim (Bool-cases (h.date == date t)) [
    | inl same ↦ rw (same, is_open) (_, refl, refl, refl)
    | inr other ↦ rw other (_, refl, refl, refl)
  ]

  known :
      (t : T) (r r' : Recorder K F T)
      → r'.seen ≡ insert dec_k (key t) (id t) r.seen
      → leb_ℤ (id t) (last_seen dec_k (key t) r'.seen) ≡ true
  known t r r' e = rw (e, last_seen_self dec_k (key t) (id t) r.seen) (le→leb _ _ (omega arith))

  -- When a new message cannot be written, to a file that no failed rollover has closed, the error
  -- is caught and no file changes; but its id is kept as the last of its key. So a second delivery
  -- of the message is dropped as a duplicate, though the disk is fine again.
  pub failed_write_loses :
      (t : T) (r : Recorder K F T)
      → IsFresh t r
      → IsOpen (lookup dec (directory t) r.open_files)
      → let send = record_message dec_k dec key id directory date in
        (r' : Recorder K F T) × (send Disk.cannot_write (some t) r ≡ (r', ok tt))
        × (r'.disk ≡ r.disk)
        × (send Disk.fine (some t) r' ≡ (record r' { repeated = r'.repeated + 1 }, ok tt))
  unfolding record_message record_tick file_for
  failed_write_loses t r fresh is_open =
      let (r', run, same_disk, same_seen) =
        write-fails t (lookup dec (directory t) r.open_files)
          (record r { seen = insert dec_k (key t) (id t) r.seen }) is_open in
      (r', rw fresh run, same_disk, rw (known t r r' same_seen) refl)

  -- When the open file of a new message has another date and the file of its date cannot be opened,
  -- the error is caught, the closed file of the old date stays among the open ones, and the next
  -- flush raises a ValueError.
  pub failed_rollover_flush :
      (t : T) (h : Handle) (r : Recorder K F T)
      → IsFresh t r
      → lookup dec (directory t) r.open_files ≡ some h
      → (h.date == date t) ≡ false
      → let (r', done) =
          record_message dec_k dec key id directory date Disk.cannot_open (some t) r in
        (done ≡ ok tt) × (flush r'.open_files ≡ raise Error.value_error)
  unfolding record_message record_tick file_for file_from open_file close_file write counted
  failed_rollover_flush t h r fresh e other =
      rw (fresh, e, other)
        (refl, flush-closed dec (directory t) (record h { is_closed = true }) r.open_files refl)
