-- ===== src/Recorder.antt =====
-- The two consumers that drop duplicates on the way: `Receiver` (tools/receiver.py) and `Recorder`
-- (resources/recorder.py). A message shows its key `K`, which is its venue and symbol; its trade id,
-- a Python integer; its UTC date, from its trade time; and the key `F` of its file's directory, where
-- the symbol is in lower case. The disk keeps the lines of each file by directory and date.
pub mod Once
pub mod Files
mod Tests
use nano_tick.Base.{
  ℕ, suc, ◌+◌, Bool, true, false, Option, none, some, List, [], ◌∷◌, ◌++◌, ◌==◌, if◌then◌else◌,
  Result, ok, raise, Error,
}
use nano_tick.Base.Int.{ℤ, pos, negsuc, leb_ℤ}
use nano_tick.Base.Dict.{lookup, insert}
use mathlib.Core.Logic.{ite}

-- `d.get(key, -1)`
abbrev pub or_minus_one : Option ℤ → ℤ
or_minus_one none = negsuc 0
or_minus_one (some n) = n

-- what `Receiver` keeps; `processed` is what it has given to `process`, oldest first
pub record Receiver (K T : Type 0) : Type 0 where
  pub last_trade_id : List (K × ℤ)
  pub received : ℕ
  pub duplicates : ℕ
  pub processed : List T

unfoldable pub last_seen : {K : Type 0} → Discrete K → K → List (K × ℤ) → ℤ
unfolding lookup
last_seen dec k d = or_minus_one (lookup dec k d)

module _ {K T : Type 0} (dec : Discrete K) (key : T → K) (id : T → ℤ) where
  -- `Receiver.on_message`: `none` is a message that one of the caught exceptions rejects
  unfoldable pub on_message : Option T → Receiver K T → Receiver K T
  unfolding last_seen insert
  on_message none r = r
  on_message (some tick) r =
      if leb_ℤ (id tick) (last_seen dec (key tick) r.last_trade_id)
      then record r { duplicates = r.duplicates + 1 }
      else record r {
        last_trade_id = insert dec (key tick) (id tick) r.last_trade_id;
        received = r.received + 1;
        processed = r.processed ++ tick ∷ [];
      }

  unfoldable pub on_messages : List (Option T) → Receiver K T → Receiver K T
  unfolding on_message
  on_messages [] r = r
  on_messages (m ∷ ms) r = on_messages ms (on_message m r)

-- What the operating system does with a write: all goes well, the file cannot be opened, or it
-- cannot be written.
pub data Disk : Type 0 where
  fine cannot_open cannot_write : Disk

-- what a method without a result ends with
abbrev pub Done : Type 0
Done = Result (Unit {0})

-- An open file of the recorder. A closed one stays in the dictionary when its successor cannot be opened.
pub record Handle : Type 0 where
  pub date : ℕ
  pub is_closed : Bool

-- The state of `Recorder`: `disk` holds the lines of each file as they are after a flush, and
-- `to_compress` the files that were closed and given to `gzip_file`.
pub record Recorder (K F T : Type 0) : Type 0 where
  pub seen : List (K × ℤ)
  pub open_files : List (F × Handle)
  pub disk : List ((F × ℕ) × List T)
  pub to_compress : List (F × ℕ)
  pub recorded : ℕ
  pub repeated : ℕ

-- `flush`, which raises on a file that is closed
unfoldable pub flush : {F : Type 0} → List (F × Handle) → Done
flush [] = ok tt
flush ((f, h) ∷ files) = if h.is_closed then raise Error.value_error else flush files

module _ {F T : Type 0} (dec : Discrete F) where
  -- a line goes behind the others of its file
  unfoldable pub append_line : F → ℕ → T → List ((F × ℕ) × List T) → List ((F × ℕ) × List T)
  append_line f date line [] = ((f, date), line ∷ []) ∷ []
  append_line f date line (((g, day), lines) ∷ disk) =
      let rest = append_line f date line disk in
      ite (dec g f)
        (if day == date then ((g, day), lines ++ line ∷ []) ∷ disk else ((g, day), lines) ∷ rest)
        (((g, day), lines) ∷ rest)

module _ {K F T : Type 0} (dec : Discrete F) where
  -- the end of `_file_for`: make the directory and open the file
  unfoldable pub open_file : Disk → F → ℕ → Recorder K F T → Recorder K F T × Result Handle
  unfolding insert
  open_file Disk.cannot_open f date r = (r, raise Error.os_error)
  open_file Disk.fine f date r =
      let h : Handle = record { date = date; is_closed = false } in
      (record r { open_files = insert dec f h r.open_files }, ok h)
  open_file Disk.cannot_write f date r =
      let h : Handle = record { date = date; is_closed = false } in
      (record r { open_files = insert dec f h r.open_files }, ok h)

  -- the rollover of `_file_for`: the old file is closed and compressed
  unfoldable pub close_file : F → Handle → Recorder K F T → Recorder K F T
  unfolding insert
  close_file f h r = record r {
    open_files = insert dec f (record h { is_closed = true }) r.open_files;
    to_compress = r.to_compress ++ (f, h.date) ∷ [];
  }

  unfoldable pub file_from :
      Disk → F → ℕ → Option Handle → Recorder K F T → Recorder K F T × Result Handle
  unfolding open_file close_file
  file_from disk f date none r = open_file disk f date r
  file_from disk f date (some h) r =
      if h.date == date then (r, ok h) else open_file disk f date (close_file f h r)

  -- `_file_for`
  unfoldable pub file_for : Disk → F → ℕ → Recorder K F T → Recorder K F T × Result Handle
  unfolding file_from lookup
  file_for disk f date r = file_from disk f date (lookup dec f r.open_files) r

  -- `handle.write`
  unfoldable pub write : Disk → F → T → Recorder K F T × Result Handle → Recorder K F T × Done
  unfolding append_line
  write disk f tick (r, raise e) = (r, raise e)
  write disk f tick (r, ok h) = if h.is_closed then (r, raise Error.value_error) else elim disk [
    | Disk.cannot_write ↦ (r, raise Error.os_error)
    | _ ↦ (record r { disk = append_line dec f h.date tick r.disk }, ok tt)
  ]

module _ {K F T : Type 0} (dec_k : Discrete K) (dec : Discrete F) (key : T → K) (id : T → ℤ)
    (directory : T → F) (date : T → ℕ) where
  -- `record`
  unfoldable pub record_tick : Disk → T → Recorder K F T → Recorder K F T × Done
  unfolding file_for write
  record_tick disk tick r =
      write dec disk (directory tick) tick (file_for dec disk (directory tick) (date tick) r)

  -- the end of `Recorder.on_message`: an `OSError` is caught there
  unfoldable pub counted : Recorder K F T × Done → Recorder K F T × Done
  counted (r, ok u) = (record r { recorded = r.recorded + 1 }, ok tt)
  counted (r, raise Error.os_error) = (r, ok tt)
  counted (r, raise e) = (r, raise e)

  -- `Recorder.on_message`
  unfoldable pub record_message : Disk → Option T → Recorder K F T → Recorder K F T × Done
  unfolding last_seen insert record_tick counted
  record_message disk none r = (r, ok tt)
  record_message disk (some tick) r =
      if leb_ℤ (id tick) (last_seen dec_k (key tick) r.seen)
      then (record r { repeated = r.repeated + 1 }, ok tt)
      else counted
          (record_tick disk tick (record r { seen = insert dec_k (key tick) (id tick) r.seen }))
