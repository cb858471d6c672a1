-- ===== src/Recorder/Tests.antt =====
-- Runs of the two consumers (tools/receiver.py, resources/recorder.py), and their theorems at
-- concrete messages. A message is its key, its id and its date; a directory is a key.
use nano_tick.Base.{ℕ, ◌+◌, ◌≡◌, refl, false, Option, none, some, List, [], ◌∷◌, ok}
use nano_tick.Base.Int.{ℤ, pos, leb_ℤ}
use nano_tick.Base.Dict.{lookup, insert}
use native.Mathlib.Decide.{ℕ_discrete}
use nano_tick.Recorder.{
  Receiver, Recorder, Disk, on_messages, last_seen, record_message, flush, append_line,
}
use nano_tick.Recorder.Once.{IsOnce, on_messages-IsOnce, redelivery_ignored, well_formed}
use nano_tick.Recorder.Files.{Written, record_message-Written, failed_write_loses}

program : Unit {0}
unfolding on_messages record_message flush append_line lookup insert ℕ_discrete last_seen
program = tt

abbrev Tick : Type 0
Tick = ℕ × ℤ × ℕ

abbrev key : Tick → ℕ
key t = t.0

abbrev id : Tick → ℤ
id t = t.1

abbrev date : Tick → ℕ
date t = t.2

abbrev fresh : Receiver ℕ Tick
fresh = record { last_trade_id = []; received = 0; duplicates = 0; processed = [] }

abbrev stream : List (Option Tick)
stream =
    some (1, pos 0, 5) ∷ none ∷ some (2, pos 7, 5) ∷ some (1, pos 3, 6) ∷ some (1, pos 3, 6) ∷ []

on_messages_test : on_messages ℕ_discrete key id stream fresh ≡ record {
  last_trade_id = (1, pos 3) ∷ (2, pos 7) ∷ [];
  received = 3;
  duplicates = 1;
  processed = (1, pos 0, 5) ∷ (2, pos 7, 5) ∷ (1, pos 3, 6) ∷ [];
}
unfolding program
on_messages_test = refl

fresh-IsOnce : IsOnce ℕ_discrete key id fresh
unfolding program nano_tick.Batch.Groups.of_symbol
fresh-IsOnce k = refl

on_messages-IsOnce_example : IsOnce ℕ_discrete key id (on_messages ℕ_discrete key id stream fresh)
on_messages-IsOnce_example = on_messages-IsOnce ℕ_discrete key id stream fresh fresh-IsOnce

redelivery_ignored_example :
    on_messages ℕ_discrete key id stream (on_messages ℕ_discrete key id stream fresh)
    ≡ record (on_messages ℕ_discrete key id stream fresh) {
      duplicates = (on_messages ℕ_discrete key id stream fresh).duplicates + well_formed stream;
    }
redelivery_ignored_example = redelivery_ignored ℕ_discrete key id stream fresh

-- a file of date 5 is open
abbrev recorder : Recorder ℕ ℕ Tick
recorder = record {
  seen = (1, pos 0) ∷ [];
  open_files = (1, record { date = 5; is_closed = false }) ∷ [];
  disk = ((1, 5), (1, pos 0, 5) ∷ []) ∷ [];
  to_compress = [];
  recorded = 1;
  repeated = 0;
}

abbrev tick : Tick
tick = (1, pos 3, 6)

rollover_test :
    record_message ℕ_discrete ℕ_discrete key id key date Disk.fine (some tick) recorder ≡ (
      record {
        seen = (1, pos 3) ∷ [];
        open_files = (1, record { date = 6; is_closed = false }) ∷ [];
        disk = ((1, 5), (1, pos 0, 5) ∷ []) ∷ ((1, 6), tick ∷ []) ∷ [];
        to_compress = (1, 5) ∷ [];
        recorded = 2;
        repeated = 0;
      },
      ok tt,
    )
unfolding program
rollover_test = refl

is_new : leb_ℤ (pos 3) (last_seen ℕ_discrete 1 recorder.seen) ≡ false
unfolding program
is_new = refl

its_file : lookup ℕ_discrete 1 recorder.open_files ≡ some (record { date = 5; is_closed = false })
unfolding program
its_file = refl

record_message-Written_example :
    (r' : Recorder ℕ ℕ Tick) × (record_message ℕ_discrete ℕ_discrete key id key date Disk.fine
        (some tick)
        recorder
      ≡ (r', ok tt))
    × Written {K = ℕ} ℕ_discrete ℕ_discrete key id key date tick
        (lookup ℕ_discrete 1 recorder.open_files)
        (record recorder { seen = insert ℕ_discrete 1 (pos 3) recorder.seen })
        r'
unfolding lookup ℕ_discrete
record_message-Written_example =
    record_message-Written ℕ_discrete ℕ_discrete key id key date tick recorder is_new refl

failed_write_loses_example :
    (r' : Recorder ℕ ℕ Tick) × (record_message ℕ_discrete ℕ_discrete key id key date
        Disk.cannot_write
        (some tick)
        recorder
      ≡ (r', ok tt))
    × (r'.disk ≡ recorder.disk)
    × (record_message ℕ_discrete ℕ_discrete key id key date Disk.fine (some tick) r'
        ≡ (record r' { repeated = r'.repeated + 1 }, ok tt))
unfolding lookup ℕ_discrete
failed_write_loses_example =
    failed_write_loses ℕ_discrete ℕ_discrete key id key date tick recorder is_new refl
