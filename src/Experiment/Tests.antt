-- ===== src/Experiment/Tests.antt =====
-- Runs of resources/experiment.py, and its theorems at concrete inputs.
use nano_tick.Base.{
  ℕ, ◌≡◌, refl, List, [], ◌∷◌, Result, ok, raise, Error, ◌==◌, if◌then◌else◌, some,
}
use nano_tick.Base.Int.{pos, negsuc}
use nano_tick.Base.Text.{is_space, lstrip, rstrip, cons_stripped}
use nano_tick.Ingest.{split_comma}
use nano_tick.Evaluation.Metrics.{unique, insert_unique, count_of}
use nano_tick.Reader.{DateLike, coerce_date}
use nano_tick.Experiment.{date_range, add_frame, frames_of, load_frames, features_of, label_mix}
use nano_tick.Experiment.Days.{rows_of_days, some_rows, load_frames-rows_of_days}

program : Unit {0}
unfolding is_space lstrip rstrip cons_stripped split_comma unique insert_unique count_of coerce_date
    date_range add_frame frames_of load_frames features_of label_mix
program = tt

date_range_test : date_range (DateLike.of_date 5) (DateLike.of_datetime 7 900) ≡ ok (5 ∷ 6 ∷ 7 ∷ [])
unfolding program
date_range_test = refl

backward_test : date_range (DateLike.of_date 5) (DateLike.of_date 4) ≡ raise Error.value_error
unfolding program
backward_test = refl

-- a day that fails, one without rows, and two with rows
abbrev read : ℕ → Result (List ℕ)
read d = if d == 5 then raise Error.os_error else if d == 6 then ok [] else ok (d ∷ d ∷ [])

load_test : load_frames read (4 ∷ 5 ∷ 6 ∷ 7 ∷ []) ≡ ok (4 ∷ 4 ∷ 7 ∷ 7 ∷ [])
unfolding program
load_test = refl

nothing_test : load_frames read (5 ∷ 6 ∷ []) ≡ raise Error.value_error
unfolding program
nothing_test = refl

mix_test : label_mix (pos 1 ∷ negsuc 0 ∷ pos 1 ∷ []) ≡ (negsuc 0, 1) ∷ (pos 1, 2) ∷ []
unfolding program
mix_test = refl

-- "a, b"
features_test : features_of [] (some (97 ∷ 44 ∷ 32 ∷ 98 ∷ [])) ≡ (97 ∷ []) ∷ (98 ∷ []) ∷ []
unfolding program
features_test = refl

load_frames-rows_of_days_example :
    load_frames read (4 ∷ 5 ∷ 7 ∷ [])
    ≡ some_rows Error.value_error (rows_of_days read (4 ∷ 5 ∷ 7 ∷ []))
load_frames-rows_of_days_example = load_frames-rows_of_days read (4 ∷ 5 ∷ 7 ∷ [])
