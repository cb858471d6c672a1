-- ===== src/Experiment.antt =====
-- resources/experiment.py: the range of dates, the frames of its days, and the run of an experiment.
-- The reader is a parameter, a function from a day to the frame of that day or to an error; its
-- queries are in nano_tick.Reader, and `evaluate` is in nano_tick.Evaluation. Frames are lists of rows.
pub mod Range
pub mod Days
mod Tests
use nano_tick.Base.{
  ℕ, zero, suc, ◌+◌, ◌-◌, Bool, true, false, Option, none, some, List, [], ◌∷◌, ◌++◌, map, concat,
  length, ltb, count_from, if◌then◌else◌, Result, ok, raise, ◌>>=◌, Error,
}
use nano_tick.Base.Int.{ℤ, pos}
use nano_tick.Base.Numpy.{Numpy}
use nano_tick.Base.Text.{Text, lstrip, rstrip}
use nano_tick.Ingest.{split_comma}
use nano_tick.Reader.{DateLike, coerce_date}
use nano_tick.Evaluation.{Frame, Model, EvaluationResult, evaluate}
use nano_tick.Evaluation.Metrics.{unique, count_of}

-- `date_range`, which resources/dashboard.py has as well
unfoldable pub date_range : DateLike → DateLike → Result (List ℕ)
unfolding coerce_date
date_range start end = do
  first ← coerce_date start
  last ← coerce_date end
  (if ltb last first
      then raise Error.value_error
      else ok (map (λ n. first + n) (count_from 0 (last - first + 1))))

-- `raise ValueError(f"... {days[0]}..{days[-1]}")`, whose text is made from the days
abbrev pub no_rows : List ℕ → Error
no_rows [] = Error.index_error
no_rows (d ∷ days) = Error.value_error

module _ {R : Type 0} where
  -- the body of the loop of `load_features`: a day with an error and one without rows are skipped
  unfoldable pub add_frame : Result (List R) → List (List R) → List (List R)
  add_frame (raise e) frames = frames
  add_frame (ok []) frames = frames
  add_frame (ok (r ∷ rs)) frames = (r ∷ rs) ∷ frames

  unfoldable pub frames_of : (ℕ → Result (List R)) → List ℕ → List (List R)
  unfolding add_frame
  frames_of read [] = []
  frames_of read (d ∷ days) = add_frame (read d) (frames_of read days)

  abbrev pub concat_or : Error → List (List R) → Result (List R)
  concat_or e [] = raise e
  concat_or e (f ∷ fs) = ok (concat (f ∷ fs))

  -- `load_features`, and `load_bars` of resources/dashboard.py
  unfoldable pub load_frames : (ℕ → Result (List R)) → List ℕ → Result (List R)
  unfolding frames_of
  load_frames read days = concat_or (no_rows days) (frames_of read days)

-- `[c.strip() for c in args.features.split(",")] if args.features else list(DEFAULT_FEATURES)`
abbrev pub stripped : List Text → List Text
stripped [] = []
stripped (part ∷ parts) = rstrip (lstrip part) ∷ stripped parts

unfoldable pub features_of : List Text → Option Text → List Text
unfolding split_comma lstrip rstrip
features_of defaults none = defaults
features_of defaults (some []) = defaults
features_of defaults (some (c ∷ cs)) =
    let (part, parts) = split_comma (c ∷ cs) in stripped (part ∷ parts)

-- `df["label"].value_counts().sort_index()`
unfoldable pub label_mix : List ℤ → List (ℤ × ℕ)
unfolding unique count_of
label_mix labels = map (λ c. (c, count_of c labels)) (unique labels)

-- the arguments of the command line that `main` passes on
pub record Args (F : Type 0) : Type 0 where
  pub start : DateLike
  pub end : Option DateLike
  pub features : Option Text
  pub n_splits : ℤ
  pub horizon : ℤ
  pub embargo : ℤ
  pub cost : F

-- `args.end or args.start`, where an empty text counts as none
abbrev pub end_or_start : Option DateLike → DateLike → DateLike
end_or_start none start = start
end_or_start (some (DateLike.of_str [])) start = start
end_or_start (some end) start = end

-- what `main` reports
pub record Report (F : Type 0) : Type 0 where
  pub days : List ℕ
  pub mix : List (ℤ × ℕ)
  pub result : EvaluationResult Text F

-- `main`, up to the output. The columns of the frames, the names of the label and of the forward
-- return, and the model of the chosen alpha for a list of features are parameters.
module _ {F M : Type 0} (dec : Discrete Text) (np : Numpy F) (defaults columns : List Text)
    (label_col fwdret_col : Text) (model : List Text → Model F M)
    (read : ℕ → Result (List (Text → F))) where
  unfoldable pub main : Args F → Result (Report F)
  unfolding date_range features_of load_frames label_mix evaluate
  main args = do
    days ← date_range args.start (end_or_start args.end args.start)
    let features = features_of defaults args.features
    rows ← load_frames read days
    let frame : Frame Text F = record { columns = columns; rows = rows }
    result ←
        evaluate np (model features) args.cost dec frame args.n_splits args.horizon args.embargo
          features label_col fwdret_col
    ok (record {
      days = days;
      mix = label_mix (map (λ r. np.to_int (r label_col)) rows);
      result = result;
    })
