-- ===== src/Experiment/Days.antt =====
-- The frames of the days of resources/experiment.py, and the mix of their labels.
use nano_tick.Base.{
  ℕ, ◌+◌, ◌≡◌, refl, sym, ap, ◌∙◌, List, [], ◌∷◌, ◌++◌, map, concat, length, Result, ok, raise,
  Error, arith,
}
use nano_tick.Base.Int.{ℤ}
use nano_tick.Experiment.{add_frame, frames_of, no_rows, concat_or, load_frames, label_mix}
use nano_tick.Evaluation.Metrics.{unique, count_of}
use nano_tick.Evaluation.Classes.{sum_over}
use nano_tick.Evaluation.Recalls.{count_of-labels}

module _ {R : Type 0} where
  -- The rows that a day adds: none if reading it fails.
  abbrev pub rows_of : Result (List R) → List R
  rows_of (ok rows) = rows
  rows_of (raise e) = []

  -- the rows of all days
  abbrev pub rows_of_days : (ℕ → Result (List R)) → List ℕ → List R
  rows_of_days read [] = []
  rows_of_days read (d ∷ days) = rows_of (read d) ++ rows_of_days read days

  -- a table, or an error if it has no row
  abbrev pub some_rows : Error → List R → Result (List R)
  some_rows e [] = raise e
  some_rows e (r ∷ rs) = ok (r ∷ rs)

  -- each frame has a row
  concat_or-some_rows :
      (e : Error) (r : Result (List R)) (frames : List (List R))
      → ((e' : Error) → concat_or e' frames ≡ some_rows e' (concat frames))
      → concat_or e (add_frame r frames) ≡ some_rows e (rows_of r ++ concat frames)
  unfolding add_frame
  concat_or-some_rows e (raise e') frames h = h e
  concat_or-some_rows e (ok []) frames h = h e
  concat_or-some_rows e (ok (r ∷ rs)) frames h = refl

  concat-add_frame :
      (r : Result (List R)) (frames : List (List R))
      → concat (add_frame r frames) ≡ rows_of r ++ concat frames
  unfolding add_frame
  concat-add_frame (raise e) frames = refl
  concat-add_frame (ok []) frames = refl
  concat-add_frame (ok (r ∷ rs)) frames = refl

  concat-frames_of :
      (read : ℕ → Result (List R)) (days : List ℕ)
      → concat (frames_of read days) ≡ rows_of_days read days
  unfolding frames_of
  concat-frames_of read [] = refl
  concat-frames_of read (d ∷ days) =
      concat-add_frame (read d) (frames_of read days)
      ∙ ap (◌++◌ (rows_of (read d))) (concat-frames_of read days)

  concat_or-frames_of :
      (read : ℕ → Result (List R)) (days : List ℕ) (e : Error)
      → concat_or e (frames_of read days) ≡ some_rows e (concat (frames_of read days))
  unfolding frames_of
  concat_or-frames_of read [] e = refl
  concat_or-frames_of read (d ∷ days) e =
      concat_or-some_rows e (read d) (frames_of read days) (concat_or-frames_of read days)
      ∙ sym (ap (some_rows e) (concat-add_frame (read d) (frames_of read days)))

  -- Loading the days is the same as taking the rows of all days that can be read, in the order of
  -- the days; without any row it raises, a ValueError if there was a day and an IndexError if not.
  pub load_frames-rows_of_days :
      (read : ℕ → Result (List R)) (days : List ℕ)
      → load_frames read days ≡ some_rows (no_rows days) (rows_of_days read days)
  unfolding load_frames
  load_frames-rows_of_days read days =
      concat_or-frames_of read days (no_rows days)
      ∙ ap (some_rows (no_rows days)) (concat-frames_of read days)

-- the sum of the counts of a mix
abbrev pub total : List (ℤ × ℕ) → ℕ
total [] = 0
total ((c, n) ∷ mix) = n + total mix

total-map : (f : ℤ → ℕ) (cs : List ℤ) → total (map (λ c. (c, f c)) cs) ≡ sum_over f cs
total-map f [] = refl
total-map f (c ∷ cs) = omega (arith, total-map f cs)

pub total-label_mix : (labels : List ℤ) → total (label_mix labels) ≡ length labels
unfolding label_mix
total-label_mix labels = total-map (λ c. count_of c labels) (unique labels) ∙ count_of-labels labels
