-- ===== src/WalkForward/Tests.antt =====
-- Runs of the splitter of resources/evaluation.py, and its theorems at a concrete input.
use nano_tick.Base.{◌+◌, ◌≡◌, refl, List, [], ◌∷◌, ok, raise, Error, All, ◌↔◌, ◌⊎◌}
use nano_tick.Base.Int.{pos, negsuc, ◌-ℤ◌}
use nano_tick.WalkForward.{
  Split, splits_from, split_at, fold_size, train_end, test_end, walk_forward_splits,
}
use nano_tick.WalkForward.Purge.{
  IsPurged, IsTrained, IsAccepted, walk_forward_splits_accepts, walk_forward_splits-IsPurged,
}
use nano_tick.WalkForward.Cover.{SkipsAll, TilesFrom, walk_forward_splits-tiles}

program : Unit {0}
unfolding walk_forward_splits splits_from split_at fold_size train_end test_end ◌-ℤ◌
program = tt

-- 11 rows in 4 blocks, of which the last takes the rest; with a gap of 2 the first fold has no
-- training rows
abbrev splits : List Split
splits =
    record { train = 0 ∷ 1 ∷ []; test = 4 ∷ 5 ∷ [] }
    ∷ record { train = 0 ∷ 1 ∷ 2 ∷ 3 ∷ []; test = 6 ∷ 7 ∷ 8 ∷ 9 ∷ 10 ∷ [] }
    ∷ []

walk_forward_test : walk_forward_splits 11 (pos 3) (pos 1) (pos 1) (pos 1) ≡ ok splits
unfolding program
walk_forward_test = refl

too_small_test : walk_forward_splits 3 (pos 3) (pos 1) (pos 0) (pos 1) ≡ raise Error.value_error
unfolding program
too_small_test = refl

negative_test : walk_forward_splits 30 (pos 3) (negsuc 0) (pos 0) (pos 1) ≡ raise Error.value_error
unfolding program
negative_test = refl

walk_forward_splits_accepts_example :
    ((found : List Split) × (walk_forward_splits 11 (pos 3) (pos 1) (pos 1) (pos 1) ≡ ok found))
    ↔ IsAccepted 11 (pos 3) (pos 1) (pos 1)
walk_forward_splits_accepts_example = walk_forward_splits_accepts 11 (pos 3) (pos 1) (pos 1) (pos 1)

walk_forward_splits-IsPurged_example : All (λ s. IsPurged (1 + 1) s × IsTrained (pos 1) s) splits
walk_forward_splits-IsPurged_example =
    walk_forward_splits-IsPurged 11 (pos 3) 1 1 (pos 1) splits walk_forward_test

walk_forward_splits-tiles_example :
    SkipsAll 11 3 (pos 1) (pos 1) (pos 1) (fold_size 11 3) 1 3 splits
    ⊎ TilesFrom 11 3 (pos 1) (pos 1) (pos 1) (fold_size 11 3) 1 3 splits
walk_forward_splits-tiles_example =
    walk_forward_splits-tiles 11 (pos 3) (pos 1) (pos 1) (pos 1) splits walk_forward_test
