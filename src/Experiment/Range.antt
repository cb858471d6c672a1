-- ===== src/Experiment/Range.antt =====
-- The range of dates of resources/experiment.py.
use nano_tick.Base.{
  ℕ, zero, suc, ◌+◌, ◌-◌, ◌≤◌, ◌<◌, ◌≡◌, refl, ap, ◌∙◌, ◌∷◌, map, ltb, count_from, ok, raise, Error,
  inl, inr, ◌⊎◌, arith, Bool-cases, ltb→lt, ltb→ge,
}
use nano_tick.Reader.{DateLike, coerce_date}
use nano_tick.Experiment.{date_range}

pub map-count_from :
    (first lo n : ℕ) → map (λ k. first + k) (count_from lo n) ≡ count_from (first + lo) n
map-count_from first lo zero = refl
map-count_from first lo (suc n) =
    let next : first + (lo + 1) ≡ first + lo + 1 = omega arith in
    ap (◌∷◌ (first + lo)) (map-count_from first (lo + 1) n ∙ ap (λ x. count_from x n) next)

-- For two dates, as dates, datetimes or texts, the range is each day from the first to the last one,
-- once and in order; it raises a ValueError exactly if the last one is before the first.
pub date_range_lem :
    (start end : DateLike) (first last : ℕ)
    → coerce_date start ≡ ok first
    → coerce_date end ≡ ok last
    → ((last < first) × (date_range start end ≡ raise Error.value_error))
      ⊎ ((first ≤ last) × (date_range start end ≡ ok (count_from first (last - first + 1))))
unfolding date_range
date_range_lem start end first last e e' =
    let zero_right : first + 0 ≡ first = omega arith in
    elim (Bool-cases (ltb last first)) [
      | inl before ↦ inl (ltb→lt last first before, rw (e, e', before) refl)
      | inr after ↦ inr (
        ltb→ge last first after,
        rw (e, e', after)
            (ap ok (
              map-count_from first 0 (last - first + 1)
              ∙ ap (λ x. count_from x (last - first + 1)) zero_right)),
      )
    ]
