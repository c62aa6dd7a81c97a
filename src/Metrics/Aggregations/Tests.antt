-- ===== src/Metrics/Aggregations/Tests.antt =====
-- The aggregators of src/metrics/aggregations.h on short histories.
use nimlib.Prelude.{◌/◌, ◌-◌, ◌≡◌, refl, some, List, [], ◌∷◌, arith, length, get_or, All, foldl}
use nimlib.Prelude.Int.{ℤ, pos, negsuc, ◌≤ℤ◌}
use nimlib.Metrics.Aggregations.{
  long_min, long_max, push_more, push_less, Med, med_new, fill_less, fill_more, rebalance,
  med_involve, med_get_val, min_involve,
}
use nimlib.Metrics.Aggregations.Queues.{IsSorted}
use nimlib.Metrics.Aggregations.Median.{involve_all, median_lem}
use nimlib.Metrics.Aggregations.Extremes.{Among, min_lem, Sample}
use mathlib.Core.List.{Perm}

queues : Unit {0}
unfolding push_more push_less med_new fill_less fill_more rebalance med_involve med_get_val
queues = tt

abbrev three : List ℤ
three = pos 5 ∷ negsuc 0 ∷ pos 3 ∷ []

halves :
    med_involve (record { less = pos 3 ∷ []; more = pos 5 ∷ [] }) (pos 4)
    ≡ some (record { less = pos 4 ∷ pos 3 ∷ []; more = pos 5 ∷ [] })
unfolding queues
halves = refl

-- The greatest `long` is taken for a value above the upper sentinel, which then is the median.
greatest_long :
    med_involve med_new long_max
    ≡ some (record { less = pos 9223372036854775806 ∷ long_min ∷ []; more = long_max ∷ [] })
unfolding queues
greatest_long = refl

median_lem_example :
    (s : Med) × (sorted : List ℤ) × IsSorted sorted
    × Perm sorted three
    × (involve_all three med_new ≡ some s)
    × (med_get_val s ≡ some (get_or sorted ((length three - 1) / 2) (pos 0)))
median_lem_example = median_lem three (λ e. cc) (omega arith)

min_lem_example :
    All (λ x. foldl min_involve long_max three ≤ℤ x) three
    × Among (foldl min_involve long_max three) three
min_lem_example = min_lem three (λ e. cc) (omega arith)

abbrev samples : List Sample
samples = record { value = pos 7; ended = 3000000000; begun = 3000000001 } ∷ []
