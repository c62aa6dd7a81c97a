-- ===== src/Metrics/Store/Building.antt =====
-- What the builder of src/metrics/builder.h leaves in the store of src/metrics/metrics_store.h.
use nimlib.Metrics.Metric.{PointMetric}
use nimlib.Metrics.Metric.Points.{IsSound}
use nimlib.Metrics.Metric.Series.{get_report_early}
use nimlib.Metrics.Aggregations.Median.{med_new-Holds, highest}
use nimlib.Prelude.{arith}
use nimlib.Prelude.{ℕ, ◌≡◌, refl, ap, ◌∙◌, true, none, some, [], ◌∷◌, All}
use nimlib.Prelude.Int.{ℤ, pos}
use nimlib.Prelude.Text.{codes}
use nimlib.Prelude.Map.{insert}
use nimlib.Utils.Timer
use nimlib.Utils.Timer.{Timer}
use nimlib.Metrics.Aggregations.{
  max, average, median, average_per_second, long_min, med_new, rate_new,
}
use nimlib.Metrics.Metric.{
  point, new_point, new_time_series, register_aggregator, point_register, get_name, get_report,
}
use nimlib.Metrics.Store.{
  instantiate_metric, measure_avg, measure_max, measure_med, measure_avg_rate, with_timeseries,
  MetricsStore, empty_store, register_metric, build, print_metric, print_register,
  generate_stats_report, main_metric,
}

-- The point metric within that of the main program.
abbrev main_point : ℕ → ℕ → PointMetric
main_point made begun = record {
  name = codes "resp_tm";
  aggregators =
      average (record { increment = pos 0; sum = pos 0 })
      ∷ max long_min
      ∷ average_per_second (rate_new made begun)
      ∷ median med_new
      ∷ [];
}

main_metric_lem :
    (made begun : ℕ) → main_metric made begun ≡ new_time_series (point (main_point made begun)) 10
unfolding main_metric with_timeseries measure_med measure_avg_rate measure_max measure_avg
    instantiate_metric register_aggregator point_register new_point
main_metric_lem made begun = refl

rate_new-running : (made begun : ℕ) → (rate_new made begun).timer.timing ≡ true
unfolding rate_new Timer.begin Timer.new
rate_new-running made begun = refl

main_point-IsSound : (made begun : ℕ) → All IsSound (main_point made begun).aggregators
main_point-IsSound made begun = (
  tt,
  (
    tt,
    (
      rate_new-running made begun,
      ((long_min ∷ highest ∷ [], omega arith, omega arith, med_new-Holds), tt),
    ),
  ),
)

-- Before the first measurement the store of the main program has no report: that of its only metric
-- reads a ring out of range.
pub main_report_early :
    (made begun : ℕ) (garbage : ℤ)
    → (s : MetricsStore) × (build (main_metric made begun) empty_store ≡ some s)
      × (generate_stats_report s garbage ≡ none)
unfolding build register_metric generate_stats_report print_register insert
main_report_early made begun garbage = (
  _,
  refl,
  ap (λ o. print_metric (get_name (main_metric made begun)) o (some []))
      (ap (λ m. get_report m garbage) (main_metric_lem made begun)
        ∙ get_report_early (main_point made begun) 10 garbage (main_point-IsSound made begun)
            (λ e. cc)),
)
