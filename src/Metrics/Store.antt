-- ===== src/Metrics/Store.antt =====
-- src/metrics/metrics_store.h, builder.h and measure.h: the store of metrics, the builder that fills
-- it, and the measures that feed the metrics.
--
-- A shared pointer to a metric is its place in the list of all metrics that were built. A builder is
-- not used again behind `build()`. What the clock shows is given to the calls, as in Metrics.Metric;
-- `garbage` is what an uninitialised `T val` holds. `none` is a null pointer that is followed or an
-- access out of range.
pub mod Building
mod Tests
use nimlib.Metrics.Metric.{PointMetric}
use nimlib.Metrics.Metric.Points.{IsSound}
use nimlib.Metrics.Metric.Series.{get_report_early}
use nimlib.Metrics.Aggregations.Median.{med_new-Holds, highest}
use nimlib.Prelude.{arith}
use nimlib.Prelude.{
  ℕ, zero, suc, ◌+◌, ◌≡◌, refl, sym, ap, ◌∙◌, ◌≢◌, Bool, true, false, Option, none, some, List, [],
  ◌∷◌, ◌++◌, length, get_elem?, set, All,
}
use nimlib.Prelude.Int.{ℤ, pos, negsuc}
use nimlib.Prelude.Text.{Text, Text-discrete, codes, print_integer}
use nimlib.Prelude.Map.{find, insert, find-insert_self, find-insert_ne}
use nimlib.Utils.Timer
use nimlib.Utils.Timer.{Timer}
use nimlib.Metrics.Aggregations.{
  Aggregator, increment, sum, max, min, average, median, average_per_second, long_min, long_max,
  med_new, rate_new,
}
use nimlib.Metrics.Metric.{
  Ticks, Report, Metric, point, new_point, new_time_series, register_aggregator, point_register,
  get_name, get_report, receive,
}

-- The members of `Builder`, which holds the metric that it makes.
unfoldable pub instantiate_metric : Text → Metric
instantiate_metric name = point (new_point name)

unfoldable pub measure_increment : Metric → Metric
measure_increment m = register_aggregator m (some (increment (pos 0)))

unfoldable pub measure_avg : Metric → Metric
measure_avg m = register_aggregator m (some (average (record { increment = pos 0; sum = pos 0 })))

unfoldable pub measure_max : Metric → Metric
measure_max m = register_aggregator m (some (max long_min))

unfoldable pub measure_min : Metric → Metric
measure_min m = register_aggregator m (some (min long_max))

unfoldable pub measure_sum : Metric → Metric
measure_sum m = register_aggregator m (some (sum (pos 0)))

unfoldable pub measure_med : Metric → Metric
measure_med m = register_aggregator m (some (median med_new))

unfoldable pub measure_avg_rate : ℕ → ℕ → Metric → Metric
measure_avg_rate made begun m =
    register_aggregator m (some (average_per_second (rate_new made begun)))

unfoldable pub with_timeseries : ℕ → Metric → Metric
with_timeseries capacity m = new_time_series m capacity

-- `MetricsStore`, with the metrics that its pointers point to.
pub record MetricsStore : Type 0 where
  pub metrics : List Metric
  pub metrics_register : List (Text × ℕ)

abbrev pub empty_store : MetricsStore
empty_store = record { metrics = []; metrics_register = [] }

abbrev pub registered : MetricsStore → ℕ → Option Metric → Option MetricsStore
registered s ptr none = none
registered s ptr (some m) =
    some (record s { metrics_register = insert Text-discrete (get_name m) ptr s.metrics_register })

unfoldable pub register_metric : MetricsStore → ℕ → Option MetricsStore
register_metric s ptr = registered s ptr (get_elem? s.metrics ptr)

unfoldable pub get_metric : MetricsStore → Text → Option ℕ
get_metric s name = find Text-discrete name s.metrics_register

-- `build()`: the metric is shared from now on.
unfoldable pub build : Metric → MetricsStore → Option MetricsStore
build m s = register_metric (record s { metrics = s.metrics ++ m ∷ [] }) (length s.metrics)

-- `generate_stats_report()`: a row and the report of a metric.
unfoldable pub print_values : List ℤ → Text
print_values [] = []
print_values (v ∷ vs) = print_integer v ++ codes ", " ++ print_values vs

unfoldable pub print_rows : Report → Text
print_rows [] = []
print_rows ((value_name, values) ∷ rows) =
    value_name ++ codes ": " ++ print_values values ++ b'\n' ∷ print_rows rows

abbrev pub print_metric : Text → Option Report → Option Text → Option Text
print_metric name none rest = none
print_metric name (some rows) none = none
print_metric name (some rows) (some rest) =
    some (codes "metric_name: " ++ name ++ b':' ∷ b'\n' ∷ print_rows rows ++ b'\n' ∷ b'\n' ∷ rest)

abbrev pub report_of : Option Metric → ℤ → Option Report
report_of none garbage = none
report_of (some m) garbage = get_report m garbage

unfoldable pub print_register : List Metric → List (Text × ℕ) → ℤ → Option Text
print_register metrics [] garbage = some []
print_register metrics ((name, ptr) ∷ register) garbage =
    print_metric name (report_of (get_elem? metrics ptr) garbage)
      (print_register metrics register garbage)

unfoldable pub generate_stats_report : MetricsStore → ℤ → Option Text
generate_stats_report s garbage = print_register s.metrics s.metrics_register garbage

-- `forward_measurement(m)` of a measure whose metric is `target`; a null pointer takes nothing.
abbrev pub put_metric : MetricsStore → ℕ → Option (Metric × Bool) → Option MetricsStore
put_metric s ptr none = none
put_metric s ptr (some (m, received)) = some (record s { metrics = set s.metrics ptr m })

abbrev pub forward_to :
    MetricsStore → ℕ → ℤ → (ℕ → Ticks) → (ℕ → ℕ) → ℤ → Option Metric → Option MetricsStore
forward_to s ptr m clock times garbage none = none
forward_to s ptr m clock times garbage (some metric) =
    put_metric s ptr (receive metric m clock times garbage)

unfoldable pub forward_measurement :
    MetricsStore → Option ℕ → ℤ → (ℕ → Ticks) → (ℕ → ℕ) → ℤ → Option MetricsStore
forward_measurement s none m clock times garbage = some s
forward_measurement s (some ptr) m clock times garbage =
    forward_to s ptr m clock times garbage (get_elem? s.metrics ptr)

-- `Count::end()`.
unfoldable pub count_end : MetricsStore → Option ℕ → (ℕ → Ticks) → (ℕ → ℕ) → ℤ → Option MetricsStore
count_end s target clock times garbage = forward_measurement s target (pos 1) clock times garbage

-- `Duration`, made for a name: its metric is looked up once.
pub record Duration : Type 0 where
  pub metric : Option ℕ
  pub timer : Timer

unfoldable pub new_duration : MetricsStore → Text → ℕ → Duration
new_duration s name now = record { metric = get_metric s name; timer = Timer.new now }

unfoldable pub duration_start : Duration → ℕ → Duration
duration_start d now = record d { timer = (Timer.begin d.timer now).0 }

abbrev pub forwarded_by : Duration → Option MetricsStore → Option (MetricsStore × Duration)
forwarded_by d none = none
forwarded_by d (some s) = some (s, d)

abbrev pub ended :
    MetricsStore
    → Duration
    → (ℕ → Ticks)
    → (ℕ → ℕ)
    → ℤ
    → Timer × Option ℕ
    → Option (MetricsStore × Duration)
ended s d clock times garbage (t, none) = some (s, record d { timer = t })
ended s d clock times garbage (t, some n) =
    forwarded_by (record d { timer = t })
      (forward_measurement s d.metric (pos n) clock times garbage)

unfoldable pub duration_end :
    MetricsStore → Duration → ℕ → (ℕ → Ticks) → (ℕ → ℕ) → ℤ → Option (MetricsStore × Duration)
duration_end s d now clock times garbage = ended s d clock times garbage (Timer.end d.timer now)

unfoldable pub duration_cancel : Duration → ℕ → Duration
duration_cancel d now = record d { timer = (Timer.end d.timer now).0 }

-- The metric that the main program builds.
unfoldable pub main_metric : ℕ → ℕ → Metric
main_metric made begun = with_timeseries 10 (
    measure_med (
      measure_avg_rate made begun
        (measure_max (measure_avg (instantiate_metric (codes "resp_tm"))))))
