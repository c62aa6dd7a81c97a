-- ===== src/Metrics/Metric.antt =====
-- src/metrics/metric.h: `PointMetric` and `TimeSeriesMetric`.
--
-- The aggregators of a metric belong to it. What the clock shows is given to the calls: `clock i` to
-- the aggregator number `i`, `times n` to the time series that holds `n` others. `garbage` is what an
-- uninitialised `T val` holds. `none` is an access out of range. Capacities are positive.
mod Tests
pub mod Points
pub mod Series
use nimlib.Prelude.{
  ℕ, zero, suc, ◌+◌, ◌/◌, ◌≡◌, Bool, true, false, Option, none, some, List, [], ◌∷◌, ◌++◌, map,
  ◌==◌, if◌then◌else◌, length, replicate,
}
use nimlib.Prelude.Int.{ℤ, pos}
use nimlib.Prelude.Text.{Text, codes}
use nimlib.Utils.CircularArray.{CircularArray, new, push_back, copy}
use nimlib.Metrics.Aggregations.{Aggregator, aggregator_name, involve, get_val}

-- The two readings of the clock in a call of `involve`.
pub record Ticks : Type 0 where
  pub ended : ℕ
  pub begun : ℕ

abbrev pub Report : Type 0
Report = List (Text × List ℤ)

pub record PointMetric : Type 0 where
  pub name : Text
  pub aggregators : List Aggregator

-- The constructor.
unfoldable pub new_point : Text → PointMetric
new_point name = record { name = name; aggregators = [] }

-- `register_aggregator(agg)`, where `none` is a null pointer.
unfoldable pub point_register : PointMetric → Option Aggregator → PointMetric
point_register p none = p
point_register p (some a) = record p { aggregators = p.aggregators ++ a ∷ [] }

abbrev pub first_received :
    Aggregator → Option (List Aggregator × Bool) → Option (List Aggregator × Bool)
first_received a none = none
first_received a (some (rest, received)) = some (a ∷ rest, received)

abbrev pub received_by :
    (Bool → Option (List Aggregator × Bool))
    → Option (Aggregator × Bool)
    → Option (List Aggregator × Bool)
received_by rest none = none
received_by rest (some (a, received)) = first_received a (rest received)

-- The loop of `receive`: behind an aggregator that has refused the value no other is asked.
unfoldable pub receive_loop :
    List Aggregator → ℤ → (ℕ → Ticks) → ℕ → Bool → Option (List Aggregator × Bool)
receive_loop [] m clock i well_received = some ([], well_received)
receive_loop (a ∷ rest) m clock i true =
    received_by (receive_loop rest m clock (i + 1)) (involve a m (clock i).ended (clock i).begun)
receive_loop (a ∷ rest) m clock i false = first_received a (receive_loop rest m clock (i + 1) false)

abbrev pub with_aggregators :
    PointMetric → Option (List Aggregator × Bool) → Option (PointMetric × Bool)
with_aggregators p none = none
with_aggregators p (some (rest, received)) = some (record p { aggregators = rest }, received)

unfoldable pub point_receive : PointMetric → ℤ → (ℕ → Ticks) → Option (PointMetric × Bool)
point_receive p m clock = with_aggregators p (receive_loop p.aggregators m clock 0 true)

-- The loop of `get_report`. `val` lives through all rounds: an aggregator that has no value leaves
-- it as the one before it has set it.
abbrev pub value_or : ℤ → Option ℤ → ℤ
value_or val none = val
value_or val (some v) = v

abbrev pub report_row : Text → ℤ → Option Report → Option Report
report_row name v none = none
report_row name v (some rest) = some ((name, v ∷ []) ∷ rest)

abbrev pub report_from : (ℤ → Option Report) → Text → ℤ → Option (Option ℤ) → Option Report
report_from rest name val none = none
report_from rest name val (some o) = report_row name (value_or val o) (rest (value_or val o))

unfoldable pub report_loop : List Aggregator → ℤ → Option Report
report_loop [] val = some []
report_loop (a ∷ rest) val = report_from (report_loop rest) (aggregator_name a) val (get_val a)

unfoldable pub point_report : PointMetric → ℤ → Option Report
point_report p garbage = report_loop p.aggregators garbage

-- The classes that implement `Metric<long>`: a time series holds another metric, its capacity, the
-- times of the values received, and a ring for each row of the report.
pub data Metric : Type 0 where
  point : PointMetric → Metric
  time_series : Metric → ℕ → CircularArray ℕ → List (CircularArray ℤ) → Metric

-- The constructor of `TimeSeriesMetric`.
unfoldable pub new_time_series : Metric → ℕ → Metric
new_time_series metric capacity = time_series metric capacity (new 0 capacity) []

unfoldable pub register_aggregator : Metric → Option Aggregator → Metric
register_aggregator (point p) agg = point (point_register p agg)
register_aggregator (time_series metric capacity ts metric_data) agg =
    time_series (register_aggregator metric agg) capacity ts metric_data

unfoldable pub get_name : Metric → Text
get_name (point p) = p.name
get_name (time_series metric capacity ts metric_data) = get_name metric

-- `metric_data[i].copy()` under the name of row `i`.
abbrev pub named_row : Text → List ℤ → Option Report → Option Report
named_row name row none = none
named_row name row (some rest) = some ((name, row) ∷ rest)

unfoldable pub series_rows : Report → List (CircularArray ℤ) → Option Report
series_rows [] metric_data = some []
series_rows ((name, row) ∷ rest) [] = none
series_rows ((name, row) ∷ rest) (d ∷ metric_data) =
    named_row name (copy (pos 0) d) (series_rows rest metric_data)

-- `duration_cast<seconds>(time_point.time_since_epoch()).count()`.
abbrev pub seconds : ℕ → ℤ
seconds t = pos (t / 1000000000)

abbrev pub with_time : List ℕ → Option Report → Option Report
with_time times none = none
with_time times (some rows) = some (rows ++ (codes "time", map seconds times) ∷ [])

abbrev pub series_report : CircularArray ℕ → List (CircularArray ℤ) → Option Report → Option Report
series_report ts metric_data none = none
series_report ts metric_data (some report) = with_time (copy 0 ts) (series_rows report metric_data)

-- `get_report(aggregations)`: the rows that it appends.
unfoldable pub get_report : Metric → ℤ → Option Report
get_report (point p) garbage = point_report p garbage
get_report (time_series metric capacity ts metric_data) garbage =
    series_report ts metric_data (get_report metric garbage)

-- `metric_data[i].push_back(val[0])` for each row.
abbrev pub pushed_row :
    CircularArray ℤ → Option (List (CircularArray ℤ)) → Option (List (CircularArray ℤ))
pushed_row d none = none
pushed_row d (some rest) = some (d ∷ rest)

unfoldable pub push_rows : Report → List (CircularArray ℤ) → Option (List (CircularArray ℤ))
push_rows [] metric_data = some metric_data
push_rows ((name, row) ∷ rest) [] = none
push_rows ((name, []) ∷ rest) (d ∷ metric_data) = none
push_rows ((name, v ∷ row) ∷ rest) (d ∷ metric_data) =
    pushed_row (push_back (pos 0) d v) (push_rows rest metric_data)

-- The rings are made anew where their number is not that of the rows.
unfoldable pub rings_for : ℕ → Report → List (CircularArray ℤ) → List (CircularArray ℤ)
rings_for capacity report metric_data =
    if length metric_data == length report
    then metric_data
    else replicate (length report) (new (pos 0) capacity)

abbrev pub stamped :
    Metric
    → ℕ
    → CircularArray ℕ
    → ℕ
    → Bool
    → Option (List (CircularArray ℤ))
    → Option (Metric × Bool)
stamped metric capacity ts now received none = none
stamped metric capacity ts now received (some metric_data) =
    some (time_series metric capacity (push_back 0 ts now) metric_data, received)

abbrev pub record_rows :
    Metric
    → ℕ
    → CircularArray ℕ
    → List (CircularArray ℤ)
    → ℕ
    → Bool
    → Option Report
    → Option (Metric × Bool)
record_rows metric capacity ts metric_data now received none = none
record_rows metric capacity ts metric_data now received (some report) =
    stamped metric capacity ts now received
      (push_rows report (rings_for capacity report metric_data))

abbrev pub series_receive :
    ℕ
    → CircularArray ℕ
    → List (CircularArray ℤ)
    → ℕ
    → ℤ
    → Option (Metric × Bool)
    → Option (Metric × Bool)
series_receive capacity ts metric_data now garbage none = none
series_receive capacity ts metric_data now garbage (some (metric, received)) =
    record_rows metric capacity ts metric_data now received (get_report metric garbage)

abbrev pub as_point : Option (PointMetric × Bool) → Option (Metric × Bool)
as_point none = none
as_point (some (p, received)) = some (point p, received)

abbrev pub depth : Metric → ℕ
depth (point p) = 0
depth (time_series metric capacity ts metric_data) = depth metric + 1

unfoldable pub receive : Metric → ℤ → (ℕ → Ticks) → (ℕ → ℕ) → ℤ → Option (Metric × Bool)
receive (point p) m clock times garbage = as_point (point_receive p m clock)
receive (time_series metric capacity ts metric_data) m clock times garbage =
    series_receive capacity ts metric_data (times (depth metric)) garbage
      (receive metric m clock times garbage)
