-- ===== src/Metrics/Metric/Tests.antt =====
-- The metrics of src/metrics/metric.h on short histories.
use nimlib.Prelude.{ℕ, ◌≡◌, refl, none, some, [], ◌∷◌, ◌++◌, arith, get_elem?, replicate, map}
use nimlib.Prelude.Int.{pos}
use nimlib.Prelude.Text.{codes}
use nimlib.Utils.CircularArray.History.{newest}
use nimlib.Metrics.Aggregations.{increment, average, get_val, avg_get_val}
use nimlib.Metrics.Metric.{
  Ticks, Report, Metric, PointMetric, new_point, point_register, point_report, point, get_report,
  new_time_series, seconds,
}
use nimlib.Metrics.Metric.Points.{point_report_stale}
use nimlib.Metrics.Metric.Series.{Event, Columns, history, receive_all, column_rows}
use nimlib.Metrics.Metric.Series.Kept.{get_report_lem}

abbrev requests : PointMetric
requests = record {
  name = codes "requests";
  aggregators = increment (pos 4) ∷ average (record { increment = pos 0; sum = pos 0 }) ∷ [];
}

abbrev clock : ℕ → Ticks
clock i = record { ended = 5; begun = 6 }

registered :
    point_register
      (point_register
        (point_register (new_point (codes "requests")) (some (increment (pos 4))))
        none)
      (some (average (record { increment = pos 0; sum = pos 0 })))
    ≡ requests
unfolding new_point point_register
registered = refl

point_report_stale_example :
    (rows : Report) × (point_report requests (pos 77) ≡ some rows)
    × (get_elem? rows 0 ≡ some (codes "increment", pos 4 ∷ []))
    × (get_elem? rows 1 ≡ some (codes "average", pos 4 ∷ []))
unfolding get_val avg_get_val
point_report_stale_example =
    point_report_stale requests (pos 77) (pos 4) [] [] (increment (pos 4))
      (average (record { increment = pos 0; sum = pos 0 })) (tt, (tt, tt)) refl refl refl

abbrev first_event : Event
first_event = record { value = pos 1; clock = clock; now = 2000000000; garbage = pos 0 }

abbrev second_event : Event
second_event = record { value = pos 1; clock = clock; now = 3500000000; garbage = pos 9 }

get_report_lem_example :
    (p' : PointMetric) × (columns : Columns) × (series : Metric) × (history
        (first_event ∷ second_event ∷ [])
        (requests, replicate 2 [])
      ≡ some (p', columns))
    × (receive_all (first_event ∷ second_event ∷ []) (new_time_series (point requests) 1)
        ≡ some series)
    × (get_report series (pos 0)
        ≡ some (
            column_rows 1 p'.aggregators columns
            ++ (
              codes "time",
              map seconds (newest 0 1 (map Event.now (first_event ∷ second_event ∷ []))),
            )
              ∷ []))
get_report_lem_example =
    get_report_lem requests 1 first_event (second_event ∷ []) (pos 0) (omega arith) (tt, (tt, tt))
