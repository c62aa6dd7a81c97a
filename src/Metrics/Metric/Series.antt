-- ===== src/Metrics/Metric/Series.antt =====
-- `TimeSeriesMetric` of src/metrics/metric.h over a `PointMetric`, against the history of what the
-- metric that it holds has reported.
pub mod Kept
use nimlib.Prelude.{
  ℕ, zero, suc, ◌+◌, ◌<◌, ◌≡◌, refl, sym, ap, ◌∙◌, Bool, true, false, Option, none, some, List, [],
  ◌∷◌, ◌++◌, arith, length, All, map, ◌==◌, ◌≢◌, replicate, if◌then◌else◌,
}
use nimlib.Prelude.Int.{ℤ, pos}
use nimlib.Prelude.Text.{Text, codes}
use nimlib.Utils.CircularArray.{CircularArray, new, push_back, copy}
use nimlib.Utils.CircularArray.History.{
  newest, Holds, push_back-Holds, new-Holds, capacity-push_back,
}
use nimlib.Metrics.Aggregations.{Aggregator, aggregator_name}
use nimlib.Metrics.Metric.{
  Ticks, Report, PointMetric, Metric, point, time_series, new_time_series, point_receive,
  point_report, get_report, push_rows, series_rows, rings_for, receive, seconds,
}
use nimlib.Metrics.Metric.Points.{
  IsSound, AreRows, point_receive-IsSound, point_report-AreRows, length-AllInvolved,
}

pub length-AreRows :
    (as' : List Aggregator) (rows : Report) → AreRows as' rows → length rows ≡ length as'
length-AreRows [] [] h = refl
length-AreRows [] (row ∷ rows) h = absurd h
length-AreRows (a ∷ as') [] h = absurd h
length-AreRows (a ∷ as') ((name, []) ∷ rows) h = absurd h
length-AreRows (a ∷ as') ((name, v ∷ w ∷ vs) ∷ rows) h = absurd h
length-AreRows (a ∷ as') ((name, v ∷ []) ∷ rows) h = ap suc (length-AreRows as' rows h.1)

series_rows-early :
    (as' : List Aggregator) (rows : Report)
    → AreRows as' rows
    → as' ≢ []
    → series_rows rows [] ≡ none
unfolding series_rows
series_rows-early [] rows h ne = absurd (ne refl)
series_rows-early (a ∷ as') [] h ne = absurd h
series_rows-early (a ∷ as') (row ∷ rows) h ne = refl

-- Over a point metric that has an aggregator, whose aggregators are as their constructors and earlier
-- calls leave them, a new time series that has received no value has no report: it reads a ring
-- out of range.
pub get_report_early :
    (p : PointMetric) (capacity : ℕ) (garbage : ℤ)
    → All IsSound p.aggregators
    → p.aggregators ≢ []
    → get_report (new_time_series (point p) capacity) garbage ≡ none
unfolding get_report new_time_series
get_report_early p capacity garbage sound ne =
    let (rows, e, shape) = point_report-AreRows p garbage sound in
    rw (e, series_rows-early p.aggregators rows shape ne) refl

-- A call of `receive`: the value, what the clock shows to the aggregators and to the time series, and
-- what uninitialised memory holds.
pub record Event : Type 0 where
  pub value : ℤ
  pub clock : ℕ → Ticks
  pub now : ℕ
  pub garbage : ℤ

abbrev pub Columns : Type 0
Columns = List (List ℤ)

-- Each value of a report behind the earlier ones of its row.
abbrev pub extend : Columns → Report → Columns
extend (xs ∷ columns) ((name, v ∷ []) ∷ rows) = (xs ++ v ∷ []) ∷ extend columns rows
extend _ _ = []

abbrev pub extended : PointMetric → Columns → Option Report → Option (PointMetric × Columns)
extended p columns none = none
extended p columns (some rows) = some (p, extend columns rows)

abbrev pub observed : Columns → ℤ → Option (PointMetric × Bool) → Option (PointMetric × Columns)
observed columns garbage (some (p, true)) = extended p columns (point_report p garbage)
observed columns garbage _ = none

abbrev pub observe : PointMetric → Columns → Event → Option (PointMetric × Columns)
observe p columns e = observed columns e.garbage (point_receive p e.value e.clock)

abbrev pub and_then : {A B : Type 0} → (A → Option B) → Option A → Option B
and_then f none = none
and_then f (some x) = f x

-- The point metric by itself: it receives the values in turn, and each time it is asked for a report.
unfoldable pub history : List Event → PointMetric × Columns → Option (PointMetric × Columns)
history [] (p, columns) = some (p, columns)
history (e ∷ events) (p, columns) = and_then (history events) (observe p columns e)

abbrev pub accepted : Option (Metric × Bool) → Option Metric
accepted (some (m, true)) = some m
accepted _ = none

-- A metric receives the values in turn, and each time the result is true.
unfoldable pub receive_all : List Event → Metric → Option Metric
receive_all [] m = some m
receive_all (e ∷ events) m =
    and_then (receive_all events) (accepted (receive m e.value e.clock (λ _. e.now) e.garbage))

-- The rows that a time series is to report: the newest values of each column.
abbrev pub column_rows : ℕ → List Aggregator → Columns → Report
column_rows capacity (a ∷ as') (xs ∷ columns) =
    (aggregator_name a, newest (pos 0) capacity xs) ∷ column_rows capacity as' columns
column_rows capacity _ _ = []
