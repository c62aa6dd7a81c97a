-- ===== src/Metrics/Metric/Series/Kept.antt =====
-- What a time series of src/metrics/metric.h keeps of the reports of the metric that it holds.
use nimlib.Prelude.{
  append-nil, append_assoc, length-replicate, ℕ, zero, suc, ◌<◌, ◌≡◌, refl, sym, ap, ◌∙◌, some,
  List, [], ◌∷◌, ◌++◌, arith, length, All, map, replicate,
}
use nimlib.Prelude.Int.{ℤ, pos}
use nimlib.Prelude.Text.{codes}
use nimlib.Utils.CircularArray.{CircularArray, new, push_back}
use nimlib.Utils.CircularArray.History.{
  newest, Holds, push_back-Holds, new-Holds, capacity-push_back,
}
use nimlib.Metrics.Aggregations.{Aggregator}
use nimlib.Metrics.Metric.{
  Report, PointMetric, Metric, point, time_series, new_time_series, get_report, push_rows,
  series_rows, rings_for, receive, seconds,
}
use nimlib.Metrics.Metric.Points.{
  IsSound, AreRows, point_receive-IsSound, point_report-AreRows, length-AllInvolved,
}
use nimlib.Metrics.Metric.Series.{
  Event, Columns, extend, observe, history, receive_all, accepted, column_rows, length-AreRows,
}

-- Each ring holds the newest values of its column.
abbrev pub AllHold : ℕ → Columns → List (CircularArray ℤ) → Type 0
AllHold capacity [] [] = Unit
AllHold capacity (xs ∷ columns) (d ∷ metric_data) =
    Holds (pos 0) xs d × (d.capacity ≡ capacity) × AllHold capacity columns metric_data
AllHold capacity _ _ = ⊥

series_rows-AllHold :
    (capacity : ℕ) (as' : List Aggregator) (rows : Report) (columns : Columns)
    (data' : List (CircularArray ℤ))
    → AreRows as' rows
    → length columns ≡ length rows
    → AllHold capacity columns data'
    → series_rows rows data' ≡ some (column_rows capacity as' columns)
unfolding series_rows
series_rows-AllHold capacity [] [] columns data' r l h = refl
series_rows-AllHold capacity [] (row ∷ rows) columns data' r l h = absurd r
series_rows-AllHold capacity (a ∷ as') [] columns data' r l h = absurd r
series_rows-AllHold capacity (a ∷ as') ((name, []) ∷ rows) columns data' r l h = absurd r
series_rows-AllHold capacity (a ∷ as') ((name, v ∷ w ∷ vs) ∷ rows) columns data' r l h = absurd r
series_rows-AllHold capacity (a ∷ as') ((name, v ∷ []) ∷ rows) [] data' r l h =
    absurd (omega (arith, l))
series_rows-AllHold capacity (a ∷ as') ((name, v ∷ []) ∷ rows) (xs ∷ columns) [] r l h = absurd h
series_rows-AllHold capacity (a ∷ as') ((name, v ∷ []) ∷ rows) (xs ∷ columns) (d ∷ data') (n, r) l
      ((_, shown), c, h) =
    rw (series_rows-AllHold capacity as' rows columns data' r (omega (arith, l)) h, n, shown, c)
      refl

push_rows-AllHold :
    (capacity : ℕ) (as' : List Aggregator) (rows : Report) (columns : Columns)
    (data' : List (CircularArray ℤ))
    → AreRows as' rows
    → length columns ≡ length rows
    → AllHold capacity columns data'
    → (data'' : List (CircularArray ℤ)) × (push_rows rows data' ≡ some data'')
      × AllHold capacity (extend columns rows) data''
      × (length (extend columns rows) ≡ length rows)
      × (length data'' ≡ length rows)
unfolding push_rows
push_rows-AllHold capacity [] [] [] [] r l h = ([], refl, tt, refl, refl)
push_rows-AllHold capacity [] [] [] (d ∷ data') r l h = absurd h
push_rows-AllHold capacity [] [] (xs ∷ columns) data' r l h = absurd (omega (arith, l))
push_rows-AllHold capacity [] (row ∷ rows) columns data' r l h = absurd r
push_rows-AllHold capacity (a ∷ as') [] columns data' r l h = absurd r
push_rows-AllHold capacity (a ∷ as') ((name, []) ∷ rows) columns data' r l h = absurd r
push_rows-AllHold capacity (a ∷ as') ((name, v ∷ w ∷ vs) ∷ rows) columns data' r l h = absurd r
push_rows-AllHold capacity (a ∷ as') ((name, v ∷ []) ∷ rows) [] data' r l h =
    absurd (omega (arith, l))
push_rows-AllHold capacity (a ∷ as') ((name, v ∷ []) ∷ rows) (xs ∷ columns) [] r l h = absurd h
push_rows-AllHold capacity (a ∷ as') ((name, v ∷ []) ∷ rows) (xs ∷ columns) (d ∷ data') (n, r) l
      (held, c, h) =
    let (data'', e, h', l', ld) =
      push_rows-AllHold capacity as' rows columns data' r (omega (arith, l)) h in
    (
      push_back (pos 0) d v ∷ data'',
      rw e,
      (push_back-Holds (pos 0) xs d v held, capacity-push_back (pos 0) d v ∙ c, h'),
      ap suc l',
      ap suc ld,
    )

rings_for-same :
    (capacity : ℕ) (rows : Report) (data' : List (CircularArray ℤ))
    → length data' ≡ length rows
    → rings_for capacity rows data' ≡ data'
unfolding rings_for
rings_for-same capacity rows data' l = ground (arith, l)

fresh-AllHold :
    (capacity n : ℕ)
    → 0 < capacity
    → AllHold capacity (replicate n []) (replicate n (new (pos 0) capacity))
unfolding new
fresh-AllHold capacity zero h = tt
fresh-AllHold capacity (suc n) h = (new-Holds (pos 0) capacity h, refl, fresh-AllHold capacity n h)

rings_for-fresh :
    (capacity : ℕ) (rows : Report)
    → rings_for capacity rows [] ≡ replicate (length rows) (new (pos 0) capacity)
unfolding rings_for
rings_for-fresh capacity [] = refl
rings_for-fresh capacity (row ∷ rows) = ground arith

-- A time series over `p` with the capacity, the columns of earlier reports and the times of the calls.
record Represents (capacity : ℕ) (p : PointMetric) (columns : Columns) (times : List ℕ)
    (ts : CircularArray ℕ) (data' : List (CircularArray ℤ)) : Type 0 where
  sound : All IsSound p.aggregators
  width : length columns ≡ length p.aggregators
  rings :
      (rows : Report)
      → length rows ≡ length p.aggregators
      → AllHold capacity columns (rings_for capacity rows data')
  clock_ring : Holds 0 times ts
  same_capacity : ts.capacity ≡ capacity

receive-Represents :
    (capacity : ℕ) (p : PointMetric) (columns : Columns) (times : List ℕ) (ts : CircularArray ℕ)
    (data' : List (CircularArray ℤ)) (e : Event)
    → Represents capacity p columns times ts data'
    → (p' : PointMetric) × (columns' : Columns) × (data'' : List (CircularArray ℤ)) × (observe p
          columns e
        ≡ some (p', columns'))
      × (accepted (
            receive
              (time_series (point p) capacity ts data')
              e.value
              e.clock
              (λ _. e.now)
              e.garbage)
          ≡ some (time_series (point p') capacity (push_back 0 ts e.now) data''))
      × AllHold capacity columns' data''
      × Represents capacity p' columns' (times ++ e.now ∷ []) (push_back 0 ts e.now) data''
unfolding receive get_report
receive-Represents capacity p columns times ts data' e r =
    let (bs, received, all, sound) = point_receive-IsSound p e.value e.clock r.sound in
    let p' : PointMetric = record p { aggregators = bs } in
    let (rows, reported, shape) = point_report-AreRows p' e.garbage sound in
    let same : length bs ≡ length p.aggregators =
      length-AllInvolved e.value e.clock 0 p.aggregators bs all in
    let l : length rows ≡ length bs = length-AreRows bs rows shape in
    let (data'', pushed, held, wide, long) =
      push_rows-AllHold capacity bs rows columns (rings_for capacity rows data') shape
        (r.width ∙ sym (l ∙ same)) (r.rings rows (l ∙ same)) in
    (
      p',
      extend columns rows,
      data'',
      rw (received, reported) refl,
      rw (received, reported, pushed) refl,
      held,
      record {
        sound = sound;
        width = wide ∙ l;
        rings = λ rows' l'. rw (rings_for-same capacity rows' data'' (long ∙ l ∙ sym l')) held;
        clock_ring = push_back-Holds 0 times ts e.now r.clock_ring;
        same_capacity = capacity-push_back 0 ts e.now ∙ r.same_capacity;
      },
    )

-- The same from the first call on, when the rings are there.
receive_all-Represents :
    (capacity : ℕ) (events : List Event) (p : PointMetric) (columns : Columns) (times : List ℕ)
    (ts : CircularArray ℕ) (data' : List (CircularArray ℤ))
    → Represents capacity p columns times ts data'
    → AllHold capacity columns data'
    → (p' : PointMetric) × (columns' : Columns) × (ts' : CircularArray ℕ) × (data'' : List
        (CircularArray ℤ))
      × (history events (p, columns) ≡ some (p', columns'))
      × (receive_all events (time_series (point p) capacity ts data')
          ≡ some (time_series (point p') capacity ts' data''))
      × AllHold capacity columns' data''
      × Represents capacity p' columns' (times ++ map Event.now events) ts' data''
unfolding history receive_all
receive_all-Represents capacity [] p columns times ts data' r h =
    (p, columns, ts, data', refl, refl, h, rw (append-nil times) r)
receive_all-Represents capacity (e ∷ events) p columns times ts data' r h =
    let (p', columns', data'', seen, kept, h', r') =
      receive-Represents capacity p columns times ts data' e r in
    let (p'', columns'', ts'', data3, seen', kept', h'', r'') =
      receive_all-Represents capacity events p' columns' (times ++ e.now ∷ [])
        (push_back 0 ts e.now) data'' r' h' in
    (
      p'',
      columns'',
      ts'',
      data3,
      rw (seen, seen') refl,
      rw (kept, kept') refl,
      h'',
      rw (← append_assoc times (e.now ∷ []) (map Event.now events)) r'',
    )

get_report-Represents :
    (capacity : ℕ) (p : PointMetric) (columns : Columns) (times : List ℕ) (ts : CircularArray ℕ)
    (data' : List (CircularArray ℤ)) (garbage : ℤ)
    → Represents capacity p columns times ts data'
    → AllHold capacity columns data'
    → get_report (time_series (point p) capacity ts data') garbage
      ≡ some (
          column_rows capacity p.aggregators columns
          ++ (codes "time", map seconds (newest 0 capacity times)) ∷ [])
unfolding get_report
get_report-Represents capacity p columns times ts data' garbage r h =
    let (rows, reported, shape) = point_report-AreRows p garbage r.sound in
    let l : length columns ≡ length rows =
      r.width ∙ sym (length-AreRows p.aggregators rows shape) in
    rw
      (
        reported,
        series_rows-AllHold capacity p.aggregators rows columns data' shape l h,
        r.clock_ring.1,
        r.same_capacity,
      )
      refl

-- A new time series of positive capacity over a point metric whose aggregators are as their
-- constructors and earlier calls leave them receives one or more values, and each call returns true.
-- Its report then has, for each aggregator, a row with the newest values (as many as the capacity,
-- or all of them if there are fewer) among those that the point metric by itself has reported for the
-- aggregator behind each of the calls, and a row with the times of these calls in seconds.
pub get_report_lem :
    (p : PointMetric) (capacity : ℕ) (e : Event) (events : List Event) (garbage : ℤ)
    → 0 < capacity
    → All IsSound p.aggregators
    → (p' : PointMetric) × (columns : Columns) × (series : Metric) × (history
          (e ∷ events)
          (p, replicate (length p.aggregators) [])
        ≡ some (p', columns))
      × (receive_all (e ∷ events) (new_time_series (point p) capacity) ≡ some series)
      × (get_report series garbage
          ≡ some (
              column_rows capacity p'.aggregators columns
              ++ (codes "time", map seconds (newest 0 capacity (map Event.now (e ∷ events)))) ∷ []))
unfolding history receive_all new_time_series new
get_report_lem p capacity e events garbage h sound =
    let (p', columns', data'', seen, kept, h', r') =
      receive-Represents capacity p (replicate n []) [] (new 0 capacity) [] e begun in
    let (p'', columns'', ts'', data3, seen', kept', h'', r'') =
      receive_all-Represents capacity events p' columns' (e.now ∷ [])
        (push_back 0 (new 0 capacity) e.now) data'' r' h' in
    (
      p'',
      columns'',
      time_series (point p'') capacity ts'' data3,
      rw (seen, seen') refl,
      rw (kept, kept') refl,
      get_report-Represents capacity p'' columns'' (map Event.now (e ∷ events)) ts'' data3 garbage
          r'' h'',
    )
  where
    n : ℕ
    n = length p.aggregators

    begun : Represents capacity p (replicate n []) [] (new 0 capacity) []
    begun = record {
      sound = sound;
      width = length-replicate n [];
      rings = λ rows l. rw (rings_for-fresh capacity rows, l) (fresh-AllHold capacity n h);
      clock_ring = new-Holds 0 capacity h;
      same_capacity = refl;
    }
