-- ===== src/Metrics/Metric/Points.antt =====
-- `PointMetric` of src/metrics/metric.h: what it passes on to its aggregators, and what it reports.
use nimlib.Prelude.{
  ℕ, suc, ◌+◌, ◌≤◌, ◌≡◌, refl, ap, true, Option, none, some, List, [], ◌∷◌, ◌++◌, ◌-◌, ◌/◌, get_or,
  arith, length, All, Option-cases, inl, inr, get_elem?,
}
use nimlib.Prelude.Int.{ℤ, pos}
use nimlib.Utils.Timer
use nimlib.Utils.Timer.{Timer}
use nimlib.Metrics.Aggregations.{
  Aggregator, increment, sum, max, min, average, median, average_per_second, AvgRatePerSecond,
  rate_involve, involve, get_val, aggregator_name,
}
use nimlib.Metrics.Aggregations.Queues.{IsSorted, push_more-IsSorted, length-push_more}
use nimlib.Metrics.Aggregations.Median.{Holds, med_involve-Holds, med_get_val-joined}
use nimlib.Metrics.Metric.{
  Ticks, Report, PointMetric, receive_loop, point_receive, report_loop, point_report, value_or,
}

-- What the constructors of the aggregators establish, and `involve` keeps.
abbrev pub IsSound : Aggregator → Type 0
IsSound (median s) = (values : List ℤ) × IsSorted values × (2 ≤ length values) × Holds values s
IsSound (average_per_second r) = r.timer.timing ≡ true
IsSound _ = Unit

rate_involve-running :
    (r : AvgRatePerSecond) (m : ℤ) (ended begun : ℕ)
    → r.timer.timing ≡ true
    → (r' : AvgRatePerSecond) × (rate_involve r m ended begun ≡ (r', true))
      × (r'.timer.timing ≡ true)
unfolding rate_involve Timer.begin Timer.end
rate_involve-running r m ended begun h = rw (h, Timer.end) (_, refl, refl)

pub involve-IsSound :
    (a : Aggregator) (m : ℤ) (ended begun : ℕ)
    → IsSound a
    → (a' : Aggregator) × (involve a m ended begun ≡ some (a', true)) × IsSound a'
unfolding involve
involve-IsSound (increment c) m ended begun h = (_, refl, tt)
involve-IsSound (sum c) m ended begun h = (_, refl, tt)
involve-IsSound (max c) m ended begun h = (_, refl, tt)
involve-IsSound (min c) m ended begun h = (_, refl, tt)
involve-IsSound (average c) m ended begun h = (_, refl, tt)
involve-IsSound (median s) m ended begun (values, sorted, two, h) =
    let (s', e, h') = med_involve-Holds s values m sorted two h in
    (
      median s',
      rw e,
      (_, push_more-IsSorted m values sorted, omega (arith, length-push_more m values), h'),
    )
involve-IsSound (average_per_second r) m ended begun h =
    let (r', e, h') = rate_involve-running r m ended begun h in (average_per_second r', rw e, h')

-- Each aggregator of one list has received the value and become that of the other.
abbrev pub AllInvolved : ℤ → (ℕ → Ticks) → ℕ → List Aggregator → List Aggregator → Type 0
AllInvolved m clock i [] [] = Unit
AllInvolved m clock i (a ∷ as') (b ∷ bs) =
    (involve a m (clock i).ended (clock i).begun ≡ some (b, true))
    × AllInvolved m clock (i + 1) as' bs
AllInvolved _ _ _ _ _ = ⊥

receive_loop-IsSound :
    (as' : List Aggregator) (m : ℤ) (clock : ℕ → Ticks) (i : ℕ)
    → All IsSound as'
    → (bs : List Aggregator) × (receive_loop as' m clock i true ≡ some (bs, true))
      × AllInvolved m clock i as' bs
      × All IsSound bs
unfolding receive_loop
receive_loop-IsSound [] m clock i h = ([], refl, tt, tt)
receive_loop-IsSound (a ∷ rest) m clock i (s, ss) =
    let (b, e, t) = involve-IsSound a m (clock i).ended (clock i).begun s in
    let (bs, es, all, ts) = receive_loop-IsSound rest m clock (i + 1) ss in
    (b ∷ bs, rw (e, es), (e, all), (t, ts))

-- A metric whose aggregators are as their constructors and earlier calls leave them receives a value:
-- the result is true, every aggregator has received it, and all are again as such calls leave them.
pub point_receive-IsSound :
    (p : PointMetric) (m : ℤ) (clock : ℕ → Ticks)
    → All IsSound p.aggregators
    → (bs : List Aggregator) × (point_receive p m clock
        ≡ some (record p { aggregators = bs }, true))
      × AllInvolved m clock 0 p.aggregators bs
      × All IsSound bs
unfolding point_receive
point_receive-IsSound p m clock h =
    let (bs, e, all, ts) = receive_loop-IsSound p.aggregators m clock 0 h in (bs, rw e, all, ts)

get_val-IsSound : (a : Aggregator) → IsSound a → (o : Option ℤ) × (get_val a ≡ some o)
unfolding get_val
get_val-IsSound (increment c) h = (_, refl)
get_val-IsSound (sum c) h = (_, refl)
get_val-IsSound (max c) h = (_, refl)
get_val-IsSound (min c) h = (_, refl)
get_val-IsSound (average c) h = (_, refl)
get_val-IsSound (median s) (values, sorted, two, h) = (
  some (get_or values ((length values + 1) / 2 - 1) (pos 0)),
  rw (med_get_val-joined s values h two),
)
get_val-IsSound (average_per_second r) h = (_, refl)

pub length-AllInvolved :
    (m : ℤ) (clock : ℕ → Ticks) (i : ℕ) (as' bs : List Aggregator)
    → AllInvolved m clock i as' bs
    → length bs ≡ length as'
length-AllInvolved m clock i [] [] h = refl
length-AllInvolved m clock i [] (b ∷ bs) h = absurd h
length-AllInvolved m clock i (a ∷ as') [] h = absurd h
length-AllInvolved m clock i (a ∷ as') (b ∷ bs) h =
    ap suc (length-AllInvolved m clock (i + 1) as' bs h.1)

-- The rows of a report, which has one for each aggregator with one value.
abbrev pub AreRows : List Aggregator → Report → Type 0
AreRows [] [] = Unit
AreRows (a ∷ rest) ((name, v ∷ []) ∷ rows) = (name ≡ aggregator_name a) × AreRows rest rows
AreRows _ _ = ⊥

report_loop-AreRows :
    (as' : List Aggregator) (val : ℤ)
    → All IsSound as'
    → (rows : Report) × (report_loop as' val ≡ some rows) × AreRows as' rows
unfolding report_loop
report_loop-AreRows [] val h = ([], refl, tt)
report_loop-AreRows (a ∷ rest) val (s, ss) =
    let (o, e) = get_val-IsSound a s in
    let (rows, es, r) = report_loop-AreRows rest (value_or val o) ss in
    ((aggregator_name a, value_or val o ∷ []) ∷ rows, rw (e, es), (refl, r))

pub point_report-AreRows :
    (p : PointMetric) (garbage : ℤ)
    → All IsSound p.aggregators
    → (rows : Report) × (point_report p garbage ≡ some rows) × AreRows p.aggregators rows
unfolding point_report
point_report-AreRows p garbage h = report_loop-AreRows p.aggregators garbage h

-- Behind `before` the report goes on with the value that they have left.
report_loop-append :
    (before rest : List Aggregator) (val : ℤ) {rows : Report}
    → report_loop (before ++ rest) val ≡ some rows
    → (left : ℤ) × (front : Report) × (back : Report) × (report_loop rest left ≡ some back)
      × (rows ≡ front ++ back)
      × (length front ≡ length before)
unfolding report_loop
report_loop-append [] rest val {rows} e = (val, [], rows, e, refl, refl)
report_loop-append (a ∷ before) rest val {rows} e = elim (Option-cases (get_val a)) [
  | inl n ↦ cc (rw n at e)
  | inr (o, v) ↦ elim (Option-cases (report_loop (before ++ rest) (value_or val o))) [
    | inl n ↦ cc (rw (v, n) at e)
    | inr (more, es) ↦
        let (left, front, back, b, split, l) = report_loop-append before rest (value_or val o) es in
        let q : some ((aggregator_name a, value_or val o ∷ []) ∷ more) ≡ some rows =
          rw (v, es) at e in
        (left, (aggregator_name a, value_or val o ∷ []) ∷ front, back, b, cc, ap suc l)
  ]
]

at_length :
    {A : Type 0} (front : List A) (x y : A) (rest : List A)
    → (get_elem? (front ++ x ∷ y ∷ rest) (length front) ≡ some x)
      × (get_elem? (front ++ x ∷ y ∷ rest) (suc (length front)) ≡ some y)
at_length [] x y rest = (refl, refl)
at_length (z ∷ front) x y rest = at_length front x y rest

report_loop-stale :
    (a b : Aggregator) (after : List Aggregator) (left v : ℤ) {rows : Report}
    → get_val a ≡ some (some v)
    → get_val b ≡ some none
    → report_loop (a ∷ b ∷ after) left ≡ some rows
    → (back : Report) × (rows ≡ (aggregator_name a, v ∷ []) ∷ (aggregator_name b, v ∷ []) ∷ back)
unfolding report_loop
report_loop-stale a b after left v {rows} ea eb h = elim (Option-cases (report_loop after v)) [
  | inl n ↦ cc (rw (ea, eb, n) at h)
  | inr (back, e) ↦
      let q : some ((aggregator_name a, v ∷ []) ∷ (aggregator_name b, v ∷ []) ∷ back) ≡ some rows =
        rw (ea, eb, e) at h in
      (back, cc)
]

-- In a metric whose aggregators are as their constructors and earlier calls leave them, let the
-- aggregator `b` stand directly behind the aggregator `a`, let `a` have the value `v` and `b` none.
-- The metric has a report, and there both have a row with the value `v`.
pub point_report_stale :
    (p : PointMetric) (garbage v : ℤ) (before after : List Aggregator) (a b : Aggregator)
    → All IsSound p.aggregators
    → p.aggregators ≡ before ++ (a ∷ b ∷ after)
    → get_val a ≡ some (some v)
    → get_val b ≡ some none
    → (rows : Report) × (point_report p garbage ≡ some rows)
      × (get_elem? rows (length before) ≡ some (aggregator_name a, v ∷ []))
      × (get_elem? rows (suc (length before)) ≡ some (aggregator_name b, v ∷ []))
unfolding point_report
point_report_stale p garbage v before after a b sound e ea eb =
    let (rows, reported, _) = report_loop-AreRows p.aggregators garbage sound in
    let (left, front, back, h, split, l) =
      report_loop-append before (a ∷ b ∷ after) garbage (rw e at reported) in
    let (rest, shape) = report_loop-stale a b after left v ea eb h in
    let (first, second) =
      at_length front (aggregator_name a, v ∷ []) (aggregator_name b, v ∷ []) rest in
    (rows, reported, rw (split, shape, ← l) first, rw (split, shape, ← l) second)
