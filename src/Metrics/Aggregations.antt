-- ===== src/Metrics/Aggregations.antt =====
-- src/metrics/aggregations.h: the aggregators, for `long`, the type at which the program uses them.
--
-- A `long` is an integer; the sums and counts of the program stay below 2 ^ 63. A priority queue is
-- the list of its values from its top on. `none` is the top of an empty queue.
pub mod Queues
pub mod Balance
pub mod Median
pub mod Extremes
mod Tests
use nimlib.Prelude.{
  ℕ, zero, suc, ◌+◌, ◌-◌, ◌/◌, ◌%◌, ◌^◌, ◌≡◌, Bool, true, false, ◌&&◌, Option, none, some, List, [],
  ◌∷◌, ltb, leb, ◌==◌, if◌then◌else◌, length,
}
use nimlib.Prelude.Int.{ℤ, pos, negsuc, pos_part, neg_part, ◌+ℤ◌, ltb_ℤ, leb_ℤ, div_ℤ}
use nimlib.Prelude.Text.{Text, codes}
use nimlib.Utils.Timer
use nimlib.Utils.Timer.{Timer}

-- `numeric_limits<long>::min()` and `max()`.
abbrev pub long_min : ℤ
long_min = negsuc (2 ^ 63 - 1)

abbrev pub long_max : ℤ
long_max = pos (2 ^ 63 - 1)

-- `m > 0 ? count += 1 : count -= 1`.
unfoldable pub increment_involve : ℤ → ℤ → ℤ
increment_involve count m = if ltb_ℤ (pos 0) m then count +ℤ pos 1 else count +ℤ negsuc 0

unfoldable pub sum_involve : ℤ → ℤ → ℤ
sum_involve sum m = sum +ℤ m

unfoldable pub max_involve : ℤ → ℤ → ℤ
max_involve max m = if ltb_ℤ max m then m else max

unfoldable pub min_involve : ℤ → ℤ → ℤ
min_involve min m = if ltb_ℤ m min then m else min

-- `Avg`: the members `increment` and `sum`.
pub record Avg : Type 0 where
  pub increment : ℤ
  pub sum : ℤ

unfoldable pub avg_involve : Avg → ℤ → Avg
avg_involve a m = record {
  increment = increment_involve a.increment (pos 1);
  sum = sum_involve a.sum m;
}

abbrev pub is_zero : ℤ → Bool
is_zero (pos zero) = true
is_zero (pos (suc n)) = false
is_zero (negsuc n) = false

unfoldable pub avg_get_val : Avg → Option ℤ
avg_get_val a = if is_zero a.increment then none else some (div_ℤ a.sum a.increment)

-- `push` of a queue with the least value on top, and of one with the greatest.
unfoldable pub push_more : ℤ → List ℤ → List ℤ
push_more m [] = m ∷ []
push_more m (x ∷ xs) = if leb_ℤ m x then m ∷ x ∷ xs else x ∷ push_more m xs

unfoldable pub push_less : ℤ → List ℤ → List ℤ
push_less m [] = m ∷ []
push_less m (x ∷ xs) = if leb_ℤ x m then m ∷ x ∷ xs else x ∷ push_less m xs

-- `Med`: the lower and the upper half of the values.
pub record Med : Type 0 where
  pub less : List ℤ
  pub more : List ℤ

unfoldable pub med_new : Med
med_new = record { less = long_min ∷ []; more = pos (2 ^ 63 - 1 - 1) ∷ [] }

-- `while (less.size() != more.size() + d) { less.push(more.top()); more.pop(); }`.
unfoldable pub fill_less : ℕ → List ℤ → List ℤ → Option Med
fill_less d less [] =
    if length less == 0 + d then some (record { less = less; more = [] }) else none
fill_less d less (x ∷ more) =
    let rest = fill_less d (push_less x less) more in
    if length less == length (x ∷ more) + d
    then some (record { less = less; more = x ∷ more })
    else rest

-- `while (less.size() != more.size() + d) { more.push(less.top()); less.pop(); }`.
unfoldable pub fill_more : ℕ → List ℤ → List ℤ → Option Med
fill_more d [] more =
    if 0 == length more + d then some (record { less = []; more = more }) else none
fill_more d (x ∷ less) more =
    let rest = fill_more d less (push_more x more) in
    if length (x ∷ less) == length more + d
    then some (record { less = x ∷ less; more = more })
    else rest

-- The four branches of `involve` behind the first push.
unfoldable pub rebalance : List ℤ → List ℤ → Option Med
rebalance less more =
    let even : Bool = (length less + length more) % 2 == 0 in
    if even && ltb (length less) (length more)
    then fill_less 0 less more
    else if even && ltb (length more) (length less)
    then fill_more 0 less more
    else if (if even then false else true) && ltb (length less) (length more + 1)
    then fill_less 1 less more
    else if (if even then false else true) && ltb (length more + 1) (length less)
    then fill_more 1 less more
    else some (record { less = less; more = more })

abbrev pub push_first : List ℤ → List ℤ → ℤ → Option Med
push_first [] more m = none
push_first (x ∷ less) more m =
    if leb_ℤ m x
    then rebalance (push_less m (x ∷ less)) more
    else rebalance (x ∷ less) (push_more m more)

unfoldable pub med_involve : Med → ℤ → Option Med
med_involve s m = push_first s.less s.more m

abbrev pub top : List ℤ → Option ℤ
top [] = none
top (x ∷ xs) = some x

unfoldable pub med_get_val : Med → Option ℤ
med_get_val s = top s.less

-- `AvgRatePerSecond`.
pub record AvgRatePerSecond : Type 0 where
  pub timer : Timer
  pub duration : ℤ
  pub count : ℤ

-- The constructor, whose timer is made at `made` and begun at `begun`.
unfoldable pub rate_new : ℕ → ℕ → AvgRatePerSecond
rate_new made begun = record {
  timer = (Timer.begin (Timer.new made) begun).0;
  duration = pos 0;
  count = pos 0;
}

-- `involve`, which reads the clock at `ended` and, behind that, at `begun`.
abbrev pub rate_collect : AvgRatePerSecond → ℤ → ℕ → Timer × Option ℕ → AvgRatePerSecond × Bool
rate_collect a m begun (t, none) = (record a { timer = t }, false)
rate_collect a m begun (t, some latency) = (
  record {
    timer = (Timer.begin t begun).0;
    duration = sum_involve a.duration (pos latency);
    count = sum_involve a.count m;
  },
  true,
)

unfoldable pub rate_involve : AvgRatePerSecond → ℤ → ℕ → ℕ → AvgRatePerSecond × Bool
rate_involve a m ended begun = rate_collect a m begun (Timer.end a.timer ended)

unfoldable pub rate_get_val : AvgRatePerSecond → Option ℤ
rate_get_val a =
    let t : ℤ = div_ℤ a.duration (pos 1000000000) in
    if is_zero t then none else some (div_ℤ a.count t)

-- The classes that implement `Aggregator<long>`, each with its state.
pub data Aggregator : Type 0 where
  increment sum max min : ℤ → Aggregator
  average : Avg → Aggregator
  median : Med → Aggregator
  average_per_second : AvgRatePerSecond → Aggregator

-- `get_name()`.
abbrev pub aggregator_name : Aggregator → Text
aggregator_name (increment c) = codes "increment"
aggregator_name (sum s) = codes "sum"
aggregator_name (max m) = codes "max"
aggregator_name (min m) = codes "min"
aggregator_name (average a) = codes "average"
aggregator_name (median s) = codes "median"
aggregator_name (average_per_second r) = codes "average_per_second"

abbrev pub as_median : Option Med → Option (Aggregator × Bool)
as_median none = none
as_median (some s) = some (median s, true)

abbrev pub as_rate : AvgRatePerSecond × Bool → Aggregator × Bool
as_rate (r, received) = (average_per_second r, received)

-- `involve(m)`: the aggregator, and whether it has received the value. `ended` and `begun` are what
-- the clock shows.
unfoldable pub involve : Aggregator → ℤ → ℕ → ℕ → Option (Aggregator × Bool)
involve (increment c) m ended begun = some (increment (increment_involve c m), true)
involve (sum s) m ended begun = some (sum (sum_involve s m), true)
involve (max x) m ended begun = some (max (max_involve x m), true)
involve (min x) m ended begun = some (min (min_involve x m), true)
involve (average a) m ended begun = some (average (avg_involve a m), true)
involve (median s) m ended begun = as_median (med_involve s m)
involve (average_per_second r) m ended begun = some (as_rate (rate_involve r m ended begun))

abbrev pub always : Option ℤ → Option (Option ℤ)
always none = none
always (some v) = some (some v)

-- `get_val(m)`: the value, or `some none` where it returns false and leaves `m` alone.
unfoldable pub get_val : Aggregator → Option (Option ℤ)
get_val (increment c) = some (some c)
get_val (sum s) = some (some s)
get_val (max x) = some (some x)
get_val (min x) = some (some x)
get_val (average a) = some (avg_get_val a)
get_val (median s) = always (med_get_val s)
get_val (average_per_second r) = some (rate_get_val r)
