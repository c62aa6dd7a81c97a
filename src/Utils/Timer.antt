-- ===== src/Utils/Timer.antt =====
-- src/utils/timer.h and timer.cpp: `Timer`, a stopwatch. Times are readings of the steady clock in
-- nanoseconds, given to the calls that read it.
use nimlib.Prelude.{ℕ, ◌-◌, Bool, true, false, Option, none, some, if◌then◌else◌}

pub record Timer : Type 0 where
  pub start_point : ℕ
  pub timing : Bool

-- The constructor.
unfoldable pub new : ℕ → Timer
new now = record { start_point = now; timing = false }

unfoldable pub begin : Timer → ℕ → Timer × Bool
begin t now = if t.timing then (t, false) else (record t { timing = true; start_point = now }, true)

-- `end(duration)`: the duration stored, or `none` where the code returns false and stores nothing.
unfoldable pub end : Timer → ℕ → Timer × Option ℕ
end t now =
    if t.timing then (record t { timing = false }, some (now - t.start_point)) else (t, none)
