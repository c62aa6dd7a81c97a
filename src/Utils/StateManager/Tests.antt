-- ===== src/Utils/StateManager/Tests.antt =====
-- The machine of src/utils/state_manager.h at a small table.
use nimlib.Prelude.{ℕ, ◌≡◌, refl, [], ◌∷◌, arith, ℕ_discrete}
use nimlib.Prelude.Map.{find}
use nimlib.Utils.StateManager.{
  StateManager, Readings, listed, timed_out, can_transition_to, count_reset, reset_state, change,
  set_state, clear, get_state, new,
}
use nimlib.Utils.StateManager.Laws.{sets, step, run, Follows, step-Follows}
use nimlib.Utils.StateManager.Limits.{
  IsWithin, reset_times, run-clear-IsWithin, reset_times-within, reset_times-beyond,
}

machine : Unit {0}
unfolding ℕ_discrete find listed timed_out can_transition_to count_reset reset_state change
    set_state get_state clear new step run
machine = tt

-- 0 → 1 → 2, with the error state 9, two resets of 0 and five milliseconds for it.
abbrev idle : StateManager ℕ
idle = record {
  state = 0;
  initial_state = 0;
  error_state = 9;
  transition_map = (0, 1 ∷ []) ∷ (1, 2 ∷ []) ∷ [];
  msec_time_outs = (0, 5) ∷ [];
  max_reset_counts = (0, 2) ∷ [];
  reset_count = 0;
  last_state_change = 0;
}

abbrev broken : StateManager ℕ
broken = record idle { state = 9 }

abbrev early : Readings
early = record { entry = 1; check = 2; stamp = 3 }

abbrev late : Readings
late = record { entry = 5000000; check = 5000001; stamp = 5000002 }

steps :
    ((set_state ℕ_discrete idle 1 early).state ≡ 1)
    × ((set_state ℕ_discrete idle 2 early).state ≡ 9)
    × ((set_state ℕ_discrete idle 1 late).state ≡ 9)
    × ((get_state ℕ_discrete idle 5000000 late).state ≡ 9)
    × ((clear ℕ_discrete broken 7).state ≡ 0)
unfolding machine
steps = (refl, refl, refl, refl, refl)

step-Follows_example : Follows ℕ_discrete idle (step ℕ_discrete idle (sets 1 early))
step-Follows_example = step-Follows ℕ_discrete idle (sets 1 early)

run-clear-IsWithin_example :
    IsWithin ℕ_discrete (run ℕ_discrete (clear ℕ_discrete broken 7) (sets 0 early ∷ []))
run-clear-IsWithin_example = run-clear-IsWithin ℕ_discrete broken 7 (sets 0 early ∷ [])

reset_times-within_example : (reset_times ℕ_discrete idle ((1, 1) ∷ (2, 2) ∷ [])).state ≡ 0
unfolding machine
reset_times-within_example =
    reset_times-within ℕ_discrete idle ((1, 1) ∷ (2, 2) ∷ []) 2 (λ e. absurd (omega arith)) refl
      (refl, (refl, tt)) (omega arith)

reset_times-beyond_example : (reset_times ℕ_discrete idle ((1, 1) ∷ (2, 2) ∷ (3, 3) ∷ [])).state ≡ 9
unfolding machine
reset_times-beyond_example =
    reset_times-beyond ℕ_discrete idle ((1, 1) ∷ (2, 2) ∷ (3, 3) ∷ []) 2 (λ e. absurd (omega arith))
      refl (refl, (refl, (refl, tt))) (omega arith) (omega arith)
