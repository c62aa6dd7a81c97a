-- ===== src/Utils/StateManager/Laws.antt =====
-- What a sequence of calls can do to the state of src/utils/state_manager.h.
use nimlib.Prelude.{ℕ, ◌≡◌, ◌≢◌, sym, ◌∙◌, ◌↔◌, ◌⊎◌, true, false, List, [], ◌∷◌, arith}
use nimlib.Prelude.Map.{find}
use nimlib.Utils.StateManager.{
  StateManager, Readings, listed_in, timed_out, can_transition_to, count_reset, reset_state, change,
  set_state, get_state,
}

-- The calls that a client makes, each with what the clock shows.
pub data Call (T : Type 0) : Type 0 where
  sets : T → Readings → Call T
  resets : ℕ → ℕ → Call T
  gets : ℕ → Readings → Call T

-- When a call first asks for the time.
abbrev pub first_reading : {T : Type 0} → Call T → ℕ
first_reading (sets t r) = r.entry
first_reading (resets check stamp) = check
first_reading (gets now r) = now

module _ {T : Type 0} (eq : Discrete T) where
  unfoldable pub step : StateManager T → Call T → StateManager T
  step m (sets t r) = set_state eq m t r
  step m (resets check stamp) = reset_state eq m check stamp
  step m (gets now r) = get_state eq m now r

  unfoldable pub run : StateManager T → List (Call T) → StateManager T
  run m [] = m
  run m (c ∷ cs) = run (step m c) cs

  -- The table has an edge from `s` to `t`, or `t` is the error state.
  abbrev pub Edge : StateManager T → T → T → Type 0
  Edge m s t = (t ≡ m.error_state) ⊎ (listed_in eq t (find eq s m.transition_map) ≡ true)

  pub record SameTables (m n : StateManager T) : Type 0 where
    pub initial : n.initial_state ≡ m.initial_state
    pub error : n.error_state ≡ m.error_state
    pub transitions : n.transition_map ≡ m.transition_map
    pub limits : n.max_reset_counts ≡ m.max_reset_counts
    pub time_outs : n.msec_time_outs ≡ m.msec_time_outs

  can_transition_to-Edge :
      (m : StateManager T) (t : T) (now : ℕ)
      → can_transition_to eq m t now ≡ true
      → Edge m m.state t
  unfolding can_transition_to
  can_transition_to-Edge m t now h = ground arith

  -- What one call may do: keep the state, fail, or follow an edge of the table.
  pub record Follows (m n : StateManager T) : Type 0 where
    pub tables : SameTables m n
    pub state : (n.state ≡ m.state) ⊎ Edge m m.state n.state
    pub final : m.state ≡ m.error_state → n.state ≡ m.error_state

  count_reset-Follows :
      (m : StateManager T) → m.state ≢ m.error_state → Follows m (count_reset eq m)
  unfolding count_reset
  count_reset-Follows m h = ground arith

  pub reset_state-Follows :
      (m : StateManager T) (check stamp : ℕ) → Follows m (reset_state eq m check stamp)
  unfolding reset_state
  reset_state-Follows m check stamp = ground (arith, count_reset-Follows m)

  change-Follows :
      (m : StateManager T) (t : T) (r : Readings)
      → m.state ≢ m.error_state
      → Follows m (change eq m t r)
  unfolding change
  change-Follows m t r h =
      ground (arith, reset_state-Follows m r.check r.check, can_transition_to-Edge m t r.check)

  pub set_state-Follows :
      (m : StateManager T) (t : T) (r : Readings) → Follows m (set_state eq m t r)
  unfolding set_state
  set_state-Follows m t r = ground (arith, change-Follows m t r)

  pub get_state-Follows :
      (m : StateManager T) (now : ℕ) (r : Readings) → Follows m (get_state eq m now r)
  unfolding get_state
  get_state-Follows m now r = ground (arith, set_state-Follows m m.error_state r)

  -- Every call of `set_state`, `reset_state` and `get_state` keeps the tables, and either keeps the state, enters the error state, or moves to a
  -- state that the transition table lists under the present one. These calls keep the error state.
  pub step-Follows : (m : StateManager T) (c : Call T) → Follows m (step m c)
  unfolding step
  step-Follows m (sets t r) = set_state-Follows m t r
  step-Follows m (resets check stamp) = reset_state-Follows m check stamp
  step-Follows m (gets now r) = get_state-Follows m now r

  -- Once in the error state, no sequence of calls of `set_state`, `reset_state` and `get_state`
  -- leaves it.
  run-error :
      (m : StateManager T) (cs : List (Call T))
      → m.state ≡ m.error_state
      → (run m cs).state ≡ m.error_state
  unfolding run
  run-error m [] h = h
  run-error m (c ∷ cs) h =
      let f = step-Follows m c in
      run-error (step m c) cs (f.final h ∙ sym f.tables.error) ∙ f.tables.error

  set_state_late :
      (m : StateManager T) (t : T) (r : Readings)
      → timed_out eq m r.entry ≡ true
      → (set_state eq m t r).state ≡ m.error_state
  unfolding set_state change
  set_state_late m t r h = ground arith

  set_state_to_error :
      (m : StateManager T) (r : Readings) → (set_state eq m m.error_state r).state ≡ m.error_state
  unfolding set_state change can_transition_to reset_state
  set_state_to_error m r = ground arith

  -- A call whose first reading of the clock finds the state timed out ends in the error state.
  pub step_late :
      (m : StateManager T) (c : Call T)
      → timed_out eq m (first_reading c) ≡ true
      → (step m c).state ≡ m.error_state
  unfolding step reset_state get_state
  step_late m (sets t r) h = set_state_late m t r h
  step_late m (resets check stamp) h = ground arith
  step_late m (gets now r) h = ground (arith, set_state_to_error m r)

  -- With no time-out at either reading and outside the error state, `set_state` of another state
  -- succeeds exactly when the table has the edge, else it fails; the resets are counted afresh.
  pub set_state-Edge :
      (m : StateManager T) (t : T) (r : Readings)
      → m.state ≢ m.error_state
      → t ≢ m.state
      → timed_out eq m r.entry ≡ false
      → timed_out eq m r.check ≡ false
      → let n = set_state eq m t r in
        ((n.state ≡ t) ↔ Edge m m.state t)
        × ((n.state ≡ t) ⊎ (n.state ≡ m.error_state))
        × (n.reset_count ≡ 0)
        × (n.last_state_change ≡ r.stamp)
  unfolding set_state change can_transition_to
  set_state-Edge m t r h k e f = (ground arith, ground arith, ground arith, ground arith)
