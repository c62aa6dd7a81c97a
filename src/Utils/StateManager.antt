-- ===== src/Utils/StateManager.antt =====
-- src/utils/state_manager.h: `StateManager<T>`, a table-driven state machine with a limit on
-- repeated entries of a state and a time-out for each state.
--
-- Times are nanoseconds of the steady clock. A call that reads the clock takes what the clock
-- shows at each of its readings; a call into another member passes the reading on.
-- Limits and time-outs are the non-negative numbers that the tables of the program hold, and
-- `reset_count` is an `int` that stays below 2 ^ 31.
pub mod Laws
pub mod Limits
mod Tests
use nimlib.Prelude.{
  ℕ, ◌+◌, ◌-◌, ◌/◌, ◌≡◌, ite, Bool, true, false, Option, none, some, List, [], ◌∷◌, ltb, leb,
  if◌then◌else◌,
}
use nimlib.Prelude.Map.{find}

-- The members of the class; the tables are references to constants.
pub record StateManager (T : Type 0) : Type 0 where
  pub state : T
  pub initial_state : T
  pub error_state : T
  pub transition_map : List (T × List T)
  pub msec_time_outs : List (T × ℕ)
  pub max_reset_counts : List (T × ℕ)
  pub reset_count : ℕ
  pub last_state_change : ℕ

-- What the clock shows during one call: when the call first asks whether the state has timed out,
-- when the member that it calls asks that again, and when it stores the time of the change.
pub record Readings : Type 0 where
  pub entry : ℕ
  pub check : ℕ
  pub stamp : ℕ

-- `duration_cast<milliseconds>(now - last).count()`. The steady clock does not go back.
abbrev pub msec_since : ℕ → ℕ → ℕ
msec_since now last = (now - last) / 1000000

-- The constructor.
unfoldable pub new :
    {T : Type 0} → T → T → List (T × List T) → List (T × ℕ) → List (T × ℕ) → ℕ → StateManager T
new initial error transitions resets time_outs now = record {
  state = initial;
  initial_state = initial;
  error_state = error;
  transition_map = transitions;
  msec_time_outs = time_outs;
  max_reset_counts = resets;
  reset_count = 0;
  last_state_change = now;
}

abbrev pub is_empty : {V : Type 0} → List V → Bool
is_empty [] = true
is_empty (x ∷ xs) = false

-- The comparisons with an entry of `msec_time_outs` and of `max_reset_counts`.
abbrev pub expired : Option ℕ → ℕ → Bool
expired none msec = false
expired (some limit) msec = leb limit msec

abbrev pub over : ℕ → Option ℕ → Bool
over count none = false
over count (some limit) = ltb limit count

module _ {T : Type 0} (eq : Discrete T) where
  -- The loop of `can_transition_to` over the successors of a state.
  unfoldable pub listed : T → List T → Bool
  listed t [] = false
  listed t (s ∷ ss) = ite (eq s t) true (listed t ss)

  unfoldable pub timed_out : StateManager T → ℕ → Bool
  timed_out m now =
      if is_empty m.msec_time_outs
      then false
      else ite (eq m.state m.error_state) false
          (expired (find eq m.state m.msec_time_outs) (msec_since now m.last_state_change))

  abbrev pub listed_in : T → Option (List T) → Bool
  listed_in t none = false
  listed_in t (some ss) = listed t ss

  unfoldable pub can_transition_to : StateManager T → T → ℕ → Bool
  can_transition_to m next now =
      if timed_out m now
      then false
      else ite (eq next m.error_state) true (listed_in next (find eq m.state m.transition_map))

  -- The branch of `reset_state` that counts.
  unfoldable pub count_reset : StateManager T → StateManager T
  count_reset m =
      if over (m.reset_count + 1) (find eq m.state m.max_reset_counts)
      then record m { state = m.error_state; reset_count = m.reset_count + 1 }
      else record m { reset_count = m.reset_count + 1 }

  -- `reset_state`, which reads the clock at `check` and stores `stamp`.
  unfoldable pub reset_state : StateManager T → ℕ → ℕ → StateManager T
  reset_state m check stamp =
      let next : StateManager T =
        ite (eq m.state m.error_state) (record m { state = m.error_state })
          (if timed_out m check then record m { state = m.error_state } else count_reset m) in
      record next { last_state_change = stamp }

  -- The body of the guard `state != error_state` of `set_state`.
  unfoldable pub change : StateManager T → T → Readings → StateManager T
  change m new_state r =
      if timed_out m r.entry
      then record m { state = m.error_state }
      else ite (eq new_state m.state) (reset_state m r.check r.check) (record m {
        state = if can_transition_to m new_state r.check then new_state else m.error_state;
        reset_count = 0;
      })

  unfoldable pub set_state : StateManager T → T → Readings → StateManager T
  set_state m new_state r =
      let next : StateManager T = ite (eq m.state m.error_state) m (change m new_state r) in
      record next { last_state_change = r.stamp }

  -- `clear`, which stores the time `stamp`.
  unfoldable pub clear : StateManager T → ℕ → StateManager T
  clear m stamp = record m { state = m.initial_state; reset_count = 0; last_state_change = stamp }

  -- `get_state` reads the clock at `now`, and by `set_state` at `r`; its result is `.state`.
  unfoldable pub get_state : StateManager T → ℕ → Readings → StateManager T
  get_state m now r = if timed_out m now then set_state m m.error_state r else m
