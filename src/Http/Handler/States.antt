-- ===== src/Http/Handler/States.antt =====
-- The state of an `HttpHandler` under the tables of src/common/types.h.
use nimlib.Prelude.{ℕ, ◌≡◌, ◌∙◌, true, false, [], ite, arith, if◌then◌else◌}
use nimlib.Prelude.Map.{find}
use nimlib.Constants.{HandlerState, HandlerState-discrete, handler_error}
use nimlib.Utils.StateManager.{
  StateManager, Readings, listed_in, timed_out, can_transition_to, count_reset, reset_state, change,
  set_state, get_state,
}
use nimlib.Utils.StateManager.Laws.{set_state-Follows}
use nimlib.Http.Handler.{transition_map, is_state}

-- The manager has the tables of `Handler`.
pub record IsHandler (m : StateManager HandlerState) : Type 0 where
  pub error : m.error_state ≡ handler_error
  pub transitions : m.transition_map ≡ transition_map
  pub limits : m.max_reset_counts ≡ []
  pub time_outs : m.msec_time_outs ≡ []

-- The state after `set_state(t)` in the state `s`.
unfoldable pub next_state : HandlerState → HandlerState → HandlerState
next_state s t =
    if is_state s handler_error
    then handler_error
    else if is_state t s
    then s
    else if is_state t handler_error
    then handler_error
    else if listed_in HandlerState-discrete t (find HandlerState-discrete s transition_map)
    then t
    else handler_error

pub timed_out-Handler :
    (m : StateManager HandlerState) (now : ℕ)
    → IsHandler m
    → timed_out HandlerState-discrete m now ≡ false
unfolding timed_out
timed_out-Handler m now h = rw h.time_outs

pub get_state-Handler :
    (m : StateManager HandlerState) (now : ℕ) (r : Readings)
    → IsHandler m
    → get_state HandlerState-discrete m now r ≡ m
unfolding get_state
get_state-Handler m now r h = rw (timed_out-Handler m now h)

pub set_state-IsHandler :
    (m : StateManager HandlerState) (t : HandlerState) (r : Readings)
    → IsHandler m
    → IsHandler (set_state HandlerState-discrete m t r)
set_state-IsHandler m t r h =
    let s = (set_state-Follows HandlerState-discrete m t r).tables in
    record {
      error = s.error ∙ h.error;
      transitions = s.transitions ∙ h.transitions;
      limits = s.limits ∙ h.limits;
      time_outs = s.time_outs ∙ h.time_outs;
    }

reset_state-Handler :
    (m : StateManager HandlerState) (check stamp : ℕ)
    → IsHandler m
    → (reset_state HandlerState-discrete m check stamp).state ≡ m.state
unfolding reset_state count_reset find
reset_state-Handler m check stamp h = ground (arith, timed_out-Handler m check h, h.limits, h.error)

can_transition_to-Handler :
    (m : StateManager HandlerState) (t : HandlerState) (now : ℕ)
    → IsHandler m
    → can_transition_to HandlerState-discrete m t now
      ≡ ite
          (HandlerState-discrete t handler_error)
          true
          (listed_in HandlerState-discrete t (find HandlerState-discrete m.state transition_map))
unfolding can_transition_to
can_transition_to-Handler m t now h = rw (timed_out-Handler m now h, h.error, h.transitions)

pub set_state-Handler :
    (m : StateManager HandlerState) (t : HandlerState) (r : Readings)
    → IsHandler m
    → (set_state HandlerState-discrete m t r).state ≡ next_state m.state t
unfolding set_state change next_state
set_state-Handler m t r h = ground (
  arith,
  timed_out-Handler m r.entry h,
  reset_state-Handler m r.check r.check h,
  can_transition_to-Handler m t r.check h,
  h.error,
)
