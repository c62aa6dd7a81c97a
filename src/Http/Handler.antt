-- ===== src/Http/Handler.antt =====
-- src/http/http.h and http.cpp: `HttpHandler`, and the tables of its base class in
-- src/common/types.h.
--
-- The router is a state `R` with its function `route`, whose result `none` is an exception. The
-- clock shows `clock i` during the call number `i` of the state manager within one call. A new
-- `Response` has no `status` set: it holds the number `garbage`.
pub mod States
pub mod Sound
pub mod Requests
mod Tests
use nimlib.Prelude.{
  ℕ, ◌≡◌, Bool, true, false, ◌||◌, Option, none, some, List, [], ◌∷◌, ◌++◌, ite, if◌then◌else◌,
}
use nimlib.Prelude.Text.{Text, codes}
use nimlib.Constants.{
  HandlerState, HandlerState-discrete, ready_to_handle, h_handling, finished_no_wait, finished_wait,
  recall, incomplete_input, handler_error,
}
use nimlib.Utils.StateManager
use nimlib.Utils.StateManager.{StateManager, Readings, set_state, get_state}
use nimlib.Http.Parser.{Request, Response, parse_request, parse_response}

-- `Handler::transition_map`; the other two tables are empty.
abbrev pub transition_map : List (HandlerState × List HandlerState)
transition_map =
    (ready_to_handle, h_handling ∷ [])
    ∷ (h_handling, finished_wait ∷ finished_no_wait ∷ recall ∷ incomplete_input ∷ [])
    ∷ (incomplete_input, finished_wait ∷ finished_no_wait ∷ recall ∷ [])
    ∷ (finished_no_wait, ready_to_handle ∷ [])
    ∷ (finished_wait, ready_to_handle ∷ [])
    ∷ (recall, finished_wait ∷ finished_no_wait ∷ [])
    ∷ []

-- `Handler::state_manager` of a new handler.
unfoldable pub new_manager : ℕ → StateManager HandlerState
new_manager now = StateManager.new ready_to_handle handler_error transition_map [] [] now

pub record HttpHandler (R : Type 0) : Type 0 where
  pub state_manager : StateManager HandlerState
  pub http_request : Option Request
  pub router : R

-- What a call of `notify` leaves: the handler, the text that is left in the source, the text that it
-- has written to the sink, and whether its last act was to notify the caller.
pub record Notified (R : Type 0) : Type 0 where
  pub handler : HttpHandler R
  pub source : Text
  pub sink : Text
  pub called_back : Bool

abbrev pub is_state : HandlerState → HandlerState → Bool
is_state a b = ite (HandlerState-discrete a b) true false

abbrev pub new_response : ℕ → Response
new_response garbage = record {
  version = codes "HTTP/1.1";
  status = garbage;
  reason = [];
  headers = [];
  body = [];
}

-- `routing_result && routing_result.value() != other`, and the value.
abbrev pub unless : HandlerState → Option HandlerState → Option HandlerState
unless other none = none
unless other (some s) = if is_state s other then none else some s

-- `response_opt`, behind its test: `parse_response` always gives a text.
abbrev pub text_of : Option Text → Text
text_of none = []
text_of (some t) = t

-- `HandlerState::FINISHED_NO_WAIT`, `FINISHED_WAIT` and `HANDLER_ERROR` end a request.
unfoldable pub is_over : HandlerState → Bool
is_over s = is_state s finished_no_wait || is_state s finished_wait || is_state s handler_error

module _ {R : Type 0} where
  unfoldable pub set : HttpHandler R → HandlerState → Readings → HttpHandler R
  set h s r = record h { state_manager = set_state HandlerState-discrete h.state_manager s r }

  -- `state_manager.get_state()`, which may change the state.
  unfoldable pub get : HttpHandler R → Readings → HttpHandler R
  get h r = record h { state_manager = get_state HandlerState-discrete h.state_manager r.entry r }

  abbrev pub state : HttpHandler R → HandlerState
  state h = h.state_manager.state

  unfoldable pub forget : HttpHandler R → HttpHandler R
  forget h = if is_over (state h) then record h { http_request = none } else h

  -- The end of `notify`.
  unfoldable pub conclude : HttpHandler R → Text → Text → Readings → Notified R
  conclude h source sink r = record {
    handler = forget (get h r);
    source = source;
    sink = sink;
    called_back = true;
  }

module _ {R : Type 0} (route : Request → Response → R → Option (Option HandlerState × Response × R))
    (garbage : ℕ) (clock : ℕ → Readings) where
  -- What the first call writes, and the state that it sets: without a state to set the request is
  -- over.
  unfoldable pub answer : HttpHandler R → Text → Text → Option HandlerState → Notified R
  answer h source printed none = conclude (set h finished_no_wait (clock 1)) source [] (clock 2)
  answer h source printed (some s) = conclude (set h s (clock 1)) source printed (clock 2)

  -- What a later call writes, and the state that it sets, if there is one.
  unfoldable pub continue_in : HttpHandler R → Text → Text → Option HandlerState → Notified R
  continue_in h source body none = conclude h source [] (clock 2)
  continue_in h source body (some s) = conclude (set h s (clock 1)) source body (clock 2)

  -- The first response to a request, from the result of the router.
  unfoldable pub respond :
      HttpHandler R → Text → Option (Option HandlerState × Response × R) → Option (Notified R)
  respond h source none = none
  respond h source (some (result, response, router)) = some (
      answer (record h { router = router }) source (text_of (parse_response response))
        (unless incomplete_input result))

  -- The branch for new data, behind the check of the state.
  unfoldable pub handle_new : HttpHandler R → Option Request × Text → Option (Notified R)
  handle_new h (none, source) = some (
      conclude (set (record h { http_request = none }) finished_no_wait (clock 1)) source []
        (clock 2))
  handle_new h (some request, source) =
      respond (record h { http_request = some request }) source
        (route request (new_response garbage) h.router)

  -- The branch for a request that is being served: more of the body.
  unfoldable pub continue_with :
      HttpHandler R → Text → Option (Option HandlerState × Response × R) → Option (Notified R)
  continue_with h source none = none
  continue_with h source (some (result, response, router)) = some (
      continue_in (record h { router = router }) source response.body (unless handler_error result))

  -- The branch for new data. In the error state nothing is read, and nobody is notified.
  unfoldable pub start : HttpHandler R → Text → Option (Notified R)
  start h source =
      if is_state (state h) handler_error
      then some (record { handler = h; source = source; sink = []; called_back = false })
      else handle_new h (parse_request source)

  unfoldable pub notify_request : HttpHandler R → Option Request → Text → Option (Notified R)
  notify_request h none source = start (set h h_handling (clock 0)) source
  notify_request h (some request) source =
      continue_with (get h (clock 0)) source (route request (new_response garbage) h.router)

  -- `notify(connection, streams)`.
  unfoldable pub notify : HttpHandler R → Text → Option (Notified R)
  notify h source = notify_request h h.http_request source

  -- `notify(handler, connection, streams)`: the same, but that its last act is to notify the handler
  -- that called it.
  unfoldable pub notify_by_handler : HttpHandler R → Text → Option (Notified R)
  notify_by_handler h source = notify_request h h.http_request source

module _ {R : Type 0} (r : Readings) where
  unfoldable pub wants_more_bytes : HttpHandler R → Bool
  wants_more_bytes h = is_state (state (get h r)) incomplete_input

  unfoldable pub wants_to_write : HttpHandler R → Bool
  wants_to_write h = is_state (state (get h r)) finished_no_wait

  unfoldable pub wants_to_live : HttpHandler R → Bool
  wants_to_live h = is_state (state (get h r)) finished_wait

  unfoldable pub wants_to_be_calledback : HttpHandler R → Bool
  wants_to_be_calledback h = is_state (state (get h r)) recall
