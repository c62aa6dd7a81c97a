-- ===== src/Http/Handler/Tests.antt =====
-- Requests to an `HttpHandler` of src/http/http.cpp with a router that gives one response.
use nimlib.Prelude.{ℕ, ◌≡◌, refl, inl, inr, false, Option, none, some, []}
use nimlib.Prelude.Text.{codes}
use nimlib.Constants.{
  HandlerState, ready_to_handle, finished_no_wait, finished_wait, recall, handler_error,
}
use nimlib.Utils.StateManager.{Readings}
use nimlib.Http.Parser.{Request, Response, parse_response}
use nimlib.Http.Parser.Tests.{get_text, got, parse_get, parse_empty}
use nimlib.Http.Handler.{HttpHandler, Notified, transition_map, text_of, state, notify}
use nimlib.Http.Handler.States.{IsHandler}
use nimlib.Http.Handler.Requests.{
  Answered, Keeps, first_request, bad_request, recalled, second_request,
}
use nimlib.Http.Handler.Sound.{IsSound}

abbrev page : Response
page = record {
  version = codes "HTTP/1.1";
  status = 200;
  reason = codes "OK";
  headers = [];
  body = codes "page";
}

-- The router asks to be called back, and counts its calls.
abbrev route_page : Request → Response → ℕ → Option (Option HandlerState × Response × ℕ)
route_page request response calls = some (some recall, page, 7)

abbrev clock : ℕ → Readings
clock i = record { entry = i; check = i; stamp = i }

abbrev in_state : HandlerState → Option Request → HttpHandler ℕ
in_state s request = record {
  state_manager = record {
    state = s;
    initial_state = ready_to_handle;
    error_state = handler_error;
    transition_map = transition_map;
    msec_time_outs = [];
    max_reset_counts = [];
    reset_count = 0;
    last_state_change = 0;
  };
  http_request = request;
  router = 0;
}

in_state-IsHandler :
    (s : HandlerState) (o : Option Request) → IsHandler (in_state s o).state_manager
in_state-IsHandler s o = record {
  error = refl;
  transitions = refl;
  limits = refl;
  time_outs = refl;
}

first_request_example :
    (a : Answered route_page 99 clock
      (in_state ready_to_handle none)
      get_text
      []
      (text_of (parse_response page))
      recall
      7)
    × Keeps route_page 99 clock got a
first_request_example =
    first_request route_page 99 clock (in_state ready_to_handle none) get_text [] got page 7 recall
      (in_state-IsHandler ready_to_handle none) refl refl parse_get refl (inr (inr refl))

bad_request_example :
    Answered route_page 99 clock (in_state ready_to_handle none) [] [] [] finished_no_wait 0
bad_request_example =
    bad_request route_page 99 clock (in_state ready_to_handle none) [] []
      (in_state-IsHandler ready_to_handle none) refl refl parse_empty

recalled_example :
    (a : Answered route_page 99 clock
      (in_state recall (some got))
      get_text
      get_text
      (codes "page")
      recall
      7)
    × Keeps route_page 99 clock got a
recalled_example =
    recalled route_page 99 clock (in_state recall (some got)) get_text got page 7 recall
      (in_state-IsHandler recall (some got)) refl refl refl (inr (inr refl))

second_request_example :
    (out : Notified ℕ) × (notify route_page 99 clock (in_state finished_wait none) get_text
      ≡ some out)
    × (state out.handler ≡ handler_error)
    × (out.source ≡ get_text)
    × (out.sink ≡ [])
    × (out.called_back ≡ false)
    × IsSound out.handler
    × (out.handler.router ≡ 0)
second_request_example =
    second_request route_page 99 clock (in_state finished_wait none) get_text
      (in_state-IsHandler finished_wait none) (inl refl) refl
