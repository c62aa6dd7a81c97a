-- ===== src/Server/Tests.antt =====
-- Rounds of the server of src/polling_server.cpp, and one request.
use nimlib.Prelude.{inr, ℕ, ◌≡◌, refl, inl, true, false, Option, none, some, List, [], ◌∷◌, arith}
use nimlib.Prelude.Int.{pos}
use nimlib.Prelude.Text.{codes}
use nimlib.Constants.{HandlerState, finished_no_wait, ready_to_read, inactive, connection_error}
use nimlib.Utils.StateManager.{Readings}
use nimlib.Http.Parser.{Request, Response, parse_response}
use nimlib.Http.Parser.Tests.{get_text, got, parse_get}
use nimlib.Http.Handler.{HttpHandler, text_of}
use nimlib.Connection.{
  TcpConnection, Sends, states_transition_map, max_reset_counts, state_time_outs,
}
use nimlib.Connection.States.{IsPrompt, IsLive}
use nimlib.Connection.Sending.{AreSends}
use nimlib.Pool.{new_pool}
use nimlib.Server.{Round, run}
use nimlib.Server.Safety.{IsPool, IsRound}
use nimlib.Http.Router.{Router}
use nimlib.Http.Router.Static.{RouteHandler}
use nimlib.Http.Routes.{default_router}
use nimlib.Http.Routes.Tests.{no_files}
use nimlib.Server.Handlers.{
  IsWorking, http_protocol, new_handler, new_handler-IsSound, RouterAnswers, run_http-IsPool,
}
use nimlib.Server.Exchange.{TakesAll, Exchanged, accepted, exchange}
use nimlib.Prelude.State.{◌>>=◌}
use nimlib.Logging.{Logger, new_logger}
use nimlib.Logging.Registry.{IsLogger, new_logger-IsLogger}
use nimlib.Sockets.Tests.{counting, noon}
use nimlib.Server.Listening.{without_port, new_polling_server, destroy_polling_server}
use nimlib.Server.Life.{server_life}

abbrev page : Response
page = record {
  version = codes "HTTP/1.1";
  status = 200;
  reason = codes "OK";
  headers = [];
  body = codes "page";
}

abbrev route_page : Request → Response → ℕ → Option (Option HandlerState × Response × ℕ)
route_page request response calls = some (some finished_no_wait, page, 7)

abbrev now_at : Readings
now_at = record { entry = 1; check = 1; stamp = 1 }

abbrev clock : ℕ → Readings
clock i = now_at

abbrev clocks : ℕ → ℕ → Readings
clocks i j = now_at

now_at-IsPrompt : IsPrompt 0 now_at × IsPrompt 1 now_at
now_at-IsPrompt = (
  record { entry = omega arith; check = omega arith; stamp = omega arith },
  record { entry = omega arith; check = omega arith; stamp = omega arith },
)

abbrev bytewise : Sends
bytewise i n = pos 1

bytewise-TakesAll : TakesAll bytewise
bytewise-TakesAll j n h = (1, refl, omega arith, h)

bytewise-AreSends : AreSends bytewise
bytewise-AreSends j n h = (omega arith, h)

-- A connection is announced, accepted as the descriptor 5, and everything is ready.
abbrev busy_round : Round
busy_round = record {
  events = λ n. record { input = true; output = true };
  accepted = some 5;
  traffic = λ fd. record { bytes_count = pos 40; buff = get_text; sends = bytewise };
  setup_clock = clock;
  accept_clock = now_at;
  handle_clock = clocks;
  tidy_clock = clocks;
}

-- Every router is good.
abbrev Any : ℕ → Type 0
Any router = Unit

new_handler-Any : IsWorking route_page 99 clock now_at Any (new_handler 0 0)
unfolding new_handler
new_handler-Any = record { sound = (new_handler-IsSound 0 0).0; good = tt }

busy_round-IsRound :
    {S : Type 0} (Good : S → Type 0) (fresh : S) → Good fresh → IsRound Good fresh busy_round
busy_round-IsRound Good fresh good = record {
  good = good;
  accepted = λ e. (5, refl, omega arith, omega arith);
  sends = λ fd. bytewise-AreSends;
}

route_page-RouterAnswers : RouterAnswers route_page 99 clock now_at Any
route_page-RouterAnswers q router good =
    (some finished_no_wait, page, 7, refl, inr (finished_no_wait, refl, inl refl), tt)

run_http-IsPool_example :
    (pool : List (TcpConnection (HttpHandler ℕ))) × (run
        (http_protocol route_page 99 clock now_at)
        ((new_handler 0 0, busy_round) ∷ (new_handler 0 0, busy_round) ∷ [])
        (new_pool clock)
      ≡ some pool)
    × IsPool (IsWorking route_page 99 clock now_at Any) pool
run_http-IsPool_example =
    run_http-IsPool route_page 99 clock now_at Any clock
      ((new_handler 0 0, busy_round) ∷ (new_handler 0 0, busy_round) ∷ []) route_page-RouterAnswers
      (λ j. now_at-IsPrompt.1)
      (
        busy_round-IsRound (IsWorking route_page 99 clock now_at Any) (new_handler 0 0)
            new_handler-Any,
        (
          busy_round-IsRound (IsWorking route_page 99 clock now_at Any) (new_handler 0 0)
              new_handler-Any,
          tt,
        ),
      )

abbrev routes : Router RouteHandler
routes = default_router no_files (some (codes "none"))

abbrev beyond : Option ℕ
beyond = some 65

abbrev idle : (S : Type 0) → TcpConnection S
idle S = record {
  id = 5;
  buffer_size = 1000;
  connection_state = record {
    state = inactive;
    initial_state = ready_to_read;
    error_state = connection_error;
    transition_map = states_transition_map;
    msec_time_outs = state_time_outs;
    max_reset_counts = max_reset_counts;
    reset_count = 0;
    last_state_change = 0;
  };
  input_stream = [];
  output_stream = [];
  socket = false;
  handler = none;
  timer = record { start_point = 0; timing = false };
  measured = [];
}

idle-IsLive : (S : Type 0) → IsLive 0 (idle S)
idle-IsLive S = record {
  tables = record {
    initial = refl;
    error = refl;
    transitions = refl;
    limits = refl;
    time_outs = refl;
  };
  changed = omega arith;
}

exchange_example :
    Exchanged route_page 99 clock now_at 0
      (accepted route_page 99 clock now_at 0 (idle (HttpHandler ℕ)) 0 0 now_at)
      100
      get_text
      bytewise
      clocks
      (text_of (parse_response page))
exchange_example =
    exchange route_page 99 clock now_at 0 (idle (HttpHandler ℕ)) 0 7 0 100 get_text [] bytewise
      now_at clocks got page (idle-IsLive (HttpHandler ℕ)) now_at-IsPrompt.0
      (λ i j. now_at-IsPrompt.0) refl refl refl bytewise-TakesAll parse_get refl

server_life_example :
    ((after : Logger) × ((new_polling_server counting noon (codes "8080")
            >>= destroy_polling_server counting noon)
          (0, new_logger)
        ≡ some (tt, (6, after)))
      × IsLogger after)
    × ((new_polling_server counting noon (codes "8080") >>= λ s.
            destroy_polling_server counting noon (without_port s))
          (0, new_logger)
        ≡ none)
server_life_example =
    server_life counting noon (codes "8080") 7 (pos 3) 0 1 2 new_logger new_logger-IsLogger refl
      refl
