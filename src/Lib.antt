-- ===== src/Lib.antt =====
-- nimlib: an HTTP server over TCP that polls its sockets in one thread, and collects metrics.
--
-- The parts and how they interact:
--   `PollingServer` (src/polling_server.cpp) runs one loop. Each round lists the sockets of the
--   connections that are not inactive, polls them, accepts at most one connection into the pool, lets
--   every connection that is ready read or write, and cleans the pool up.
--   `TcpConnectionPool` (src/tcp_connection_pool.cpp) holds 65 connections, each at the index of its
--   socket's descriptor. It gives an accepted connection a new `HttpHandler`, and in `clean_up` calls
--   back the handlers that wait and halts the connections that are done or have failed.
--   `TcpConnection` (src/tcp_connection.cpp) is a state machine over a socket, two streams and a
--   handler. Its state is kept by a `StateManager`.
--   `HttpHandler` (src/http/http.cpp) is a state machine over a request, which it parses from the input
--   stream (src/http/parser.cpp) and gives to its `Router` (src/http/router.cpp). It prints the response
--   to the output stream and notifies the connection, which asks it how to go on.
--   `Router` finds the function for a method and a target in a tree of segments, and serves files, big
--   ones in chunks over several calls.
--   `StateManager` (src/utils/state_manager.h) is a state machine by tables, with time-outs and a limit
--   on repeated entries.
--   The sockets (src/tcp_socket.cpp) call the operating system. Each is decorated (src/decorations) so
--   that its calls are logged by an agent of the logger (src/logger), which the factory finds by its name
--   or makes; the server itself is decorated in the same way.
--   `TlsLayer` (src/tls/tls_layer.cpp) is a handler between a connection and another handler: a channel of
--   the Botan library decrypts what the connection has read and calls the layer back, with the
--   credentials that `CredentialsProvider` (src/tls/botan/credentials.cpp) loads. The pool does not
--   install it at present.
--   The metrics (src/metrics) are aggregators, the point metrics that hold them, and the time series
--   that keep the newest reports of a metric in rings (src/utils/circular_array.h).
--
-- Which file models which part:
--   Prelude, with Lists, Map, Int and Text: names of the library, lists, association lists, integers,
--     and texts as lists of bytes.
--   Constants: the enumerations of src/common/common.h.
--   Utils.StateManager: src/utils/state_manager.h (`set_state`, `reset_state`, `get_state`, `clear`,
--     `can_transition_to`, `timed_out`); its children are about sequences of calls.
--   Utils.CircularArray: src/utils/circular_array.h (`push_back`, `operator[]`, `copy`).
--   Utils.Timer: src/utils/timer.cpp. Utils.Helpers: src/utils/helpers.cpp (`split`, `read_chunk`).
--   Http.Parser: src/http/parser.cpp (`parse_request`, `parse_response`, the validators).
--   Http.Router: src/http/router.cpp (`Node::add`, `Node::find`, `add`, `sub_route`, and `choose` for the
--     lookup of `route`). Http.Router.Static: its static files, and `route` as a whole.
--   Http.Handler: src/http/http.cpp (`notify` and the four questions). Http.Routes: the routes that the
--     constructor of `HttpHandler` sets up.
--   Metrics.Aggregations: src/metrics/aggregations.h (`involve` and `get_val` of seven aggregators).
--   Metrics.Metric: src/metrics/metric.h (`receive` and `get_report` of both metrics).
--   Metrics.Store: src/metrics/metrics_store.h, builder.h and measure.h, and what test_run.cpp builds.
--   Connection: src/tcp_connection.cpp, one function for each member. Its handler is a state with the
--     operations of the record `Protocol`.
--   Pool: src/tcp_connection_pool.cpp. Server: src/polling_server.cpp (`run_once` is the body of the
--     loop; Pool.Recalling puts a round's `write` and `clean_up` of one connection together).
--     Server.Handlers makes `HttpHandler` a `Protocol`, and Server.Program gives it its routes.
--   Server.Listening: the constructor and the destructor of src/polling_server.cpp, and the server with a
--     logger of src/decorations.
--   Logging: src/logger (`Agent`, `Logger` and the factory).
--   Sockets: src/tcp_socket.cpp. Sockets.Logged: src/decorations/tcp_socket_with_logger.h and `decorate`.
--   Tls.Layer: src/tls/tls_layer.cpp and botan/callbacks.cpp. Tls.Credentials, with Making (what is loaded)
--     and Finding (what is looked up): src/tls/botan/credentials.cpp. Tls.Policy: botan/tls_policy.h.
--   Prelude.State: calls that change a state and may fail, for the sockets and the server around them.
--   Tests, in each of these modules: short runs of the definitions and applications of the theorems.
--
-- How the code is modelled:
--   A member function takes the state of its object and returns the new one; `none` is a failed
--   assertion, an exception, a null pointer that is followed or an access out of range, as the comment
--   of each file says. What the system returns is given to the calls: the readings of the clock, the
--   events of `poll`, the socket that `accept` returns, the bytes read, the result of each send, and the
--   file system. Hash maps are association lists, since the code does not depend on their order but for
--   the order of the header lines that it prints.
--   The sockets and the credentials are modelled over the calls that they make: the operating system is a
--   state with the operations of `Sockets.System`, and the Botan library is `Tls.Credentials.Botan` and
--   `Tls.Layer.Channel`; what a theorem needs of these is among its hypotheses. The logger is a state with
--   the lines printed so far. The models of the connection and of the server take what the socket returns
--   as given; a `send` that returns a number has taken as many of the first bytes that it is given.
--   Numbers are natural numbers and integers without a bound, where the program's counts and sums stay
--   below 2 ^ 63; what a subtraction or a comparison does at the ends of the range is written out.
--   Loops are recursion on the list or on a bound: the loop of `write` has one more round than there are
--   bytes to send, and each send that does not end it takes at least one; the loop over the chunks of a
--   file has two rounds, since it stops at even chunk numbers; the loops over the certificates of a file
--   and over the events of a channel have one round more than what Botan can still read or report; the
--   others are recursion on what is left to read.
--
-- What is not modelled:
--   The loop of `run` is modelled by the rounds given, since it never ends; the destructors behind it are
--   modelled on their own. The store of metrics is not part of the state of the server: a connection keeps
--   a list of the durations that it forwards, and the report for a request, or that it faults, is a
--   parameter of the routes. The
--   empty callbacks of TLS and the declarations without code of src/common/types.h are left out, as are
--   the move operations of `TcpSocket`, which are declared and not defined.
pub mod Prelude
pub mod Constants
pub mod Utils
pub mod Http
pub mod Metrics
pub mod Logging
pub mod Sockets
pub mod Tls
pub mod Connection
pub mod Pool
pub mod Server
