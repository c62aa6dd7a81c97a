-- ===== src/Server.antt =====
-- src/polling_server.h and polling_server.cpp: `PollingServer`.
--
-- The server is the state of its pool; `server_fd` is the descriptor of its socket. What the calls
-- outside return is given to a round: the events that `poll` finds for the entry number `n`, the
-- descriptor of the socket that `tcp_accept` returns (`none` is a null pointer), and what the socket
-- of each descriptor returns. `none` is a failed assertion, an access out of range or a failure
-- within a connection.
pub mod Safety
pub mod Handlers
pub mod Exchange
pub mod Program
pub mod Listening
pub mod Life
mod Tests
use nimlib.Prelude.{
  ℕ, zero, suc, ◌+◌, ◌≡◌, Bool, true, false, Option, none, some, List, [], ◌∷◌, if◌then◌else◌, ltb,
  get_elem?, set,
}
use nimlib.Prelude.Int.{ℤ}
use nimlib.Prelude.Text.{Text}
use nimlib.Constants.{
  ServerDirective, read_socket, write_socket, ConnectionState, ready_to_read, ready_to_write,
  inactive,
}
use nimlib.Utils.StateManager.{Readings}
use nimlib.Connection
use nimlib.Connection.{Protocol, TcpConnection, Sends, is_state, state}
use nimlib.Pool

-- The events of an entry of the vector: `revents & POLLIN` and `revents & POLLOUT`.
pub record Events : Type 0 where
  pub input : Bool
  pub output : Bool

-- What the socket of one descriptor returns to `tcp_read` and to each `tcp_send`.
pub record Traffic : Type 0 where
  pub bytes_count : ℤ
  pub buff : Text
  pub sends : Sends

-- What a round of `run` gets from outside; the clock of each step by the connection and the reading.
pub record Round : Type 0 where
  pub events : ℕ → Events
  pub accepted : Option ℕ
  pub traffic : ℕ → Traffic
  pub setup_clock : ℕ → Readings
  pub accept_clock : Readings
  pub handle_clock : ℕ → ℕ → Readings
  pub tidy_clock : ℕ → ℕ → Readings

unfoldable pub allowed_to_read : ConnectionState → Bool
allowed_to_read s = is_state s ready_to_read

unfoldable pub allowed_to_write : ConnectionState → Bool
allowed_to_write s = is_state s ready_to_write

module _ {S : Type 0} where
  -- The connection, whose state `get_state` may change, before those behind it, and its descriptor
  -- before theirs unless it is inactive.
  abbrev pub listed_before :
      TcpConnection S
      → Option (List (TcpConnection S) × List ℕ)
      → Option (List (TcpConnection S) × List ℕ)
  listed_before c none = none
  listed_before c (some (cs, fds)) =
      if is_state (state c) inactive
      then some (c ∷ cs, fds)
      else if ltb 0 c.id
      then some (c ∷ cs, c.id ∷ fds)
      else none

  unfoldable pub list_connections :
      List (TcpConnection S) → ℕ → (ℕ → Readings) → Option (List (TcpConnection S) × List ℕ)
  list_connections [] i clock = some ([], [])
  list_connections (c ∷ cs) i clock =
      listed_before (Connection.get_connection_state c (clock i))
        (list_connections cs (i + 1) clock)

  -- `setup_fds(sockets)`: the descriptors of the entries behind that of the server.
  unfoldable pub setup_fds :
      List (TcpConnection S) → (ℕ → Readings) → Option (List (TcpConnection S) × List ℕ)
  setup_fds pool clock = list_connections pool 0 clock

  -- `accept_new_connection(sockets)`.
  unfoldable pub accept_new_connection :
      List (TcpConnection S) → Bool → Option ℕ → S → Readings → Option (List (TcpConnection S))
  accept_new_connection pool input accepted fresh r =
      if input then Pool.record_connection pool accepted fresh r else some pool

module _ {S : Type 0} (protocol : Protocol S) where
  -- `connection->notify(directive)` if the event is there and the state allows it.
  unfoldable pub notify_if :
      Bool → TcpConnection S → ServerDirective → Traffic → (ℕ → Readings) → Option (TcpConnection S)
  notify_if b c directive traffic clock =
      if b
      then Connection.notify protocol c directive traffic.bytes_count traffic.buff traffic.sends
          clock
      else some c

  abbrev pub then_notify_if :
      Option (TcpConnection S)
      → Bool
      → ServerDirective
      → Traffic
      → (ℕ → Readings)
      → Option (TcpConnection S)
  then_notify_if none b directive traffic clock = none
  then_notify_if (some c) b directive traffic clock = notify_if b c directive traffic clock

  -- The body of `handle_connections`, where `get_state` has returned the state of `c`: it reads and
  -- writes by that state. A reading call takes four readings of the clock.
  unfoldable pub serve :
      TcpConnection S → Events → Traffic → (ℕ → Readings) → Option (TcpConnection S)
  serve c events traffic clock =
      then_notify_if
        (notify_if (if events.input then allowed_to_read (state c) else false) c read_socket traffic
          clock)
        (if events.output then allowed_to_write (state c) else false) write_socket traffic
        (λ j. clock (j + 4))

  abbrev pub put_back :
      List (TcpConnection S) → ℕ → Option (TcpConnection S) → Option (List (TcpConnection S))
  put_back pool fd none = none
  put_back pool fd (some c) = some (set pool fd c)

  abbrev pub handle_found :
      List (TcpConnection S)
      → ℕ
      → Events
      → Traffic
      → (ℕ → Readings)
      → Option (TcpConnection S)
      → Option (List (TcpConnection S))
  handle_found pool fd events traffic clock none = none
  handle_found pool fd events traffic clock (some c) =
      put_back pool fd
        (serve (Connection.get_connection_state c (clock 0)) events traffic (λ j. clock (j + 1)))

  abbrev pub followed :
      (List (TcpConnection S) → Option (List (TcpConnection S)))
      → Option (List (TcpConnection S))
      → Option (List (TcpConnection S))
  followed f none = none
  followed f (some pool) = f pool

  -- `handle_connections(sockets)`, from the entry number `n` on.
  unfoldable pub handle_connections :
      List ℕ → ℕ → Round → List (TcpConnection S) → Option (List (TcpConnection S))
  handle_connections [] n r pool = some pool
  handle_connections (fd ∷ fds) n r pool =
      followed (handle_connections fds (n + 1) r)
        (handle_found pool fd (r.events n) (r.traffic fd) (r.handle_clock fd) (Pool.find pool fd))

  abbrev pub behind_setup :
      S → Round → Option (List (TcpConnection S) × List ℕ) → Option (List (TcpConnection S))
  behind_setup fresh r none = none
  behind_setup fresh r (some (pool, fds)) =
      followed (λ p. Pool.clean_up protocol p r.tidy_clock)
        (followed (handle_connections fds 1 r)
          (accept_new_connection pool (r.events 0).input r.accepted fresh r.accept_clock))

  -- The body of the loop of `run`.
  unfoldable pub run_once : S → Round → List (TcpConnection S) → Option (List (TcpConnection S))
  run_once fresh r pool = behind_setup fresh r (setup_fds pool r.setup_clock)

  -- The loop of `run` for the rounds given. Each accepted socket has a handler of its own.
  unfoldable pub run : List (S × Round) → List (TcpConnection S) → Option (List (TcpConnection S))
  run [] pool = some pool
  run ((fresh, r) ∷ rounds) pool = followed (run rounds) (run_once fresh r pool)
