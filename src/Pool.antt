-- ===== src/Pool.antt =====
-- src/tcp_connection_pool.h and tcp_connection_pool.cpp: `TcpConnectionPool`.
--
-- The pool is the vector of its connections; the static one of `get_pool` is the state that the calls
-- pass on. `fresh` is a new handler. The clock shows `clock i j` to the connection number `i` at its
-- reading number `j`. `none` is an access out of range, a null pointer that is followed, or a failure
-- of the connection.
pub mod Standing
pub mod Kept
pub mod Recalling
mod Tests
use nimlib.Prelude.{
  ℕ, zero, suc, ◌+◌, ◌≡◌, Bool, true, false, ◌||◌, Option, none, some, List, [], ◌∷◌, if◌then◌else◌,
  get_elem?, set,
}
use nimlib.Prelude.Int.{pos}
use nimlib.Constants.{continue_handling, ConnectionState, handling, done, connection_error}
use nimlib.Utils.StateManager.{Readings}
use nimlib.Connection
use nimlib.Connection.{Protocol, TcpConnection, is_state, state}

-- `CONNECTIONS`, and the default of `buffer_size`.
abbrev pub connection_count : ℕ
connection_count = 65

abbrev pub default_buffer_size : ℕ
default_buffer_size = 10240

module _ {S : Type 0} where
  -- The loop of the constructor, from the connection `i` on with `count` connections to make.
  unfoldable pub make_connections : ℕ → ℕ → (ℕ → Readings) → List (TcpConnection S)
  make_connections zero i clock = []
  make_connections (suc count) i clock =
      Connection.new_inactive i default_buffer_size (clock i) ∷ make_connections count (i + 1) clock

  unfoldable pub new_pool : (ℕ → Readings) → List (TcpConnection S)
  new_pool clock = make_connections connection_count 0 clock

  abbrev pub accepted_at :
      List (TcpConnection S)
      → ℕ
      → S
      → Readings
      → Option (TcpConnection S)
      → Option (List (TcpConnection S))
  accepted_at pool fd fresh r none = none
  accepted_at pool fd fresh r (some c) =
      some (set pool fd (Connection.set_handler (Connection.accept_socket c true r) (some fresh)))

  -- `record_connection(s)`, by the descriptor of the socket, where `none` is a null pointer.
  unfoldable pub record_connection :
      List (TcpConnection S) → Option ℕ → S → Readings → Option (List (TcpConnection S))
  record_connection pool none fresh r = none
  record_connection pool (some fd) fresh r = accepted_at pool fd fresh r (get_elem? pool fd)

  unfoldable pub find : List (TcpConnection S) → ℕ → Option (TcpConnection S)
  find pool id = get_elem? pool id

module _ {S : Type 0} (protocol : Protocol S) where
  -- The body of the loop of `clean_up`, with the state that `get_state` has returned.
  unfoldable pub tidy : TcpConnection S → (ℕ → Readings) → Option (TcpConnection S)
  tidy c clock =
      if is_state (state c) handling
      then Connection.notify protocol c continue_handling (pos 0) [] (λ i n. pos 0) clock
      else if is_state (state c) connection_error || is_state (state c) done
      then some (Connection.halt c clock)
      else some c

  unfoldable pub clean_up_one : TcpConnection S → (ℕ → Readings) → Option (TcpConnection S)
  clean_up_one c clock = tidy (Connection.get_connection_state c (clock 0)) (λ j. clock (j + 1))

  abbrev pub joined :
      Option (TcpConnection S) → Option (List (TcpConnection S)) → Option (List (TcpConnection S))
  joined none rest = none
  joined (some c) none = none
  joined (some c) (some cs) = some (c ∷ cs)

  unfoldable pub clean_up_from :
      List (TcpConnection S) → ℕ → (ℕ → ℕ → Readings) → Option (List (TcpConnection S))
  clean_up_from [] i clock = some []
  clean_up_from (c ∷ cs) i clock =
      joined (clean_up_one c (clock i)) (clean_up_from cs (i + 1) clock)

  unfoldable pub clean_up :
      List (TcpConnection S) → (ℕ → ℕ → Readings) → Option (List (TcpConnection S))
  clean_up pool clock = clean_up_from pool 0 clock
