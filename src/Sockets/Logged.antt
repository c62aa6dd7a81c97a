-- ===== src/Sockets/Logged.antt =====
-- src/decorations/tcp_socket_with_logger.h: `TcpSocketWithLogger`, around any socket; and `decorate` of
-- src/common/decorators.h.
--
-- A call changes the state of the operating system and the logger. The members of the interface
-- `Socket` (src/common/types.h) are recursion on the socket: the decorator calls the socket inside.
use nimlib.Prelude.{ℕ, Bool, false, Option, none, some, ◌++◌, ◌==◌, if◌then◌else◌}
use nimlib.Prelude.Int.{ℤ, pos, negsuc, ltb_ℤ}
use nimlib.Prelude.Text.{Text, codes, print_integer}
use nimlib.Prelude.State.{M, pure, fault, ◌>>=◌, ◌>>◌}
use nimlib.Constants.{LogLevel, info, error}
use nimlib.Logging.{Logger, log, get_agent}
use nimlib.Sockets
use nimlib.Sockets.{System, TcpSocket, close_socket}

-- `with_logger port tcp_socket_descriptor tcp_socket log_agent`, where the agent is a pointer.
pub data Socket (Address : Type 0) : Type 0 where
  tcp : TcpSocket Address → Socket Address
  with_logger : Option Text → ℤ → Socket Address → Option ℕ → Socket Address

-- The operating system and the logger.
abbrev pub World : Type 0 → Type 0
World W = W × Logger

module _ {W : Type 0} where
  -- A call of the operating system alone.
  abbrev pub keeping_log : {A : Type 0} → Logger → Option (A × W) → Option (A × World W)
  keeping_log l none = none
  keeping_log l (some (a, w)) = some (a, (w, l))

  abbrev pub outside : {A : Type 0} → M W A → M (World W) A
  outside m (w, l) = keeping_log l (m w)

  -- A call of the logger alone.
  abbrev pub keeping_world : W → Option Logger → Option (Unit {0} × World W)
  keeping_world w none = none
  keeping_world w (some l) = some (tt, (w, l))

  -- `log_agent->info(text)` and `log_agent->error(text)`, as calls of `log` at that level; `none` is
  -- no call at all.
  unfoldable pub tell :
      (ℕ → Text × Text) → Option ℕ → Option (LogLevel × Text) → M (World W) (Unit {0})
  tell now agent none = pure tt
  tell now none (some message) = fault
  tell now (some ptr) (some (level, text)) = λ (w, l). keeping_world w (log now ptr level text l)

  -- A message that formats `port`.
  unfoldable pub tell_port :
      (ℕ → Text × Text) → Option ℕ → Option Text → (Text → LogLevel × Text) → M (World W) (Unit {0})
  unfolding tell
  tell_port now agent none message = fault
  tell_port now agent (some port) message = tell now agent (some (message port))

abbrev is_zero : ℤ → Bool
is_zero (pos n) = n == 0
is_zero (negsuc n) = false

module _ (descriptor : ℤ) where
  abbrev bind_message : ℤ → Text → LogLevel × Text
  bind_message bind_result port =
      if is_zero bind_result
      then (info, codes "bound socket " ++ print_integer descriptor ++ codes " to port " ++ port)
      else (
        error,
        codes "failed to bind socket " ++ print_integer descriptor ++ codes " to port " ++ port,
      )

  abbrev listen_message : ℤ → Text → LogLevel × Text
  listen_message listen_result port =
      if ltb_ℤ listen_result (pos 0)
      then (
        error,
        codes "socket "
            ++ print_integer descriptor
            ++ codes " failed to start listening on port "
            ++ port,
      )
      else (
        info,
        codes "socket " ++ print_integer descriptor ++ codes " listening on port " ++ port,
      )

  abbrev pub accept_message : {A : Type 0} → Option A → LogLevel × Text
  accept_message (some s) =
      (info, codes "TCP socket " ++ print_integer descriptor ++ codes " accepted new connection")
  accept_message none = (
    error,
    codes "TCP socket " ++ print_integer descriptor ++ codes " failed to accept new connection",
  )

  abbrev pub closing_message : Text → LogLevel × Text
  closing_message port =
      (info, codes "closing socket " ++ print_integer descriptor ++ codes " bound to port")

  abbrev pub close_message : LogLevel × Text
  close_message = (info, codes "TCP socket " ++ print_integer descriptor ++ codes " closing")

  abbrev pub read_message : ℤ → LogLevel × Text
  read_message bytes_count = (
    info,
    codes "read "
        ++ print_integer bytes_count
        ++ codes " bytes from socket "
        ++ print_integer descriptor,
  )

  abbrev send_message : ℤ → Option (LogLevel × Text)
  send_message bytes_count =
      if ltb_ℤ (pos 0) bytes_count
      then some (
        info,
        codes "wrote "
            ++ print_integer bytes_count
            ++ codes " bytes to socket "
            ++ print_integer descriptor,
      )
      else none

module _ {Address : Type 0} where
  unfoldable pub get_tcp_socket_descriptor : Socket Address → ℤ
  get_tcp_socket_descriptor (tcp s) = s.tcp_socket_descriptor
  get_tcp_socket_descriptor (with_logger port descriptor s agent) = get_tcp_socket_descriptor s

  unfoldable pub get_port : Socket Address → Option Text
  get_port (tcp s) = s.port
  get_port (with_logger port descriptor s agent) = get_port s

  abbrev pub as_socket : Option (TcpSocket Address) → Option (Socket Address)
  as_socket none = none
  as_socket (some s) = some (tcp s)

module _ {W Address : Type 0} (os : System W Address) (now : ℕ → Text × Text) where
  abbrev pub kept_agent :
      Socket Address → W → Option (Option ℕ × Logger) → Option (Socket Address × World W)
  kept_agent s w none = none
  kept_agent s w (some (agent, l)) =
      some (with_logger (get_port s) (get_tcp_socket_descriptor s) s agent, (w, l))

  -- `TcpSocketWithLogger(tcp_socket)`.
  unfoldable pub new_with_logger : Socket Address → M (World W) (Socket Address)
  new_with_logger s (w, l) = kept_agent s w (get_agent (codes "socket") info l)

  -- `decorate(socket)`, where `none` is a null pointer: the constructor asks it for its port.
  unfoldable pub decorate : Option (Socket Address) → M (World W) (Socket Address)
  decorate none = fault
  decorate (some s) = new_with_logger s

  -- The destructor, which destroys the socket inside after its own message. The message has a place for
  -- the descriptor alone, but `std::format` is given the port and reads it.
  unfoldable pub destroy : Socket Address → M (World W) (Unit {0})
  unfolding tell_port
  destroy (tcp s) = outside (close_socket os s)
  destroy (with_logger port descriptor s agent) = do
    tell_port now agent port (closing_message descriptor)
    destroy s

  unfoldable pub tcp_bind : Socket Address → M (World W) ℤ
  unfolding tell_port
  tcp_bind (tcp s) = outside (Sockets.tcp_bind os s)
  tcp_bind (with_logger port descriptor s agent) = do
    bind_result ← tcp_bind s
    tell_port now agent port (bind_message descriptor bind_result)
    pure bind_result

  unfoldable pub tcp_listen : Socket Address → M (World W) ℤ
  unfolding tell_port
  tcp_listen (tcp s) = outside (Sockets.tcp_listen os s)
  tcp_listen (with_logger port descriptor s agent) = do
    listen_result ← tcp_listen s
    tell_port now agent port (listen_message descriptor listen_result)
    pure listen_result

  unfoldable pub tcp_accept : Socket Address → M (World W) (Option (Socket Address))
  unfolding tell
  tcp_accept (tcp s) = do client ← outside (Sockets.tcp_accept os s); pure (as_socket client)
  tcp_accept (with_logger port descriptor s agent) = do
    new_socket ← tcp_accept s
    tell now agent (some (accept_message descriptor new_socket))
    pure new_socket

  unfoldable pub tcp_get_host_name : Socket Address → Address → M (World W) Text
  tcp_get_host_name (tcp s) a = outside (Sockets.tcp_get_host_name os a)
  tcp_get_host_name (with_logger port descriptor s agent) a = tcp_get_host_name s a

  unfoldable pub tcp_read : Socket Address → ℕ → ℤ → M (World W) (ℤ × Text)
  unfolding tell
  tcp_read (tcp s) size flags = outside (Sockets.tcp_read os s size flags)
  tcp_read (with_logger port descriptor s agent) size flags = do
    received ← tcp_read s size flags
    tell now agent (some (read_message descriptor received.0))
    pure received

  -- Both of the members of this name: a buffer of bytes and a string are both texts.
  unfoldable pub tcp_send : Socket Address → Text → M (World W) ℤ
  unfolding tell
  tcp_send (tcp s) buffer = outside (Sockets.tcp_send os s buffer)
  tcp_send (with_logger port descriptor s agent) buffer = do
    bytes_count ← tcp_send s buffer
    tell now agent (send_message descriptor bytes_count)
    pure bytes_count

  unfoldable pub tcp_close : Socket Address → M (World W) (Unit {0})
  unfolding tell
  tcp_close (tcp s) = outside (Sockets.tcp_close os s)
  tcp_close (with_logger port descriptor s agent) = do
    tell now agent (some (close_message descriptor))
    tcp_close s
