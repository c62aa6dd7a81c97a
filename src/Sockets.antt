-- ===== src/Sockets.antt =====
-- src/tcp_socket.h and tcp_socket.cpp: `TcpSocket`, over the calls of the operating system.
--
-- The operating system is a state `W` with the operations of `System`. A descriptor and the result of
-- a call are integers. `none` is the use of a pointer that was never set or of a reference to a string
-- that is gone.
pub mod Logged
pub mod Agreeing
pub mod Decorated
pub mod Lifetime
pub mod Tests
use nimlib.Prelude.{ℕ, ◌+◌, ◌≡◌, Bool, true, false, Option, none, some, if◌then◌else◌}
use nimlib.Prelude.Int.{ℤ, pos, negsuc, ltb_ℤ}
use nimlib.Prelude.Text.{Text}
use nimlib.Prelude.State.{M, pure, fault, ◌>>=◌, ◌>>◌}

-- The calls of the operating system. `getaddrinfo` gives no address when it fails, `accept` the
-- address of the client with the descriptor, and `recv` what it has put into the buffer.
pub record System (W Address : Type 0) : Type 0 where
  pub getaddrinfo : Text → W → (Option Address) × W
  pub socket : Address → W → ℤ × W
  pub bind : ℤ → Address → W → ℤ × W
  pub listen : ℤ → ℕ → W → ℤ × W
  pub accept : ℤ → W → (ℤ × Address) × W
  pub getnameinfo : Address → W → Text × W
  pub recv : ℤ → ℕ → ℤ → W → (ℤ × Text) × W
  pub send : ℤ → Text → W → ℤ × W
  pub close : ℤ → W → ℤ × W

-- A member that no constructor has set, a null pointer, or a pointer to a value.
pub data Pointer (A : Type 0) : Type 0 where
  unset : Pointer A
  null : Pointer A
  to : A → Pointer A

-- `port` is a reference: `none` when the string that it refers to is gone.
pub record TcpSocket (Address : Type 0) : Type 0 where
  pub port : Option Text
  pub tcp_socket_descriptor : ℤ
  pub bind_address : Pointer Address

-- The socket when the string of its port is gone.
abbrev pub end_port : {Address : Type 0} → TcpSocket Address → TcpSocket Address
end_port s = record s { port = none }

abbrev pub max_connections : ℕ
max_connections = 10

-- A call that cannot fail to return.
abbrev pub call : {W A : Type 0} → (W → A × W) → M W A
call f w = some (f w)

module _ {W Address : Type 0} (os : System W Address) where
  -- `TcpSocket(tcp_socket, port)`, where the port is the default argument: an empty string that is
  -- gone when the constructor has returned.
  unfoldable pub new_accepted : ℤ → TcpSocket Address
  new_accepted tcp_socket = record {
    port = none;
    tcp_socket_descriptor = tcp_socket;
    bind_address = unset;
  }

  abbrev pub with_address : Text → Option Address → M W (TcpSocket Address)
  with_address port none = fault
  with_address port (some a) = do
    descriptor ← call (os.socket a)
    pure (record { port = some port; tcp_socket_descriptor = descriptor; bind_address = to a })

  -- `TcpSocket(port)`: the string of the caller is alive when the constructor returns, and
  -- `end_port` says what is left when it is gone. If `getaddrinfo` fails, `bind_address` is followed
  -- without a value.
  unfoldable pub new_bound : Text → M W (TcpSocket Address)
  new_bound port = do found ← call (os.getaddrinfo port); with_address port found

  -- The destructor of a `TcpSocket`.
  unfoldable pub close_socket : TcpSocket Address → M W (Unit {0})
  close_socket s = do call (os.close s.tcp_socket_descriptor); pure tt

  abbrev pub bind_to : ℤ → Pointer Address → M W ℤ
  bind_to descriptor unset = fault
  bind_to descriptor null = pure (negsuc 0)
  bind_to descriptor (to a) = call (os.bind descriptor a)

  unfoldable pub tcp_bind : TcpSocket Address → M W ℤ
  tcp_bind s = bind_to s.tcp_socket_descriptor s.bind_address

  unfoldable pub tcp_listen : TcpSocket Address → M W ℤ
  tcp_listen s = call (os.listen s.tcp_socket_descriptor max_connections)

  unfoldable pub tcp_get_host_name : Address → M W Text
  tcp_get_host_name a = call (os.getnameinfo a)

  abbrev pub accepted_from : ℤ × Address → M W (Option (TcpSocket Address))
  accepted_from (socket_client, client_address) =
      if ltb_ℤ socket_client (pos 0)
      then pure none
      else (do tcp_get_host_name client_address; pure (some (new_accepted socket_client)))

  unfoldable pub tcp_accept : TcpSocket Address → M W (Option (TcpSocket Address))
  tcp_accept s = do client ← call (os.accept s.tcp_socket_descriptor); accepted_from client

  unfoldable pub tcp_read : TcpSocket Address → ℕ → ℤ → M W (ℤ × Text)
  tcp_read s size flags = call (os.recv s.tcp_socket_descriptor size flags)

  unfoldable pub tcp_send : TcpSocket Address → Text → M W ℤ
  tcp_send s buffer = call (os.send s.tcp_socket_descriptor buffer)

  unfoldable pub tcp_close : TcpSocket Address → M W (Unit {0})
  tcp_close s = do call (os.close s.tcp_socket_descriptor); pure tt
