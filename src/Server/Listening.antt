-- ===== src/Server/Listening.antt =====
-- The constructor and the destructor of `PollingServer` in src/polling_server.cpp, and the decorator
-- `PollingServerWithLogger` of src/decorations/polling_server_with_logger.h, with its `decorate`.
--
-- `version` are the three numbers that the build writes into version.h. The string of the port is taken
-- to outlive the server.
use nimlib.Prelude.{ℕ, Option, none, some, ◌++◌}
use nimlib.Prelude.Int.{ℤ}
use nimlib.Prelude.Text.{Text, codes, decimal}
use nimlib.Prelude.State.{M, pure, fault, ◌>>=◌, ◌>>◌}
use nimlib.Constants.{info}
use nimlib.Logging.{Logger, get_agent, log_message}
use nimlib.Sockets.{System, new_bound, end_port}
use nimlib.Sockets.Logged.{
  World, Socket, tcp, with_logger, outside, keeping_world, decorate, destroy, tcp_bind, tcp_listen,
  tcp_close, get_tcp_socket_descriptor,
}

-- `PollingServer`, without its reference to the pool; `server_fd` is the descriptor in the entry that
-- `create_pollfds_entry` makes.
pub record PollingServer (Address : Type 0) : Type 0 where
  pub server_socket : Socket Address
  pub server_fd : ℤ

pub record PollingServerWithLogger (Address : Type 0) : Type 0 where
  pub polling_server : PollingServer Address
  pub main_log_agent : Option ℕ

-- A socket and a server when the string of the port is gone: that of a temporary argument is when the
-- constructor of the server has returned.
unfoldable pub end_ports : {Address : Type 0} → Socket Address → Socket Address
end_ports (tcp s) = tcp (end_port s)
end_ports (with_logger port descriptor s agent) = with_logger none descriptor (end_ports s) agent

abbrev pub without_port : {Address : Type 0} → PollingServer Address → PollingServer Address
without_port server = record server { server_socket = end_ports server.server_socket }

module _ {W Address : Type 0} (os : System W Address) (now : ℕ → Text × Text) where
  -- `PollingServer(port)`, which takes no notice of what `tcp_bind` and `tcp_listen` return.
  unfoldable pub new_polling_server : Text → M (World W) (PollingServer Address)
  new_polling_server port = do
    socket ← outside (new_bound os port)
    server_socket ← decorate os now (some (tcp socket))
    tcp_bind os now server_socket
    tcp_listen os now server_socket
    pure (record {
      server_socket = server_socket;
      server_fd = get_tcp_socket_descriptor server_socket;
    })

  -- The destructor, behind which the member `server_socket` is destroyed.
  unfoldable pub destroy_polling_server : PollingServer Address → M (World W) (Unit {0})
  destroy_polling_server s = do tcp_close os now s.server_socket; destroy os now s.server_socket

  abbrev with_agent :
      PollingServer Address
      → W
      → Option (Option ℕ × Logger)
      → Option (PollingServerWithLogger Address × World W)
  with_agent s w none = none
  with_agent s w (some (agent, l)) =
      some (record { polling_server = s; main_log_agent = agent }, (w, l))

  -- `PollingServerWithLogger(polling_server)`, which is what `decorate` makes of a server.
  unfoldable pub new_server_with_logger :
      PollingServer Address → M (World W) (PollingServerWithLogger Address)
  new_server_with_logger s (w, l) = with_agent s w (get_agent (codes "main") info l)

  -- `main_log_agent->log(message)`.
  unfoldable pub main_log : Option ℕ → Text → M (World W) (Unit {0})
  main_log none message = fault
  main_log (some ptr) message = λ (w, l). keeping_world w (log_message now ptr message l)

  -- What `run` does before the loop of the server.
  unfoldable pub announce : ℕ × ℕ × ℕ → PollingServerWithLogger Address → M (World W) (Unit {0})
  announce (major, minor, patch) s = main_log s.main_log_agent (
      codes "server version "
      ++ decimal major
      ++ codes "."
      ++ decimal minor
      ++ codes "."
      ++ decimal patch
      ++ codes " running")

  -- The destructor, behind which the server inside is destroyed.
  unfoldable pub destroy_server_with_logger :
      PollingServerWithLogger Address → M (World W) (Unit {0})
  destroy_server_with_logger s = do
    main_log s.main_log_agent (codes "server shutting down")
    destroy_polling_server s.polling_server
