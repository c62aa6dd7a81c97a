-- ===== src/Sockets/Tests.antt =====
-- Runs of the sockets of src/tcp_socket.cpp and of their decorator.
use nimlib.Prelude.{ℕ, ◌+◌, ◌≡◌, refl, none, some, List, [], ◌∷◌}
use nimlib.Prelude.Int.{pos}
use nimlib.Prelude.Text.{Text, codes}
use nimlib.Prelude.State.{◌>>=◌}
use nimlib.Logging.{Logger, new_logger}
use nimlib.Logging.Registry.{new_logger-IsLogger}
use nimlib.Sockets.{System, TcpSocket, to, unset, tcp_bind}
use nimlib.Sockets.Logged.{Socket, tcp, decorate, tcp_accept}
use nimlib.Sockets.Agreeing.{Agrees}
use nimlib.Sockets.Decorated.{Call, bind, listen, accept, read, send, close, calls, bare_calls}
use nimlib.Sockets.Lifetime.{decorate-Agrees, Unreadable, destroy-accepted}

-- A system that counts its calls, on which a socket accepts the descriptor 5.
abbrev pub counting : System ℕ ℕ
counting = record {
  getaddrinfo = λ port w. (some 7, w + 1);
  socket = λ a w. (pos 3, w + 1);
  bind = λ fd a w. (pos 0, w + 1);
  listen = λ fd n w. (pos 0, w + 1);
  accept = λ fd w. ((pos 5, 9), w + 1);
  getnameinfo = λ a w. (codes "client", w + 1);
  recv = λ fd n flags w. ((pos 2, codes "hi"), w + 1);
  send = λ fd buffer w. (pos 1, w + 1);
  close = λ fd w. (pos 0, w + 1);
}

abbrev pub noon : ℕ → Text × Text
noon n = (codes "2024-05-01", codes "12:00:00")

abbrev listening : TcpSocket ℕ
listening = record {
  port = some (codes "8080");
  tcp_socket_descriptor = pos 3;
  bind_address = to 7;
}

abbrev unbound : TcpSocket ℕ
unbound = record { port = none; tcp_socket_descriptor = pos 5; bind_address = unset }

bind_runs : tcp_bind counting listening 0 ≡ some (pos 0, 1)
unfolding tcp_bind
bind_runs = refl

bind_faults : tcp_bind counting unbound 0 ≡ none
unfolding tcp_bind
bind_faults = refl

abbrev some_calls : List (Call ℕ)
some_calls = bind ∷ listen ∷ accept ∷ read 10 (pos 0) ∷ send (codes "ok") ∷ close ∷ []

decorate-Agrees_example :
    (d : Socket ℕ) × (after : Logger) × (decorate counting noon
        (some (tcp listening))
        (0, new_logger)
      ≡ some (d, (0, after)))
    × Agrees after
        (calls counting noon d some_calls (0, after))
        (bare_calls counting listening some_calls 0)
decorate-Agrees_example =
    decorate-Agrees counting noon listening some_calls 0 new_logger new_logger-IsLogger
      ((tt, tt), ((tt, tt), (tt, (tt, (tt, (tt, tt))))))

destroy-accepted_example :
    Unreadable counting noon 5
      ((tcp_accept counting noon (tcp listening) >>= decorate counting noon) (0, new_logger))
destroy-accepted_example =
    destroy-accepted counting noon (tcp listening) 5 9 0 1 new_logger new_logger-IsLogger tt refl
