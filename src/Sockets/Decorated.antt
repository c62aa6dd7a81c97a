-- ===== src/Sockets/Decorated.antt =====
-- The decorator of src/decorations/tcp_socket_with_logger.h against the socket inside.
use nimlib.Prelude.{ℕ, sym, subst, Option, some, List, [], ◌∷◌}
use nimlib.Prelude.Int.{ℤ}
use nimlib.Prelude.Text.{Text}
use nimlib.Prelude.State.{M, pure, ◌>>=◌}
use nimlib.Sockets.Agreeing.{
  Leads, IsThere, Agrees, outside-Agrees, then_told, told_then, and_then_Agrees, pure_Agrees,
  tell-Told, tell_port-Told, tell_later, tell_port_later,
}
use nimlib.Logging.{Agent, Logger}
use nimlib.Sockets
use nimlib.Sockets.{System, TcpSocket, close_socket}
use nimlib.Sockets.Logged.{
  World, Socket, tcp, with_logger, as_socket, read_message, close_message, closing_message, destroy,
  accept_message, tcp_bind, tcp_listen, tcp_accept, tcp_get_host_name, tcp_read, tcp_send,
  tcp_close,
}

module _ {Address : Type 0} where
  -- The socket within the decorators.
  abbrev pub bare : Socket Address → TcpSocket Address
  bare (tcp s) = s
  bare (with_logger port descriptor s agent) = bare s

  -- The decorators have agents in the heap.
  abbrev pub HasAgents : List Agent → Socket Address → Type 0
  HasAgents heap (tcp s) = Unit
  HasAgents heap (with_logger port descriptor s agent) = Leads heap agent × HasAgents heap s

  -- The ports of the decorators can be read.
  abbrev pub HasPorts : Socket Address → Type 0
  HasPorts (tcp s) = Unit
  HasPorts (with_logger port descriptor s agent) = IsThere port × HasPorts s

-- The members of the interface `Socket`, and what they give back.
pub data Call (Address : Type 0) : Type 0 where
  bind listen accept close : Call Address
  get_host_name : Address → Call Address
  read : ℕ → ℤ → Call Address
  send : Text → Call Address

pub data Answer (Address : Type 0) : Type 0 where
  number : ℤ → Answer Address
  received : ℤ → Text → Answer Address
  accepted : Option (Socket Address) → Answer Address
  name : Text → Answer Address
  nothing : Answer Address

-- What the calls need: two of them read the port, which `Port` says can be done.
abbrev pub Allowed : {Address : Type 0} → Type 0 → Call Address → Type 0
Allowed Port bind = Port
Allowed Port listen = Port
Allowed Port c = Unit

abbrev pub AllAllowed : {Address : Type 0} → Type 0 → List (Call Address) → Type 0
AllAllowed Port [] = Unit
AllAllowed Port (c ∷ cs) = Allowed Port c × AllAllowed Port cs

module _ {W Address : Type 0} (os : System W Address) where
  abbrev pub bare_call : TcpSocket Address → Call Address → M W (Answer Address)
  bare_call s bind = Sockets.tcp_bind os s >>= λ n. pure (number n)
  bare_call s listen = Sockets.tcp_listen os s >>= λ n. pure (number n)
  bare_call s accept =
      (Sockets.tcp_accept os s >>= λ c. pure (as_socket c)) >>= λ c. pure (accepted c)
  bare_call s close = Sockets.tcp_close os s >>= λ u. pure nothing
  bare_call s (get_host_name a) = Sockets.tcp_get_host_name os a >>= λ t. pure (name t)
  bare_call s (read size flags) = Sockets.tcp_read os s size flags >>= λ (n, t). pure (received n t)
  bare_call s (send buffer) = Sockets.tcp_send os s buffer >>= λ n. pure (number n)

  unfoldable pub bare_calls : TcpSocket Address → List (Call Address) → M W (List (Answer Address))
  bare_calls s [] = pure []
  bare_calls s (c ∷ cs) = do a ← bare_call s c; rest ← bare_calls s cs; pure (a ∷ rest)

module _ {W Address : Type 0} (os : System W Address) (now : ℕ → Text × Text) where
  abbrev pub call : Socket Address → Call Address → M (World W) (Answer Address)
  call s bind = tcp_bind os now s >>= λ n. pure (number n)
  call s listen = tcp_listen os now s >>= λ n. pure (number n)
  call s accept = tcp_accept os now s >>= λ c. pure (accepted c)
  call s close = tcp_close os now s >>= λ u. pure nothing
  call s (get_host_name a) = tcp_get_host_name os now s a >>= λ t. pure (name t)
  call s (read size flags) = tcp_read os now s size flags >>= λ (n, t). pure (received n t)
  call s (send buffer) = tcp_send os now s buffer >>= λ n. pure (number n)

  unfoldable pub calls : Socket Address → List (Call Address) → M (World W) (List (Answer Address))
  calls s [] = pure []
  calls s (c ∷ cs) = do a ← call s c; rest ← calls s cs; pure (a ∷ rest)

  pub bind-Agrees :
      (s : Socket Address) (w : W) (l : Logger)
      → HasAgents l.heap s
      → HasPorts s
      → Agrees l (tcp_bind os now s (w, l)) (Sockets.tcp_bind os (bare s) w)
  unfolding tcp_bind
  bind-Agrees (tcp s) w l h p = outside-Agrees l (Sockets.tcp_bind os s w)
  bind-Agrees (with_logger port descriptor s agent) w l (a, h) (q, p) =
      then_told l (tcp_bind os now s (w, l)) _ _ (bind-Agrees s w l h p)
        λ n v k e. tell_port_later now agent port _ v l k a q e

  pub listen-Agrees :
      (s : Socket Address) (w : W) (l : Logger)
      → HasAgents l.heap s
      → HasPorts s
      → Agrees l (tcp_listen os now s (w, l)) (Sockets.tcp_listen os (bare s) w)
  unfolding tcp_listen
  listen-Agrees (tcp s) w l h p = outside-Agrees l (Sockets.tcp_listen os s w)
  listen-Agrees (with_logger port descriptor s agent) w l (a, h) (q, p) =
      then_told l (tcp_listen os now s (w, l)) _ _ (listen-Agrees s w l h p)
        λ n v k e. tell_port_later now agent port _ v l k a q e

  read-Agrees :
      (s : Socket Address) (size : ℕ) (flags : ℤ) (w : W) (l : Logger)
      → HasAgents l.heap s
      → Agrees l (tcp_read os now s size flags (w, l)) (Sockets.tcp_read os (bare s) size flags w)
  unfolding tcp_read
  read-Agrees (tcp s) size flags w l h = outside-Agrees l (Sockets.tcp_read os s size flags w)
  read-Agrees (with_logger port descriptor s agent) size flags w l (a, h) =
      then_told l (tcp_read os now s size flags (w, l)) _ _ (read-Agrees s size flags w l h)
        λ n v k e. tell_later now agent (some (read_message descriptor n.0)) v l k a e

  send-Agrees :
      (s : Socket Address) (buffer : Text) (w : W) (l : Logger)
      → HasAgents l.heap s
      → Agrees l (tcp_send os now s buffer (w, l)) (Sockets.tcp_send os (bare s) buffer w)
  unfolding tcp_send
  send-Agrees (tcp s) buffer w l h = outside-Agrees l (Sockets.tcp_send os s buffer w)
  send-Agrees (with_logger port descriptor s agent) buffer w l (a, h) =
      then_told l (tcp_send os now s buffer (w, l)) _ _ (send-Agrees s buffer w l h)
        λ n v k e. tell_later now agent _ v l k a e

  host-Agrees :
      (s : Socket Address) (a : Address) (w : W) (l : Logger)
      → Agrees l (tcp_get_host_name os now s a (w, l)) (Sockets.tcp_get_host_name os a w)
  unfolding tcp_get_host_name
  host-Agrees (tcp s) a w l = outside-Agrees l (Sockets.tcp_get_host_name os a w)
  host-Agrees (with_logger port descriptor s agent) a w l = host-Agrees s a w l

  pub accept-Agrees :
      (s : Socket Address) (w : W) (l : Logger)
      → HasAgents l.heap s
      → Agrees l
          (tcp_accept os now s (w, l))
          ((Sockets.tcp_accept os (bare s) >>= λ c. pure (as_socket c)) w)
  unfolding tcp_accept
  accept-Agrees (tcp s) w l h =
      and_then_Agrees l _ (Sockets.tcp_accept os s w) (λ c. pure (as_socket c))
        (λ c. pure (as_socket c)) (outside-Agrees l (Sockets.tcp_accept os s w))
        λ c v k e. pure_Agrees (as_socket c) v k
  accept-Agrees (with_logger port descriptor s agent) w l (a, h) =
      then_told l (tcp_accept os now s (w, l)) _ _ (accept-Agrees s w l h)
        λ c v k e. tell_later now agent (some (accept_message descriptor c)) v l k a e

  pub close-Agrees :
      (s : Socket Address) (w : W) (l : Logger)
      → HasAgents l.heap s
      → Agrees l (tcp_close os now s (w, l)) (Sockets.tcp_close os (bare s) w)
  unfolding tcp_close
  close-Agrees (tcp s) w l h = outside-Agrees l (Sockets.tcp_close os s w)
  close-Agrees (with_logger port descriptor s agent) w l (a, h) =
      told_then l w _ (tcp_close os now s) _
        (tell-Told now agent (some (close_message descriptor)) w l a)
        λ k e. close-Agrees s w k (subst (λ x. HasAgents x s) (sym e) h)

  pub destroy-Agrees :
      (s : Socket Address) (w : W) (l : Logger)
      → HasAgents l.heap s
      → HasPorts s
      → Agrees l (destroy os now s (w, l)) (close_socket os (bare s) w)
  unfolding destroy
  destroy-Agrees (tcp s) w l h p = outside-Agrees l (close_socket os s w)
  destroy-Agrees (with_logger port descriptor s agent) w l (a, h) (q, p) =
      told_then l w _ (destroy os now s) _
        (tell_port-Told now agent port (closing_message descriptor) w l a q)
        λ k e. destroy-Agrees s w k (subst (λ x. HasAgents x s) (sym e) h) p

  call-Agrees :
      (s : Socket Address) (c : Call Address) (w : W) (l : Logger)
      → HasAgents l.heap s
      → Allowed (HasPorts s) c
      → Agrees l (call s c (w, l)) (bare_call os (bare s) c w)
  call-Agrees s bind w l h p =
      and_then_Agrees l _ _ _ _ (bind-Agrees s w l h p) λ n v k e. pure_Agrees (number n) v k
  call-Agrees s listen w l h p =
      and_then_Agrees l _ _ _ _ (listen-Agrees s w l h p) λ n v k e. pure_Agrees (number n) v k
  call-Agrees s accept w l h p =
      and_then_Agrees l _ _ _ _ (accept-Agrees s w l h) λ n v k e. pure_Agrees (accepted n) v k
  call-Agrees s close w l h p =
      and_then_Agrees l _ _ _ _ (close-Agrees s w l h) λ n v k e. pure_Agrees nothing v k
  call-Agrees s (get_host_name a) w l h p =
      and_then_Agrees l _ _ _ _ (host-Agrees s a w l) λ n v k e. pure_Agrees (name n) v k
  call-Agrees s (read size flags) w l h p =
      and_then_Agrees l _ _ _ _ (read-Agrees s size flags w l h)
        λ n v k e. pure_Agrees (received n.0 n.1) v k
  call-Agrees s (send buffer) w l h p =
      and_then_Agrees l _ _ _ _ (send-Agrees s buffer w l h) λ n v k e. pure_Agrees (number n) v k

  -- A socket within any number of logging decorators, whose agents exist, gives to any sequence of
  -- calls the answers of the socket inside, and leaves the operating system in the same state (or
  -- faults where that one does). The calls of `tcp_bind` and `tcp_listen` need the string of the port to
  -- be alive. The logger keeps its agents, and lines are only added to what was printed.
  pub calls-Agrees :
      (s : Socket Address) (cs : List (Call Address)) (w : W) (l : Logger)
      → HasAgents l.heap s
      → AllAllowed (HasPorts s) cs
      → Agrees l (calls s cs (w, l)) (bare_calls os (bare s) cs w)
  unfolding calls bare_calls
  calls-Agrees s [] w l h p = pure_Agrees [] w l
  calls-Agrees s (c ∷ cs) w l h (p, ps) =
      and_then_Agrees l _ _ _ _ (call-Agrees s c w l h p) λ a v k e.
        and_then_Agrees k _ _ _ _ (calls-Agrees s cs v k (subst (λ x. HasAgents x s) (sym e) h) ps)
          λ rest u m d. pure_Agrees (a ∷ rest) u m
