-- ===== src/Server/Life.antt =====
-- A `PollingServer` of src/polling_server.cpp from its constructor to its destructor.
use nimlib.Prelude.{ℕ, ◌≡◌, ◌∙◌, refl, none, Option, some, sym, subst, ap}
use nimlib.Prelude.Int.{ℤ}
use nimlib.Prelude.Text.{Text}
use nimlib.Prelude.State.{pure, ◌>>=◌, ◌>>◌, and_then}
use nimlib.Logging.{Logger}
use nimlib.Logging.Registry.{IsLogger}
use nimlib.Sockets.{System, TcpSocket, new_bound, max_connections, to, close_socket}
use nimlib.Sockets
use nimlib.Sockets.Logged.{
  World, tell_port, Socket, tcp, with_logger, destroy, tcp_bind, tcp_listen, tcp_close,
  get_tcp_socket_descriptor,
}
use nimlib.Sockets.Agreeing.{Agrees, Agrees_some, IsLogger-kept, Agrees_then, pure_Agrees}
use nimlib.Sockets.Decorated.{
  bare, HasAgents, HasPorts, bind-Agrees, listen-Agrees, close-Agrees, destroy-Agrees,
}
use nimlib.Sockets.Lifetime.{decorate-Decorated}
use nimlib.Server.Listening.{
  PollingServer, new_polling_server, destroy_polling_server, without_port, end_ports,
}

module _ {W Address : Type 0} (os : System W Address) (now : ℕ → Text × Text) where
  -- The calls of the operating system that a server makes from its constructor to its destructor, in
  -- order, by what they are called with.
  abbrev life : ℤ → Address → W → W
  life fd a w =
      let bound = (os.bind fd a w).1 in
      let listening = (os.listen fd max_connections bound).1 in
      let closed = (os.close fd listening).1 in (os.close fd closed).1

  abbrev listening_at : Text → ℤ → Address → TcpSocket Address
  listening_at port fd a = record {
    port = some port;
    tcp_socket_descriptor = fd;
    bind_address = to a;
  }

  module _ (s : Socket Address) (port : Text) (fd : ℤ) (a : Address)
      (e : bare s ≡ listening_at port fd a) (p : HasPorts s) where
    binds :
        (w : W) (l : Logger)
        → HasAgents l.heap s
        → Agrees l (tcp_bind os now s (w, l)) (some (os.bind fd a w))
    unfolding Sockets.tcp_bind
    binds w l h = rw (← ap (λ t. Sockets.tcp_bind os t w) e) (bind-Agrees os now s w l h p)

    listens :
        (w : W) (l : Logger)
        → HasAgents l.heap s
        → Agrees l (tcp_listen os now s (w, l)) (some (os.listen fd max_connections w))
    unfolding Sockets.tcp_listen
    listens w l h = rw (← ap (λ t. Sockets.tcp_listen os t w) e) (listen-Agrees os now s w l h p)

    closes :
        (w : W) (l : Logger)
        → HasAgents l.heap s
        → Agrees l (tcp_close os now s (w, l)) (some (tt, (os.close fd w).1))
    unfolding Sockets.tcp_close
    closes w l h =
        subst (λ o. Agrees l (tcp_close os now s (w, l)) o) (ap (λ t. Sockets.tcp_close os t w) e)
          (close-Agrees os now s w l h)

    goes :
        (w : W) (l : Logger)
        → HasAgents l.heap s
        → Agrees l (destroy os now s (w, l)) (some (tt, (os.close fd w).1))
    unfolding close_socket
    goes w l h =
        subst (λ o. Agrees l (destroy os now s (w, l)) o) (ap (λ t. close_socket os t w) e)
          (destroy-Agrees os now s w l h p)

    later : (l k : Logger) → HasAgents l.heap s → k.heap ≡ l.heap → HasAgents k.heap s
    later l k h same = subst (λ x. HasAgents x s) (sym same) h

    server : PollingServer Address
    server = record { server_socket = s; server_fd = get_tcp_socket_descriptor s }

    -- The server behind its decoration.
    set_up :
        (w : W) (l : Logger)
        → HasAgents l.heap s
        → Agrees l
            ((tcp_bind os now s >> (tcp_listen os now s >> pure server)) (w, l))
            (some (server, (os.listen fd max_connections (os.bind fd a w).1).1))
    set_up w l h =
        Agrees_then l _ _ _ _ _ (binds w l h)
          λ k d. Agrees_then k _ _ _ _ _ (listens _ k (later l k h d)) λ m d. pure_Agrees server _ m

    torn_down :
        (w : W) (l : Logger)
        → HasAgents l.heap s
        → Agrees l
            (destroy_polling_server os now server (w, l))
            (some (tt, (os.close fd (os.close fd w).1).1))
    unfolding destroy_polling_server server
    torn_down w l h = Agrees_then l _ _ _ _ _ (closes w l h) λ k d. goes _ k (later l k h d)

    lives :
        (w : W) (l : Logger)
        → HasAgents l.heap s
        → Agrees l
            (and_then
              (destroy_polling_server os now)
              ((tcp_bind os now s >> (tcp_listen os now s >> pure server)) (w, l)))
            (some (tt, life fd a w))
    lives w l h = Agrees_then l _ _ _ _ _ (set_up w l h) λ k d. torn_down _ k (later l k h d)

  created :
      (port : Text) (a : Address) (fd : ℤ) (w w1 w2 : W)
      → os.getaddrinfo port w ≡ (some a, w1)
      → os.socket a w1 ≡ (fd, w2)
      → new_bound os port w ≡ some (listening_at port fd a, w2)
  unfolding new_bound
  created port a fd w w1 w2 e f = rw (e, f) refl

  -- The destructor of a decorated socket reads the string of the port.
  destroy_unnamed :
      (fd : ℤ) (s : Socket Address) (agent : Option ℕ) (u : World W)
      → destroy os now (with_logger none fd s agent) u ≡ none
  unfolding destroy tell_port
  destroy_unnamed fd s agent u = refl

  faults_later :
      (fd : ℤ) (s : Socket Address) (agent : Option ℕ) (server_fd : ℤ) (w : W) (l : Logger)
      → HasAgents l.heap (with_logger none fd s agent)
      → destroy_polling_server os now
          (record { server_socket = with_logger none fd s agent; server_fd = server_fd })
          (w, l)
        ≡ none
  unfolding destroy_polling_server Sockets.tcp_close
  faults_later fd s agent server_fd w l h =
      let gone : Socket Address = with_logger none fd s agent in
      let (k, e, keeps) =
        Agrees_some l (tcp_close os now gone (w, l)) tt _ (close-Agrees os now gone w l h) in
      ap (and_then (λ x. destroy os now gone)) e
      ∙ destroy_unnamed fd s agent ((os.close (bare s).tcp_socket_descriptor w).1, k)

  -- With a well-formed logger, and a port for which `getaddrinfo` finds an address, a server is made:
  -- it binds its socket and listens with it, whatever these calls return. If the string of the port is
  -- still alive when the server is destroyed, its descriptor is then closed twice, once in the
  -- destructor of the server and once in that of the socket, and the logger is still well formed. If
  -- the string is gone by then, as that of a temporary argument is, the destructor reads it: a fault.
  pub server_life :
      (port : Text) (a : Address) (fd : ℤ) (w w1 w2 : W) (l : Logger)
      → IsLogger l
      → os.getaddrinfo port w ≡ (some a, w1)
      → os.socket a w1 ≡ (fd, w2)
      → ((after : Logger) × ((new_polling_server os now port >>= destroy_polling_server os now)
              (w, l)
            ≡ some (tt, (life fd a w2, after)))
          × IsLogger after)
        × ((new_polling_server os now port >>= λ s. destroy_polling_server os now (without_port s))
              (w, l)
            ≡ none)
  unfolding new_polling_server server end_ports
  server_life port a fd w w1 w2 l good e f =
      let d = decorate-Decorated os now (listening_at port fd a) w2 l good in
      let s = with_logger (some port) fd (tcp (listening_at port fd a)) (some d.agent) in
      let agents : HasAgents d.after.heap s = ((d.has_agent.agent, d.has_agent.there), tt) in
      let (after, g, keeps) =
        Agrees_some d.after _ _ _ (lives s port fd a refl (tt, tt) w2 d.after agents) in
      let (made, set, held) =
        Agrees_some d.after _ _ _ (set_up s port fd a refl (tt, tt) w2 d.after agents) in
      (
        (after, rw (created port a fd w w1 w2 e f, d.runs) g, IsLogger-kept keeps d.well_formed),
        rw (created port a fd w w1 w2 e f, d.runs)
            (ap (and_then (λ x. destroy_polling_server os now (without_port x))) set
              ∙ faults_later fd _ (some d.agent) _ _ made
                  (later s port fd a refl (tt, tt) d.after made agents held.same_heap)),
      )
