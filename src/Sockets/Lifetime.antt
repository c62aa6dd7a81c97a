-- ===== src/Sockets/Lifetime.antt =====
-- Sockets that src/common/decorators.h decorates, from `tcp_accept` to the destructor.
use nimlib.Prelude.{arith, ℕ, ◌≡◌, refl, ap, ◌∙◌, none, some, Option, List, subst, false}
use nimlib.Prelude.Int.{ℤ, pos, ltb_ℤ}
use nimlib.Prelude.Text.{Text, codes}
use nimlib.Prelude.State.{and_then, ◌>>=◌, pure}
use nimlib.Constants.{info}
use nimlib.Logging.{Logger}
use nimlib.Logging.Registry.{Named, IsLogger, get_agent-Registered}
use nimlib.Sockets
use nimlib.Sockets.{System, TcpSocket, new_accepted, accepted_from}
use nimlib.Sockets.Logged.{
  World, Socket, tcp, with_logger, kept_agent, decorate, new_with_logger, destroy, tcp_accept,
  as_socket, tell_port, get_port, get_tcp_socket_descriptor,
}
use nimlib.Sockets.Agreeing.{Agrees, IsThere, Agrees_some, IsLogger-kept}
use nimlib.Sockets.Decorated.{
  Call, bare, calls, bare_calls, AllAllowed, calls-Agrees, HasAgents, accept-Agrees,
}

module _ {W Address : Type 0} (os : System W Address) (now : ℕ → Text × Text) where
  -- What `decorate` makes of a plain socket.
  pub record Decorated (t : TcpSocket Address) (w : W) (l : Logger) : Type 0 where
    pub agent : ℕ
    pub after : Logger
    pub runs :
        decorate os now (some (tcp t)) (w, l)
        ≡ some (with_logger t.port t.tcp_socket_descriptor (tcp t) (some agent), (w, after))
    pub well_formed : IsLogger after
    pub has_agent : Named after agent (codes "socket")
    pub quiet : after.output ≡ l.output

  pub decorate-Decorated :
      (t : TcpSocket Address) (w : W) (l : Logger) → IsLogger l → Decorated t w l
  unfolding decorate new_with_logger get_port get_tcp_socket_descriptor
  decorate-Decorated t w l good =
      let (ptr, after, e, r) = get_agent-Registered (codes "socket") info info l good in
      record {
        agent = ptr;
        after = after;
        runs = ap (kept_agent os now (tcp t) w) e;
        well_formed = r.well_formed;
        has_agent = r.agent;
        quiet = r.quiet;
      }

  -- A plain socket that is decorated with a well-formed logger gives to any sequence of calls the
  -- answers that it gives undecorated, and leaves the operating system in the same state (or faults
  -- where it does); the logger keeps its agents, and lines are only added to its output. The calls of
  -- `tcp_bind` and `tcp_listen` need the string of the port to be alive.
  pub decorate-Agrees :
      (t : TcpSocket Address) (cs : List (Call Address)) (w : W) (l : Logger)
      → IsLogger l
      → AllAllowed (IsThere t.port × Unit) cs
      → (d : Socket Address) × (after : Logger) × (decorate os now (some (tcp t)) (w, l)
          ≡ some (d, (w, after)))
        × Agrees after (calls os now d cs (w, after)) (bare_calls os t cs w)
  decorate-Agrees t cs w l good allowed =
      let d = decorate-Decorated t w l good in
      let s = with_logger t.port t.tcp_socket_descriptor (tcp t) (some d.agent) in
      (
        s,
        d.after,
        d.runs,
        calls-Agrees os now s cs w d.after ((d.has_agent.agent, d.has_agent.there), tt) allowed,
      )

  bare_accept :
      (t : TcpSocket Address) (n : ℕ) (a : Address) (w w' : W)
      → os.accept t.tcp_socket_descriptor w ≡ ((pos n, a), w')
      → Sockets.tcp_accept os t w ≡ some (some (new_accepted os (pos n)), (os.getnameinfo a w').1)
  unfolding Sockets.tcp_accept Sockets.tcp_get_host_name
  bare_accept t n a w w' e =
      let positive : ltb_ℤ (pos n) (pos 0) ≡ false = ground arith in rw (e, positive) refl

  destroy_unnamed :
      (descriptor : ℤ) (s : Socket Address) (agent : Option ℕ) (world : World W)
      → destroy os now (with_logger none descriptor s agent) world ≡ none
  unfolding destroy tell_port
  destroy_unnamed descriptor s agent world = refl

  -- An accepted socket as the server gets it, decorated.
  pub record Unreadable (n : ℕ) (o : Option (Socket Address × World W)) : Type 0 where
    pub socket : Socket Address
    pub world : World W
    pub runs : o ≡ some (socket, world)
    pub same_descriptor : get_tcp_socket_descriptor socket ≡ pos n
    pub faults : (later : World W) → destroy os now socket later ≡ none

  -- A connection that a listening socket accepts, with the logger well formed and the agents of the
  -- socket there, is decorated without a fault and keeps its descriptor; but the destructor of the
  -- decorated socket then reads the string of the port, which is gone since the constructor of the
  -- accepted socket has returned.
  pub destroy-accepted :
      (s : Socket Address) (n : ℕ) (a : Address) (w w' : W) (l : Logger)
      → IsLogger l
      → HasAgents l.heap s
      → os.accept (bare s).tcp_socket_descriptor w ≡ ((pos n, a), w')
      → Unreadable n ((tcp_accept os now s >>= decorate os now) (w, l))
  unfolding new_accepted get_tcp_socket_descriptor
  destroy-accepted s n a w w' l good agents e =
      let c = new_accepted os (pos n) in
      let v = (os.getnameinfo a w').1 in
      let (k, f, keeps) = Agrees_some l (tcp_accept os now s (w, l)) (some (tcp c)) v (
        subst (Agrees l (tcp_accept os now s (w, l)))
          (ap (and_then (λ x. pure (as_socket x))) (bare_accept (bare s) n a w w' e))
          (accept-Agrees os now s w l agents)) in
      let d = decorate-Decorated c v k (IsLogger-kept keeps good) in
      record {
        socket = with_logger none (pos n) (tcp c) (some d.agent);
        world = (v, d.after);
        runs = ap (and_then (decorate os now)) f ∙ d.runs;
        same_descriptor = refl;
        faults = λ later. destroy_unnamed (pos n) (tcp c) (some d.agent) later;
      }
