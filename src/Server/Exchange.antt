-- ===== src/Server/Exchange.antt =====
-- One request from the accepted socket to the closed one, through src/tcp_connection.cpp and
-- src/http/http.cpp.
use nimlib.Prelude.{some_inj}
use nimlib.Prelude.{
  take-length, ℕ, suc, ◌<◌, ◌≤◌, ◌≡◌, refl, sym, ap, ap₂, ◌∙◌, inl, inr, true, false, Option, some,
  [], ◌++◌, arith, length, take,
}
use nimlib.Prelude.Int.{pos}
use nimlib.Prelude.Text.{Text}
use nimlib.Constants.{
  HandlerState, HandlerState-discrete, finished_no_wait, finished_wait, recall, ready_to_read,
  ready_to_write, done, inactive, read_socket, write_socket,
}
use nimlib.Utils.StateManager.{Readings}
use nimlib.Http.Parser.{Request, Response, parse_request, parse_response}
use nimlib.Http.Handler.{HttpHandler, new_response, text_of, is_state}
use nimlib.Http.Handler.Requests.{first_request}
use nimlib.Connection
use nimlib.Connection.{
  write_out, TcpConnection, Sends, state, accept_socket, set_handler, notify, halt, send_loop, set,
}
use nimlib.Connection.States.{IsPrompt, IsLive, set-edge, edges}
use nimlib.Connection.Writing.{Wrote, write-Wrote}
use nimlib.Connection.Sending.{AreSends, send_loop_all}
use nimlib.Connection.Reading.{notify-Handed}
use nimlib.Connection.Closing.{halt_done}
use nimlib.Server.Handlers.{
  http_protocol, written_behind, new_handler, new_handler-IsSound, asks_lem,
}

-- Every send takes at least one byte and at most all that it is given.
abbrev pub TakesAll : Sends → Type 0
TakesAll sends = (j n : ℕ) → 0 < n → (k : ℕ) × (sends j n ≡ pos k) × (0 < k) × (k ≤ n)

TakesAll-AreSends : (sends : Sends) → TakesAll sends → AreSends sends
TakesAll-AreSends sends all j n h = let (k, e, positive, most) = all j n h in rw e (positive, most)

only_write :
    (is_state finished_no_wait finished_no_wait ≡ true)
    × (is_state finished_no_wait finished_wait ≡ false)
    × (is_state finished_no_wait recall ≡ false)
unfolding HandlerState-discrete
only_write = (refl, refl, refl)

module _ {R : Type 0} (route : Request → Response → R → Option (Option HandlerState × Response × R))
    (garbage : ℕ) (clock : ℕ → Readings) (r : Readings) (t : ℕ) where
  abbrev protocol : Connection.Protocol (HttpHandler R)
  protocol = http_protocol route garbage clock r

  -- The connection `c` with an accepted socket and a new handler.
  abbrev pub accepted :
      TcpConnection (HttpHandler R) → R → ℕ → Readings → TcpConnection (HttpHandler R)
  accepted c router now at = set_handler (accept_socket c true at) (some (new_handler router now))

  accepted_lem :
      (c : TcpConnection (HttpHandler R)) (router : R) (now : ℕ) (at : Readings)
      → IsLive t c
      → IsPrompt t at
      → state c ≡ inactive
      → let c1 = accepted c router now at in
        IsLive t c1
        × (state c1 ≡ ready_to_read)
        × (c1.socket ≡ true)
        × (c1.handler ≡ some (new_handler router now))
        × (c1.input_stream ≡ c.input_stream)
        × (c1.output_stream ≡ c.output_stream)
        × (c1.buffer_size ≡ c.buffer_size)
  unfolding accept_socket set_handler Connection.set
  accepted_lem c router now at live prompt e =
      let c0 : TcpConnection (HttpHandler R) = record c { socket = true } in
      let (e', live') =
        set-edge c0 inactive ready_to_read t at
          (record { tables = live.tables; changed = live.changed }) prompt e (λ q. cc) (λ q. cc)
          edges.9 in
      (record { tables = live'.tables; changed = live'.changed }, e', refl, refl, refl, refl, refl)

  -- What comes of one request: the response is printed to the output stream, the sends take all of it,
  -- and the connection is inactive again, with empty streams and without a socket.
  pub record Exchanged (c1 : TcpConnection (HttpHandler R)) (n : ℕ) (buff : Text) (sends : Sends)
      (times : ℕ → ℕ → Readings) (printed : Text) : Type 0 where
    pub handled : TcpConnection (HttpHandler R)
    pub reads : notify protocol c1 read_socket (pos (suc n)) buff sends (times 0) ≡ some handled
    pub waits : state handled ≡ ready_to_write
    pub output : handled.output_stream ≡ printed
    pub written : TcpConnection (HttpHandler R)
    pub writes : notify protocol handled write_socket (pos 0) [] sends (times 1) ≡ some written
    pub taken : write_out protocol handled sends (times 1) ≡ some (written, printed)
    pub finished : state written ≡ done
    pub closed : state (halt written (times 2)) ≡ inactive
    pub no_input : (halt written (times 2)).input_stream ≡ []
    pub no_output : (halt written (times 2)).output_stream ≡ []
    pub no_socket : (halt written (times 2)).socket ≡ false

  -- When all is taken, a handler in FINISHED_NO_WAIT ends the connection.
  finished-done :
      (h : HttpHandler R) (c out : TcpConnection (HttpHandler R))
      → protocol.wants_to_be_calledback h ≡ false
      → protocol.wants_to_live h ≡ false
      → (w : Wrote t protocol c h out) → w.taken ≡ length c.output_stream
      → state out ≡ done
  finished-done h c out b l w all = elim w.ends [
    | inl (lt, _, _) ↦ absurd (omega (arith, lt, all))
    | inr (_, (o, inl (x, _))) ↦ absurd cc
    | inr (_, (o, inr (inl (_, x, _, _)))) ↦ absurd cc
    | inr (_, (o, inr (inr (_, _, e)))) ↦ e
  ]

  -- The handler's part.
  served_lem :
      (router router' : R) (now : ℕ) (source left : Text) (q : Request) (p : Response)
      → parse_request source ≡ (some q, left)
      → route q (new_response garbage) router ≡ some (some finished_no_wait, p, router')
      → (h : HttpHandler R) × (protocol.notify (new_handler router now) source []
          ≡ some (h, left, text_of (parse_response p), true))
        × (protocol.wants_to_write h ≡ true)
        × (protocol.wants_to_live h ≡ false)
        × (protocol.wants_to_be_calledback h ≡ false)
  unfolding http_protocol new_handler
  served_lem router router' now source left q p parsed routed =
      let (sound, begun, empty) = new_handler-IsSound router now in
      let (a, _) =
        first_request route garbage clock (new_handler router now) source left q p router'
          finished_no_wait sound.tables begun empty parsed routed (inl refl) in
      let asks = asks_lem route garbage clock r a.out.handler a.sound.tables in
      (
        a.out.handler,
        ap (written_behind []) a.returns
            ∙ ap some (λ i. (a.out.handler, a.source i, a.sink i, a.called_back i)),
        asks.0 ∙ ap (λ s. is_state s finished_no_wait) a.ends_in ∙ only_write.0,
        asks.1 ∙ ap (λ s. is_state s finished_wait) a.ends_in ∙ only_write.1,
        asks.2 ∙ ap (λ s. is_state s recall) a.ends_in ∙ only_write.2,
      )

  -- An inactive connection with empty streams accepts a socket, for which the pool makes a new handler.
  -- The socket reads at least one byte; what it reads, at most as many bytes as the buffer has, is a
  -- request that can be parsed, and the router answers it with FINISHED_NO_WAIT. Every send takes at
  -- least one byte, and nothing times out. Then the connection reads, the printed response of the
  -- router stands in its output stream, the socket takes all of it, in order and
  -- nothing else, in the loop of `write`, which ends in DONE, and `halt` leaves
  -- the connection inactive, with empty streams and without a socket.
  pub exchange :
      (c : TcpConnection (HttpHandler R)) (router router' : R) (now n : ℕ) (buff left : Text)
      (sends : Sends) (at : Readings) (times : ℕ → ℕ → Readings) (q : Request) (p : Response)
      → IsLive t c
      → IsPrompt t at
      → ((i j : ℕ) → IsPrompt t (times i j))
      → state c ≡ inactive
      → c.input_stream ≡ []
      → c.output_stream ≡ []
      → TakesAll sends
      → parse_request (take (suc n) (take c.buffer_size buff)) ≡ (some q, left)
      → route q (new_response garbage) router ≡ some (some finished_no_wait, p, router')
      → Exchanged (accepted c router now at) n buff sends times (text_of (parse_response p))
  unfolding notify
  exchange c router router' now n buff left sends at times q p live prompt prompts e i o all parsed
        routed =
      let c1 = accepted c router now at in
      let (live1, e1, open_socket, held, i1, o1, size) =
        accepted_lem c router now at live prompt e in
      let printed : Text = text_of (parse_response p) in
      let (h, served, writes, dies, quiet) =
        served_lem router router' now (take (suc n) (take c.buffer_size buff)) left q p parsed
          routed in
      let (c2, read2, d) =
        notify-Handed protocol t (new_handler router now) h n buff left printed ready_to_write
          (times 0) (prompts 0) (inl (writes, refl)) c1 sends live1 e1 open_socket held
          (ap₂ (protocol.notify (new_handler router now))
              (ap₂ (λ x m. x ++ take (suc n) (take m buff)) (i1 ∙ i) size) (o1 ∙ o)
            ∙ served) in
      let (c3, wrote, w, went, ran) =
        write-Wrote protocol c2 h t (times 1) d.live (prompts 1) d.waits d.handler sends
          (TakesAll-AreSends sends all) (d.socket ∙ open_socket) in
      let total : w.taken ≡ length c2.output_stream =
        ap (λ x. x.0)
          (some_inj (
            sym ran
            ∙ send_loop_all (suc (length c2.output_stream)) sends 0 c2.output_stream 0 [] all
                (omega arith) (omega arith) refl)) in
      let finished : state c3 ≡ done = finished-done h c2 c3 quiet dies w total in
      let (closed, no_input, no_output, no_socket) =
        halt_done t c3 (times 2) w.live (prompts 2 0, prompts 2 2) finished in
      record {
        handled = c2;
        reads = read2;
        waits = d.waits;
        output = d.output;
        written = c3;
        writes = wrote;
        taken =
            went
            ∙ ap (λ x. some (c3, x))
                (take-length w.taken c2.output_stream (omega (arith, total)) ∙ d.output);
        finished = finished;
        closed = closed;
        no_input = no_input;
        no_output = no_output;
        no_socket = no_socket;
      }
