-- ===== src/Connection/Reading.antt =====
-- Receiving a request: `TcpConnection::read` of src/tcp_connection.cpp.
use nimlib.Prelude.{
  ℕ, suc, ◌≡◌, refl, ap, ap₂, ◌∙◌, ◌≢◌, ◌⊎◌, inl, inr, true, false, none, some, ◌++◌, take,
  if◌then◌else◌,
}
use nimlib.Prelude.Int.{pos}
use nimlib.Prelude.Text.{Text}
use nimlib.Constants.{
  ConnectionState, ConnectionState-discrete, ready_to_read, reading, handling, ready_to_write,
  connection_error, read_socket,
}
use nimlib.Utils.StateManager.{Readings}
use nimlib.Connection.{
  Protocol, TcpConnection, Sends, is_state, state, set, start_timer, receive, read, run_handler,
  with_handler, after_handler, with_state, notify_handler, notify,
}
use nimlib.Connection.States.{IsPrompt, IsLive, HasEdge, edges, set-edge, get-live}

-- The state in which a connection waits for a handler that has notified it, by what the handler asks
-- for first: to write or to live, more bytes, or to be called back.
abbrev pub Waits : {S : Type 0} → Protocol S → S → ConnectionState → Type 0
Waits protocol h u =
    ((protocol.wants_to_write h ≡ true) × (u ≡ ready_to_write))
    ⊎ ((protocol.wants_to_write h ≡ false)
        × (protocol.wants_to_live h ≡ true)
        × (u ≡ ready_to_write))
    ⊎ ((protocol.wants_to_write h ≡ false)
        × (protocol.wants_to_live h ≡ false)
        × (protocol.wants_more_bytes h ≡ true)
        × (u ≡ ready_to_read))
    ⊎ ((protocol.wants_to_write h ≡ false)
        × (protocol.wants_to_live h ≡ false)
        × (protocol.wants_more_bytes h ≡ false)
        × (protocol.wants_to_be_calledback h ≡ true)
        × (u ≡ ready_to_write))

-- What a connection is left with by a handler that has notified it.
pub record Handed {S : Type 0} (t : ℕ) (c : TcpConnection S) (h : S) (source sink : Text)
    (u : ConnectionState) (out : TcpConnection S) : Type 0 where
  pub live : IsLive t out
  pub waits : state out ≡ u
  pub input : out.input_stream ≡ source
  pub output : out.output_stream ≡ sink
  pub handler : out.handler ≡ some h
  pub socket : out.socket ≡ c.socket
  pub same_id : out.id ≡ c.id

module _ {S : Type 0} (protocol : Protocol S) (t : ℕ) where
  notify_handler-Waits :
      (c : TcpConnection S) (h : S) (u : ConnectionState) (r : Readings)
      → Waits protocol h u
      → (notify_handler protocol c h r ≡ some (set c u r)) × HasEdge handling u × (u ≢ handling)
  unfolding notify_handler
  notify_handler-Waits c h u r (inl (a, e)) = rw (a, e) (refl, edges.2, λ q. absurd cc)
  notify_handler-Waits c h u r (inr (inl (a, b, e))) = rw (a, b, e) (refl, edges.2, λ q. absurd cc)
  notify_handler-Waits c h u r (inr (inr (inl (a, b, d, e)))) =
      rw (a, b, d, e) (refl, edges.3, λ q. absurd cc)
  notify_handler-Waits c h u r (inr (inr (inr (a, b, d, f, e)))) =
      rw (a, b, d, f, e) (refl, edges.2, λ q. absurd cc)

  set-fields :
      (c : TcpConnection S) (u : ConnectionState) (r : Readings)
      → ((set c u r).output_stream ≡ c.output_stream)
        × ((set c u r).input_stream ≡ c.input_stream)
        × ((set c u r).handler ≡ c.handler)
        × ((set c u r).socket ≡ c.socket)
        × ((set c u r).id ≡ c.id)
  unfolding set
  set-fields c u r = (refl, refl, refl, refl, refl)

  -- A handler that serves the connection in HANDLING and notifies it.
  pub run_handler-Handed :
      (c : TcpConnection S) (h h' : S) (source sink : Text) (u : ConnectionState) (r : Readings)
      → IsLive t c
      → IsPrompt t r
      → state c ≡ handling
      → c.handler ≡ some h
      → protocol.notify h c.input_stream c.output_stream ≡ some (h', source, sink, true)
      → Waits protocol h' u
      → (out : TcpConnection S) × (run_handler protocol c r ≡ some out)
        × Handed t c h' source sink u out
  unfolding run_handler
  run_handler-Handed c h h' source sink u r live prompt e held served w =
      let c' : TcpConnection S = record c {
        handler = some h';
        input_stream = source;
        output_stream = sink;
      } in
      let live' : IsLive t c' = record { tables = live.tables; changed = live.changed } in
      let (notified, edge, other) = notify_handler-Waits c' h' u r w in
      let (e', live'') = set-edge c' handling u t r live' prompt e (λ q. cc) other edge in
      let f = set-fields c' u r in
      (
        set c' u r,
        ap (with_handler protocol c r) held ∙ ap (after_handler protocol c r) served ∙ notified,
        record {
          live = live'';
          waits = e';
          input = f.1;
          output = f.0;
          handler = f.2;
          socket = f.3;
          same_id = f.4;
        },
      )

  same-Handed :
      (c c' : TcpConnection S) (h : S) (source sink : Text) (u : ConnectionState)
      (out : TcpConnection S)
      → c'.socket ≡ c.socket
      → c'.id ≡ c.id
      → Handed t c' h source sink u out
      → Handed t c h source sink u out
  same-Handed c c' h source sink u out e i d = record {
    live = d.live;
    waits = d.waits;
    input = d.input;
    output = d.output;
    handler = d.handler;
    socket = d.socket ∙ e;
    same_id = d.same_id ∙ i;
  }

  module _ (h h' : S) (n : ℕ) (buff source sink : Text) (u : ConnectionState) (clock : ℕ → Readings)
      (prompt : (i : ℕ) → IsPrompt t (clock i)) (w : Waits protocol h' u) where
    -- The handler serves the input with the bytes read.
    abbrev pub Serving : TcpConnection S → Type 0
    Serving c =
        protocol.notify h (c.input_stream ++ take (suc n) (take c.buffer_size buff)) c.output_stream
        ≡ some (h', source, sink, true)

    receive-Handed :
        (c : TcpConnection S)
        → IsLive t c
        → state c ≡ reading
        → c.handler ≡ some h
        → Serving c
        → (out : TcpConnection S) × (receive protocol c (pos (suc n)) buff clock ≡ some out)
          × Handed t c h' source sink u out
    unfolding receive
    receive-Handed c live e held served =
        let filled : TcpConnection S = record c {
          input_stream = c.input_stream ++ take (suc n) (take c.buffer_size buff);
        } in
        let live' : IsLive t filled = record { tables = live.tables; changed = live.changed } in
        let (e1, live1) =
          set-edge filled reading handling t (clock 1) live' (prompt 1) e (λ q. cc) (λ q. cc)
            edges.1 in
        let f = set-fields filled handling (clock 1) in
        let (out, ran, d) =
          run_handler-Handed (set filled handling (clock 1)) h h' source sink u (clock 2) live1
            (prompt 2) e1 (f.2 ∙ held) (ap₂ (protocol.notify h) f.1 f.0 ∙ served) w in
        (
          out,
          ap (λ o. with_state protocol o (clock 3)) ran
              ∙ ap some (get-live out t (clock 3) d.live (prompt 3)),
          same-Handed c (set filled handling (clock 1)) h' source sink u out f.3 f.4 d,
        )

    buffer_size-set :
        (c : TcpConnection S) (v : ConnectionState) (r : Readings)
        → (set c v r).buffer_size ≡ c.buffer_size
    unfolding set
    buffer_size-set c v r = refl

    read-Handed :
        (c : TcpConnection S)
        → IsLive t c
        → state c ≡ ready_to_read
        → c.socket ≡ true
        → c.handler ≡ some h
        → Serving c
        → (out : TcpConnection S) × (read protocol c (pos (suc n)) buff clock ≡ some out)
          × Handed t c h' source sink u out
    unfolding read ConnectionState-discrete
    read-Handed c live e open_socket held served =
        let (e0, live0) =
          set-edge c ready_to_read reading t (clock 0) live (prompt 0) e (λ q. cc) (λ q. cc)
            edges.0 in
        let c0 : TcpConnection S = set c reading (clock 0) in
        let f = set-fields c reading (clock 0) in
        let served' : Serving c0 = rw (f.0, f.1, buffer_size-set c reading (clock 0)) served in
        let (out, ran, d) = receive-Handed c0 live0 e0 (f.2 ∙ held) served' in
        (
          out,
          rw (ap (λ s. is_state s connection_error) e0) (
              ap (λ b. if b then receive protocol c0 (pos (suc n)) buff clock else none) open_socket
              ∙ ran),
          same-Handed c c0 h' source sink u out f.3 f.4 d,
        )

    pub notify-Handed :
        (c : TcpConnection S) (sends : Sends)
        → IsLive t c
        → state c ≡ ready_to_read
        → c.socket ≡ true
        → c.handler ≡ some h
        → Serving c
        → (out : TcpConnection S) × (notify protocol c read_socket (pos (suc n)) buff sends clock
            ≡ some out)
          × Handed t c h' source sink u out
    unfolding notify start_timer
    notify-Handed c sends live e open_socket held served =
        let timed : TcpConnection S = start_timer c (clock 0).entry in
        let live' : IsLive t timed = record { tables = live.tables; changed = live.changed } in
        let (out, ran, d) = read-Handed timed live' e open_socket held served in
        (out, ran, same-Handed c timed h' source sink u out refl refl d)
