-- ===== src/Connection/Writing.antt =====
-- Sending the response: `TcpConnection::write` of src/tcp_connection.cpp.
use nimlib.Prelude.{
  ℕ, suc, ◌≤◌, ◌<◌, ◌≡◌, refl, sym, ap, subst, ◌∙◌, ◌≢◌, ◌⊎◌, inl, inr, ◌||◌, true, false, none,
  some, [], ◌++◌, arith, if◌then◌else◌, ◌==◌, take, drop, length, take-append-drop, take-length,
  append-nil, dec_lt, ==_iff, lt→ltb, Bool-cases,
}
use nimlib.Constants.{
  ConnectionState, ConnectionState-discrete, ready_to_read, handling, ready_to_write, writing, done,
  connection_error,
}
use nimlib.Utils.StateManager.{Readings}
use nimlib.Connection.{
  Protocol, TcpConnection, Sends, is_state, state, set, end_timer, send_loop, counted, wire_of,
  with_wire, connection_of, write_out, sent_all, sent, write,
}
use nimlib.Connection.States.{IsConnection, IsPrompt, IsLive, HasEdge, edges, set-edge}
use nimlib.Connection.Sending.{AreSends, send_loop_total}

-- When all is sent, the output stream is empty, and the state is HANDLING for a handler that wants
-- to be called back, READY_TO_READ with an empty input stream for one that wants to live, and else
-- DONE.
abbrev pub Finished : {S : Type 0} → Protocol S → S → TcpConnection S → Type 0
Finished protocol h out =
    (out.output_stream ≡ [])
    × (((protocol.wants_to_be_calledback h ≡ true) × (state out ≡ handling))
        ⊎ ((protocol.wants_to_be_calledback h ≡ false)
            × (protocol.wants_to_live h ≡ true)
            × (state out ≡ ready_to_read)
            × (out.input_stream ≡ []))
        ⊎ ((protocol.wants_to_be_calledback h ≡ false)
            × (protocol.wants_to_live h ≡ false)
            × (state out ≡ done)))

-- What the socket took and what stays in the output stream make up the response. With something left
-- the state is READY_TO_WRITE again. The state was set at the time `t` or later.
pub record Wrote {S : Type 0} (t : ℕ) (protocol : Protocol S) (c : TcpConnection S) (h : S)
    (out : TcpConnection S) : Type 0 where
  pub taken : ℕ
  pub live : IsLive t out
  pub same_handler : out.handler ≡ c.handler
  pub same_socket : out.socket ≡ c.socket
  pub bytes : take taken c.output_stream ++ out.output_stream ≡ c.output_stream
  pub ends :
      ((taken < length c.output_stream)
        × (state out ≡ ready_to_write)
        × (out.input_stream ≡ c.input_stream))
      ⊎ ((taken ≡ length c.output_stream) × Finished protocol h out)

module _ {S : Type 0} (protocol : Protocol S) (c : TcpConnection S) (h : S) (t : ℕ)
    (clock : ℕ → Readings) (live : IsLive t c) (prompt : (i : ℕ) → IsPrompt t (clock i))
    (ready : state c ≡ ready_to_write) (held : c.handler ≡ some h) where
  -- The connection while it writes.
  abbrev busy : TcpConnection S
  busy = set c writing (clock 0)

  busy_lem : (state busy ≡ writing) × IsLive t busy
  busy_lem =
      set-edge c ready_to_write writing t (clock 0) live (prompt 0) ready (λ e. cc) (λ e. cc)
        edges.4

  set-streams :
      (c' : TcpConnection S) (u : ConnectionState) (r : Readings)
      → ((set c' u r).output_stream ≡ c'.output_stream)
        × ((set c' u r).input_stream ≡ c'.input_stream)
        × ((set c' u r).handler ≡ c'.handler)
        × ((set c' u r).socket ≡ c'.socket)
  unfolding set
  set-streams c' u r = (refl, refl, refl, refl)

  -- From the state WRITING, whatever the streams are by then.
  moved :
      (c' : TcpConnection S) (u : ConnectionState)
      → c'.connection_state ≡ busy.connection_state
      → u ≢ writing
      → HasEdge writing u
      → (state (set c' u (clock 1)) ≡ u) × IsLive t (set c' u (clock 1))
  moved c' u same other edge =
      let (e, l) = busy_lem in
      set-edge c' writing u t (clock 1)
        (record {
          tables = subst IsConnection (sym same) l.tables;
          changed = subst (λ m. t ≤ m.last_state_change) (sym same) l.changed;
        })
        (prompt 1) (ap (λ m. m.state) same ∙ e) (λ q. cc) other edge

  ended :
      (c' : TcpConnection S) (now : ℕ) → (end_timer c' now).connection_state ≡ c'.connection_state
  unfolding end_timer
  ended c' now = refl

  -- The same handler and socket.
  abbrev Holds : TcpConnection S → TcpConnection S → Type 0
  Holds c' out = (out.handler ≡ c'.handler) × (out.socket ≡ c'.socket)

  ended_streams :
      (c' : TcpConnection S) (now : ℕ)
      → ((end_timer c' now).output_stream ≡ c'.output_stream)
        × ((end_timer c' now).input_stream ≡ c'.input_stream)
        × Holds c' (end_timer c' now)
  unfolding end_timer
  ended_streams c' now = (refl, refl, (refl, refl))

  quiet : TcpConnection S
  quiet = record busy { output_stream = [] }

  alive : TcpConnection S
  alive = end_timer (record busy { output_stream = []; input_stream = [] }) (clock 1).entry

  alive_lem :
      (state (set alive ready_to_read (clock 1)) ≡ ready_to_read)
      × ((set alive ready_to_read (clock 1)).output_stream ≡ [])
      × ((set alive ready_to_read (clock 1)).input_stream ≡ [])
      × IsLive t (set alive ready_to_read (clock 1))
      × Holds busy (set alive ready_to_read (clock 1))
  unfolding alive
  alive_lem =
      let c' : TcpConnection S = record busy { output_stream = []; input_stream = [] } in
      let s = set-streams alive ready_to_read (clock 1) in
      let f = ended_streams c' (clock 1).entry in
      let (e, l) = moved alive ready_to_read (ended c' (clock 1).entry) (λ q. cc) edges.6 in
      (e, s.0 ∙ f.0, s.1 ∙ f.1, l, (s.2 ∙ f.2.0, s.3 ∙ f.2.1))

  quiet_lem :
      (u : ConnectionState)
      → u ≢ writing
      → HasEdge writing u
      → (state (set quiet u (clock 1)) ≡ u)
        × ((set quiet u (clock 1)).output_stream ≡ [])
        × IsLive t (set quiet u (clock 1))
        × Holds busy (set quiet u (clock 1))
  unfolding quiet
  quiet_lem u other edge =
      let (e, l) = moved quiet u refl other edge in
      let s = set-streams quiet u (clock 1) in (e, s.0, l, (s.2, s.3))

  sent_all_lem :
      (out : TcpConnection S) × (sent_all protocol busy clock (some h) ≡ some out)
      × Finished protocol h out
      × IsLive t out
      × Holds busy out
  unfolding quiet alive
  sent_all_lem = elim (Bool-cases (protocol.wants_to_be_calledback h)) [
    | inl b ↦
        let (s, o, k, holds) = quiet_lem handling (λ q. cc) edges.5 in
        (set quiet handling (clock 1), rw b, (o, inl (b, s)), k, holds)
    | inr b ↦ elim (Bool-cases (protocol.wants_to_live h)) [
      | inl l ↦
          let (s, o, i, k, holds) = alive_lem in
          (set alive ready_to_read (clock 1), rw (b, l), (o, inr (inl (b, l, s, i))), k, holds)
      | inr l ↦
          let (s, o, k, holds) = quiet_lem done (λ q. cc) edges.8 in
          (set quiet done (clock 1), rw (b, l), (o, inr (inr (b, l, s))), k, holds)
    ]
  ]

  -- `n` bytes are sent, of all that there are.
  sent_lem :
      (n : ℕ)
      → n ≤ length c.output_stream
      → (out : TcpConnection S) × (sent protocol busy clock (some n) ≡ some out)
        × (w : Wrote t protocol c h out) × (w.taken ≡ n)
  unfolding sent
  sent_lem n le =
      let fields = set-streams c writing (clock 0) in
      let size : length busy.output_stream ≡ length c.output_stream = ap length fields.0 in
      elim (dec_lt n (length c.output_stream)) [
        | no ge ↦
            let all : n ≡ length c.output_stream = omega arith in
            let (out, e, f, k, holds) = sent_all_lem in
            (
              out,
              rw (size, (==_iff n (length c.output_stream)).1 all)
                  (ap (sent_all protocol busy clock) (fields.2 ∙ held) ∙ e),
              record {
                taken = n;
                live = k;
                same_handler = holds.0 ∙ fields.2;
                same_socket = holds.1 ∙ fields.3;
                bytes =
                    ap (λ o. take n c.output_stream ++ o) f.0
                    ∙ append-nil (take n c.output_stream)
                    ∙ take-length n c.output_stream (omega arith);
                ends = inr (all, f);
              },
              refl,
            )
        | yes lt ↦
            let rest : TcpConnection S = record busy {
              output_stream = drop n busy.output_stream;
            } in
            let (waits, k) = moved rest ready_to_write refl (λ q. cc) edges.7 in
            let kept = set-streams rest ready_to_write (clock 1) in
            let differ : (n == length c.output_stream) ≡ false = ground arith in
            (
              set rest ready_to_write (clock 1),
              rw (size, differ, lt→ltb n (length c.output_stream) lt) refl,
              record {
                taken = n;
                live = k;
                same_handler = kept.2 ∙ fields.2;
                same_socket = kept.3 ∙ fields.3;
                bytes =
                    ap (λ o. take n c.output_stream ++ o) (kept.0 ∙ ap (drop n) fields.0)
                    ∙ take-append-drop n c.output_stream;
                ends = inl (lt, waits, kept.1 ∙ fields.1);
              },
              refl,
            )
      ]

  -- `write` in READY_TO_WRITE with a handler and a socket whose sends fail or take at least one byte,
  -- and with no time-out, ends. The bytes that the socket has taken in it and those left in the output
  -- stream make up the response, in order. Either some are left, and the state is READY_TO_WRITE with
  -- the input stream as it was; or none are, the output stream is empty, and the state is HANDLING for
  -- a handler that wants to be called back, READY_TO_READ with an empty input stream for one that wants
  -- to live, and else DONE.
  pub write-Wrote :
      (sends : Sends)
      → AreSends sends
      → c.socket ≡ true
      → (out : TcpConnection S) × (write protocol c sends clock ≡ some out)
        × (w : Wrote t protocol c h out) × (write_out protocol c sends clock
            ≡ some (out, take w.taken c.output_stream))
        × (send_loop (suc (length c.output_stream)) sends 0 c.output_stream 0 []
            ≡ some (w.taken, take w.taken c.output_stream))
  unfolding write write_out ConnectionState-discrete
  write-Wrote sends ok open_socket =
      let total : ℕ = length c.output_stream in
      let (n, ran, low, high) =
        send_loop_total (suc total) sends 0 c.output_stream 0 [] ok (omega arith) (omega arith)
          refl in
      let (out, e, w, q) = sent_lem n high in
      let fields = set-streams c writing (clock 0) in
      let loop = send_loop (suc total) sends 0 c.output_stream 0 [] in
      let ends : write_out protocol c sends clock ≡ some (out, take n c.output_stream) =
        rw (ap (λ s. is_state s connection_error) busy_lem.0) (
          ap
            (λ b.
              if b || (total == 0)
              then with_wire (wire_of loop) (sent protocol busy clock (counted loop))
              else none)
            (fields.3 ∙ open_socket)
          ∙ ap (λ o. with_wire (wire_of o) (sent protocol busy clock (counted o))) ran
          ∙ ap (with_wire (take n c.output_stream)) e) in
      (
        out,
        ap connection_of ends,
        w,
        ends ∙ ap (λ k. some (out, take k c.output_stream)) (sym q),
        ran ∙ ap (λ k. some (k, take k c.output_stream)) (sym q),
      )
