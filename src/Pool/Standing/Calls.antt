-- ===== src/Pool/Standing/Calls.antt =====
-- The calls of a connection of src/tcp_connection.cpp that has what it needs return.
use nimlib.Prelude.{
  ℕ, zero, suc, ◌≤◌, ◌≡◌, refl, ap, ◌∙◌, inl, inr, Bool, true, false, ◌||◌, Option, none, some, [],
  ◌++◌, arith, if◌then◌else◌, ◌==◌, ltb, length, take, drop, Bool-cases,
}
use nimlib.Prelude.Int.{ℤ, pos, negsuc}
use nimlib.Prelude.Text.{Text}
use nimlib.Constants.{
  ready_to_read, reading, handling, ready_to_write, writing, done, connection_error,
}
use nimlib.Utils.StateManager.{Readings}
use nimlib.Connection.{
  Protocol, TcpConnection, Sends, is_state, state, set, get, end_timer, send_loop, counted, wire_of,
  with_wire, connection_of, write_out, sent_all, sent, write, receive, read, notify_handler,
  after_handler, run_handler,
}
use nimlib.Connection.Sending.{AreSends, send_loop_total}
use nimlib.Pool.Standing.{
  Asks, Serves, IsServing, set-IsServing, get-IsServing, streams-IsServing, handler-IsServing,
  timers-IsServing,
}

module _ {S : Type 0} (Good : S → Type 0) where
  -- A call returns a connection that has what it needs.
  abbrev pub Served : ℕ → Option (TcpConnection S) → Type 0
  Served i o = (c : TcpConnection S) × (o ≡ some c) × IsServing Good i c

  module _ (protocol : Protocol S) (serves : Serves protocol Good) where
    notify_handler-Served :
        (i : ℕ) (c : TcpConnection S) (h : S) (r : Readings)
        → IsServing Good i c
        → Asks protocol h
        → Served i (notify_handler protocol c h r)
    unfolding notify_handler
    notify_handler-Served i c h r s asks = elim (Bool-cases (protocol.wants_to_write h)) [
      | inl a ↦ (set c ready_to_write r, rw a, set-IsServing Good i c ready_to_write r s)
      | inr a ↦ elim (Bool-cases (protocol.wants_to_live h)) [
        | inl b ↦ (set c ready_to_write r, rw (a, b), set-IsServing Good i c ready_to_write r s)
        | inr b ↦ elim (Bool-cases (protocol.wants_more_bytes h)) [
          | inl d ↦ (set c ready_to_read r, rw (a, b, d), set-IsServing Good i c ready_to_read r s)
          | inr d ↦ elim (Bool-cases (protocol.wants_to_be_calledback h)) [
            | inl e ↦
                (set c ready_to_write r, rw (a, b, d, e), set-IsServing Good i c ready_to_write r s)
            | inr e ↦ absurd (elim asks [
              | inl x ↦ cc
              | inr (inl x) ↦ cc
              | inr (inr (inl x)) ↦ cc
              | inr (inr (inr x)) ↦ cc
            ])
          ]
        ]
      ]
    ]

    after_handler-Served :
        (i : ℕ) (c : TcpConnection S) (r : Readings) (h : S) (source sink : Text) (b : Bool)
        → IsServing Good i c
        → Good h
        → (b ≡ true → Asks protocol h)
        → Served i (after_handler protocol c r (some (h, source, sink, b)))
    after_handler-Served i c r h source sink true s good asks =
        notify_handler-Served i
          (record c { handler = some h; input_stream = source; output_stream = sink }) h r
          (handler-IsServing Good i c h source sink s good) (asks refl)
    after_handler-Served i c r h source sink false s good asks =
        (_, refl, handler-IsServing Good i c h source sink s good)

    pub run_handler-Served :
        (i : ℕ) (c : TcpConnection S) (r : Readings)
        → IsServing Good i c
        → Served i (run_handler protocol c r)
    unfolding run_handler
    run_handler-Served i c r s =
        let (h, held, good) = s.handler in
        let (h', source, sink, b, ran, good', asks) =
          serves.runs h c.input_stream c.output_stream good in
        let (c', e, s') = after_handler-Served i c r h' source sink b s good' asks in
        (c', rw (held, ran) e, s')

    receive-Served :
        (i : ℕ) (c : TcpConnection S) (bytes_count : ℤ) (buff : Text) (clock : ℕ → Readings)
        → IsServing Good i c
        → Served i (receive protocol c bytes_count buff clock)
    unfolding receive
    receive-Served i c (pos zero) buff clock s =
        (_, refl, set-IsServing Good i c connection_error (clock 1) s)
    receive-Served i c (negsuc n) buff clock s =
        (_, refl, set-IsServing Good i c connection_error (clock 1) s)
    receive-Served i c (pos (suc n)) buff clock s =
        let filled : TcpConnection S = record c {
          input_stream = c.input_stream ++ take (suc n) (take c.buffer_size buff);
        } in
        let s' : IsServing Good i (set filled handling (clock 1)) =
          set-IsServing Good i filled handling (clock 1)
            (streams-IsServing Good i c filled.input_stream c.output_stream s) in
        let (c', e, s'') = run_handler-Served i (set filled handling (clock 1)) (clock 2) s' in
        (get c' (clock 3), rw e, get-IsServing Good i c' (clock 3) s'')

    pub read-Served :
        (i : ℕ) (c : TcpConnection S) (bytes_count : ℤ) (buff : Text) (clock : ℕ → Readings)
        → IsServing Good i c
        → Served i (read protocol c bytes_count buff clock)
    unfolding read
    read-Served i c bytes_count buff clock s =
        let c' : TcpConnection S = set c reading (clock 0) in
        let s' : IsServing Good i c' = set-IsServing Good i c reading (clock 0) s in
        elim (Bool-cases (is_state (state (set c reading (clock 0))) connection_error)) [
          | inl e ↦ (c', rw e, s')
          | inr e ↦
              let (out, ran, served) = receive-Served i c' bytes_count buff clock s' in
              (
                out,
                rw e (
                    ap (λ b. if b then receive protocol c' bytes_count buff clock else none)
                      s.socket
                    ∙ ran),
                served,
              )
        ]

    sent_all-Served :
        (i : ℕ) (c : TcpConnection S) (clock : ℕ → Readings) (h : S)
        → IsServing Good i c
        → Served i (sent_all protocol c clock (some h))
    sent_all-Served i c clock h s = elim (Bool-cases (protocol.wants_to_be_calledback h)) [
      | inl a ↦ (
        set (record c { output_stream = [] }) handling (clock 1),
        rw a,
        set-IsServing Good i (record c { output_stream = [] }) handling (clock 1)
            (streams-IsServing Good i c c.input_stream [] s),
      )
      | inr a ↦ elim (Bool-cases (protocol.wants_to_live h)) [
        | inl b ↦
            let quiet : TcpConnection S = record c { output_stream = []; input_stream = [] } in
            let ended : TcpConnection S = end_timer quiet (clock 1).entry in
            (
              set ended ready_to_read (clock 1),
              rw (a, b),
              set-IsServing Good i ended ready_to_read (clock 1)
                  (timers-IsServing Good i quiet (clock 1).entry
                    (streams-IsServing Good i c [] [] s)).0,
            )
        | inr b ↦ (
          set (record c { output_stream = [] }) done (clock 1),
          rw (a, b),
          set-IsServing Good i (record c { output_stream = [] }) done (clock 1)
              (streams-IsServing Good i c c.input_stream [] s),
        )
      ]
    ]

    sent-Served :
        (i : ℕ) (c : TcpConnection S) (clock : ℕ → Readings) (n : ℕ)
        → IsServing Good i c
        → n ≤ length c.output_stream
        → Served i (sent protocol c clock (some n))
    unfolding sent
    sent-Served i c clock n s le =
        let (h, held, good) = s.handler in
        let (out, e, served) = sent_all-Served i c clock h s in
        elim (Bool-cases (n == length c.output_stream)) [
          | inl all ↦ (out, rw all (ap (sent_all protocol c clock) held ∙ e), served)
          | inr less ↦
              let rest : TcpConnection S = record c { output_stream = drop n c.output_stream } in
              let lt : ltb n (length c.output_stream) ≡ true = ground arith in
              (
                set rest ready_to_write (clock 1),
                rw (less, lt),
                set-IsServing Good i rest ready_to_write (clock 1)
                    (streams-IsServing Good i c c.input_stream rest.output_stream s),
              )
        ]

    pub write-Served :
        (i : ℕ) (c : TcpConnection S) (sends : Sends) (clock : ℕ → Readings)
        → IsServing Good i c
        → AreSends sends
        → Served i (write protocol c sends clock)
    unfolding write write_out set
    write-Served i c sends clock s ok =
        let c' : TcpConnection S = set c writing (clock 0) in
        let s' : IsServing Good i c' = set-IsServing Good i c writing (clock 0) s in
        let total : ℕ = length c.output_stream in
        let loop = send_loop (suc total) sends 0 c.output_stream 0 [] in
        let (n, ran, low, high) =
          send_loop_total (suc total) sends 0 c.output_stream 0 [] ok (omega arith) (omega arith)
            refl in
        elim (Bool-cases (is_state (state (set c writing (clock 0))) connection_error)) [
          | inl e ↦ (c', rw e, s')
          | inr e ↦
              let (out, wrote, served) = sent-Served i c' clock n s' high in
              (
                out,
                rw e (
                    ap
                      (λ b. connection_of (
                        if b || (total == 0)
                        then with_wire (wire_of loop) (sent protocol c' clock (counted loop))
                        else none))
                      s.socket
                    ∙ ap
                        (λ o.
                          connection_of
                            (with_wire (wire_of o) (sent protocol c' clock (counted o))))
                        ran
                    ∙ ap (λ x. connection_of (with_wire (take n c.output_stream) x)) wrote),
                served,
              )
        ]
