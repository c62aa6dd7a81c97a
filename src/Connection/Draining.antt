-- ===== src/Connection/Draining.antt =====
-- Repeated calls of `notify(WRITE_SOCKET)` of src/tcp_connection.cpp, as the server makes them.
use nimlib.Prelude.{
  append_assoc, append-nil, ◌++◌, ℕ, suc, ◌+◌, ◌≤◌, ◌<◌, ◌≡◌, refl, sym, ap, ◌∙◌, subst, inl, inr,
  true, false, Option, none, some, List, [], ◌∷◌, arith, if◌then◌else◌, length, take, length-append,
  length-take, All, lt→ltb, some_inj,
}
use nimlib.Prelude.Int.{pos}
use nimlib.Constants.{write_socket, ready_to_write, ConnectionState-discrete}
use nimlib.Utils.StateManager.{Readings}
use nimlib.Connection
use nimlib.Connection.{
  Protocol, TcpConnection, Sends, is_state, state, send_loop, write, write_out, bytes_taken,
}
use nimlib.Connection.States.{IsPrompt, IsLive}
use nimlib.Connection.Writing.{Wrote, Finished, write-Wrote}
use nimlib.Prelude.Text.{Text}
use nimlib.Connection.Sending.{AreSends, IsSend, send_loop_total}

-- A call gets the results of its sends and its readings of the clock.
abbrev pub Turn : Type 0
Turn = Sends × (ℕ → Readings)

-- Sends that fail or take at least one byte, the first of which takes one; and nothing times out.
pub record IsTurn (t : ℕ) (turn : Turn) : Type 0 where
  pub sends : AreSends turn.0
  pub first : (n : ℕ) → 0 < n → (k : ℕ) × (turn.0 0 n ≡ pos k)
  pub prompt : (i : ℕ) → IsPrompt t (turn.1 i)

-- The first send is not lost: the loop has sent a byte when it ends.
send_loop_progress :
    (sends : Sends) (fuel : ℕ) (response : Text) (n : ℕ)
    → AreSends sends
    → ((m : ℕ) → 0 < m → (k : ℕ) × (sends 0 m ≡ pos k))
    → 0 < length response
    → length response < suc fuel
    → send_loop (suc fuel) sends 0 response 0 [] ≡ some (n, take n response)
    → 0 < n
unfolding send_loop
send_loop_progress sends fuel response n ok first some_bytes enough e =
    let (k, f) = first (length response) some_bytes in
    let (positive, most) : (0 < k) × (k ≤ length response) =
      subst (λ z. IsSend z (length response)) f (ok 0 (length response) some_bytes) in
    let none_before : k ≡ 0 + k = omega arith in
    let (m, g, le, high) =
      send_loop_total fuel sends (0 + 1) response (0 + k) (take k response) ok (omega arith)
        (omega arith) (ap (λ j. take j response) none_before) in
    let ends : send_loop (suc fuel) sends 0 response 0 [] ≡ some (m, take m response) =
      rw (lt→ltb 0 (length response) some_bytes, f) g in
    let same : n ≡ m = ap (λ x. x.0) (some_inj (sym e ∙ ends)) in omega arith

module _ {S : Type 0} (protocol : Protocol S) where
  abbrev pub and_drain :
      (TcpConnection S → Text → Option (TcpConnection S × Text))
      → Text
      → Option (TcpConnection S)
      → Option (TcpConnection S × Text)
  and_drain f sent none = none
  and_drain f sent (some c) = f c sent

  -- The calls for the turns in order, while the connection is ready to write, with the bytes that the
  -- socket has taken so far.
  unfoldable pub drain : List Turn → TcpConnection S → Text → Option (TcpConnection S × Text)
  drain [] c sent = some (c, sent)
  drain ((sends, clock) ∷ turns) c sent =
      let rest =
        and_drain (drain turns) (sent ++ bytes_taken (write_out protocol c sends clock))
          (Connection.notify protocol c write_socket (pos 0) [] sends clock) in
      if is_state (state c) ready_to_write then rest else some (c, sent)

  module _ (t : ℕ) (h : S) where
    ready_lem :
        (c : TcpConnection S) → state c ≡ ready_to_write → is_state (state c) ready_to_write ≡ true
    unfolding ConnectionState-discrete
    ready_lem c e = ap (λ s. is_state s ready_to_write) e

    drain_ready :
        (sends : Sends) (clock : ℕ → Readings) (turns : List Turn) (c out : TcpConnection S)
        (sent : Text)
        → state c ≡ ready_to_write
        → write protocol c sends clock ≡ some out
        → drain ((sends, clock) ∷ turns) c sent
          ≡ drain turns out (sent ++ bytes_taken (write_out protocol c sends clock))
    unfolding drain Connection.notify
    drain_ready sends clock turns c out sent e f =
        rw (ready_lem c e)
          (ap (and_drain (drain turns) (sent ++ bytes_taken (write_out protocol c sends clock))) f)

    drain_over :
        (turns : List Turn) (out : TcpConnection S) (sent : Text)
        → is_state (state out) ready_to_write ≡ false
        → drain turns out sent ≡ some (out, sent)
    unfolding drain
    drain_over [] out sent e = refl
    drain_over ((sends, clock) ∷ turns) out sent e = rw e refl

    -- What was sent before, in a turn and behind it.
    in_order :
        (c out : TcpConnection S) (sends : Sends) (clock : ℕ → Readings) (sent : Text)
        (w : Wrote t protocol c h out)
        → write_out protocol c sends clock ≡ some (out, take w.taken c.output_stream)
        → (sent ++ bytes_taken (write_out protocol c sends clock)) ++ out.output_stream
          ≡ sent ++ c.output_stream
    in_order c out sends clock sent w went =
        append_assoc sent (bytes_taken (write_out protocol c sends clock)) out.output_stream
        ∙ ap (λ x. sent ++ (x ++ out.output_stream)) (ap bytes_taken went)
        ∙ ap (λ x. sent ++ x) w.bytes

    finished_over :
        (out : TcpConnection S)
        → Finished protocol h out
        → is_state (state out) ready_to_write ≡ false
    unfolding ConnectionState-discrete
    finished_over out (o, inl (b, e)) = ap (λ s. is_state s ready_to_write) e
    finished_over out (o, inr (inl (b, l, e, i))) = ap (λ s. is_state s ready_to_write) e
    finished_over out (o, inr (inr (b, l, e))) = ap (λ s. is_state s ready_to_write) e

    left_over :
        (c out : TcpConnection S) (w : Wrote t protocol c h out)
        → w.taken < length c.output_stream
        → w.taken + length out.output_stream ≡ length c.output_stream
    left_over c out w less =
        let sum = length-append (take w.taken c.output_stream) out.output_stream in
        let front = length-take w.taken c.output_stream in
        omega (arith, sum, front, ap length w.bytes, less)

    -- A connection that is ready to write, with a handler and a socket, has sent its whole response
    -- when it has been let write as often as there are bytes in it, and at least once, if in each turn
    -- the first send takes a byte and nothing times out: the socket has taken the bytes of the response
    -- in order and nothing else, the output stream is empty, and the state is HANDLING, READY_TO_READ
    -- or DONE as the handler asks.
    pub drain-Finished :
        (turns : List Turn) (c : TcpConnection S) (sent : Text)
        → IsLive t c
        → state c ≡ ready_to_write
        → c.handler ≡ some h
        → c.socket ≡ true
        → All (IsTurn t) turns
        → 0 < length turns
        → length c.output_stream ≤ length turns
        → (out : TcpConnection S) × (drain turns c sent ≡ some (out, sent ++ c.output_stream))
          × Finished protocol h out
    drain-Finished [] c sent live ready held open_socket ts some_turn enough = absurd (omega arith)
    drain-Finished ((sends, clock) ∷ turns) c sent live ready held open_socket (turn, ts) some_turn
          enough =
        let total = length c.output_stream in
        let (out, e, w, went, ran) =
          write-Wrote protocol c h t clock live turn.prompt ready held sends turn.sends
            open_socket in
        let sent' = sent ++ bytes_taken (write_out protocol c sends clock) in
        let step = drain_ready sends clock turns c out sent ready e in
        let joined = in_order c out sends clock sent w went in
        elim w.ends [
          | inr (all, finished) ↦
              let done : sent' ≡ sent ++ c.output_stream =
                sym (append-nil sent') ∙ ap (λ x. sent' ++ x) (sym finished.0) ∙ joined in
              (
                out,
                step
                    ∙ drain_over turns out sent' (finished_over out finished)
                    ∙ ap (λ x. some (out, x)) done,
                finished,
              )
          | inl (less, waits, input) ↦
              let progress =
                send_loop_progress sends total c.output_stream w.taken turn.sends turn.first
                  (omega (arith, less)) (omega arith) ran in
              let sum = left_over c out w less in
              let (end, f, finished) =
                drain-Finished turns out sent' w.live waits (w.same_handler ∙ held)
                  (w.same_socket ∙ open_socket) ts (omega (arith, sum, less, progress, enough))
                  (omega (arith, sum, progress, enough)) in
              (end, step ∙ f ∙ ap (λ x. some (end, x)) joined, finished)
        ]
