-- ===== src/Connection/Closing.antt =====
-- Closing a connection: `TcpConnection::halt` of src/tcp_connection.cpp.
use nimlib.Prelude.{ℕ, ◌≡◌, refl, ap, ◌∙◌, false, []}
use nimlib.Constants.{ConnectionState-discrete, done, inactive, connection_error}
use nimlib.Utils.StateManager.{Readings}
use nimlib.Connection.{TcpConnection, is_state, state, set, get, settle, halt, end_timer}
use nimlib.Connection.States.{IsPrompt, IsLive, set-edge, get-live, edge_done}

module _ {S : Type 0} (t : ℕ) where
  settle_done :
      (c : TcpConnection S) (r : Readings) → state c ≡ done → settle c r ≡ end_timer c r.stamp
  unfolding settle ConnectionState-discrete
  settle_done c r e = rw (ap (λ s. is_state s connection_error) e, ap (λ s. is_state s done) e)

  halt_fields :
      (c : TcpConnection S) (clock : ℕ → Readings)
      → (state (halt c clock) ≡ state (set (settle (get c (clock 0)) (clock 1)) inactive (clock 2)))
        × ((halt c clock).input_stream ≡ [])
        × ((halt c clock).output_stream ≡ [])
        × ((halt c clock).socket ≡ false)
  unfolding halt
  halt_fields c clock = (refl, refl, refl, refl)

  ended-IsLive : (c : TcpConnection S) (now : ℕ) → IsLive t c → IsLive t (end_timer c now)
  unfolding end_timer
  ended-IsLive c now live = record { tables = live.tables; changed = live.changed }

  state-end_timer : (c : TcpConnection S) (now : ℕ) → state (end_timer c now) ≡ state c
  unfolding end_timer
  state-end_timer c now = refl

  -- `halt` of a connection in DONE that finds no time-out leaves it inactive, with empty streams and
  -- without a socket.
  pub halt_done :
      (c : TcpConnection S) (clock : ℕ → Readings)
      → IsLive t c
      → (IsPrompt t (clock 0) × IsPrompt t (clock 2))
      → state c ≡ done
      → (state (halt c clock) ≡ inactive)
        × ((halt c clock).input_stream ≡ [])
        × ((halt c clock).output_stream ≡ [])
        × ((halt c clock).socket ≡ false)
  halt_done c clock live (p0, p2) e =
      let f = halt_fields c clock in
      let ended : TcpConnection S = end_timer c (clock 1).stamp in
      let settled =
        ap (λ x. settle x (clock 1)) (get-live c t (clock 0) live p0) ∙ settle_done c (clock 1) e in
      let (e', _) =
        set-edge ended done inactive t (clock 2) (ended-IsLive c (clock 1).stamp live) p2
          (state-end_timer c (clock 1).stamp ∙ e) (λ q. cc) (λ q. cc) edge_done in
      (f.0 ∙ ap (λ x. state (set x inactive (clock 2))) settled ∙ e', f.1, f.2, f.3)
