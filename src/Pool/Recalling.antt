-- ===== src/Pool/Recalling.antt =====
-- A response in several parts, through src/tcp_connection.cpp and the `clean_up` of
-- src/tcp_connection_pool.cpp.
pub mod Rounds
use nimlib.Prelude.{
  ℕ, suc, ◌+◌, ◌<◌, ◌≤◌, ◌≡◌, true, false, Option, none, some, List, [], ◌∷◌, ◌++◌, length, take,
}
use nimlib.Prelude.Int.{pos}
use nimlib.Prelude.Text.{Text}
use nimlib.Constants.{ready_to_write, inactive, write_socket}
use nimlib.Utils.StateManager.{Readings}
use nimlib.Connection
use nimlib.Connection.{Protocol, TcpConnection, Sends, state, write_out, bytes_taken}
use nimlib.Connection.States.{IsPrompt}
use nimlib.Connection.Reading.{Waits}
use nimlib.Pool.{clean_up_one}

-- What a round of the server does with a connection that is ready to write: what its sends return, and
-- the clock in `write` and in `clean_up`.
pub record Turn : Type 0 where
  pub sends : Sends
  pub write_clock : ℕ → Readings
  pub tidy_clock : ℕ → Readings

-- Every send takes at least one byte and at most all that it is given, and nothing times out.
pub record IsTurn (t : ℕ) (turn : Turn) : Type 0 where
  pub all : (j n : ℕ) → 0 < n → (k : ℕ) × (turn.sends j n ≡ pos k) × (0 < k) × (k ≤ n)
  pub writes : (i : ℕ) → IsPrompt t (turn.write_clock i)
  pub tidies : (i : ℕ) → IsPrompt t (turn.tidy_clock i)

module _ {S : Type 0} (protocol : Protocol S) where
  -- The bytes that the socket takes in the loop of `write`.
  abbrev pub bytes_of : Turn → TcpConnection S → Text
  bytes_of turn c = bytes_taken (write_out protocol c turn.sends turn.write_clock)

  abbrev pub tidied : (ℕ → Readings) → Option (TcpConnection S) → Option (TcpConnection S)
  tidied clock none = none
  tidied clock (some c) = clean_up_one protocol c clock

  -- `notify(WRITE_SOCKET)` and the body of the loop of `clean_up`.
  unfoldable pub take_turn : Turn → TcpConnection S → Option (TcpConnection S)
  take_turn turn c =
      tidied turn.tidy_clock
        (Connection.notify protocol c write_socket (pos 0) [] turn.sends turn.write_clock)

  abbrev pub and_turns :
      (TcpConnection S → Text → Option (TcpConnection S × Text))
      → Text
      → Option (TcpConnection S)
      → Option (TcpConnection S × Text)
  and_turns f sent none = none
  and_turns f sent (some c) = f c sent

  -- The turns in order, with the bytes sent so far.
  unfoldable pub take_turns : List Turn → TcpConnection S → Text → Option (TcpConnection S × Text)
  take_turns [] c sent = some (c, sent)
  take_turns (turn ∷ turns) c sent =
      and_turns (take_turns turns) (sent ++ bytes_of turn c) (take_turn turn c)

  -- A handler whose response stands in the output stream, the text of what it will write when it is
  -- called back, and the turns that this takes: it is the last one and wants nothing more, or it wants
  -- to be called back, reads nothing then, writes the next part and has the connection write it.
  pub data Serves : S → Text → ℕ → Type 0 where
    last :
        (h : S)
        → protocol.wants_to_be_calledback h ≡ false
        → protocol.wants_to_live h ≡ false
        → Serves h [] 1
    more :
        (h h' : S) (body rest : Text) (n : ℕ)
        → protocol.wants_to_be_calledback h ≡ true
        → ((source : Text) → protocol.notify h source [] ≡ some (h', source, body, true))
        → Waits protocol h' ready_to_write
        → Serves h' rest n
        → Serves h (body ++ rest) (suc n)

  -- Inactive, with empty streams and without a socket.
  abbrev pub Closed : TcpConnection S → Type 0
  Closed out =
      (state out ≡ inactive)
      × (out.input_stream ≡ [])
      × (out.output_stream ≡ [])
      × (out.socket ≡ false)
