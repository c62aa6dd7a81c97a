-- ===== src/Connection/Tests.antt =====
-- A response that is written byte by byte, for src/tcp_connection.cpp.
use nimlib.Prelude.{take, ◌++◌, ℕ, ◌≡◌, refl, Bool, true, false, none, some, [], ◌∷◌, arith}
use nimlib.Prelude.Int.{pos}
use nimlib.Constants.{ready_to_read, ready_to_write, connection_error}
use nimlib.Utils.StateManager.{Readings}
use nimlib.Connection.{
  Protocol, TcpConnection, Sends, states_transition_map, max_reset_counts, state_time_outs, write,
  send_loop, write_out, notify,
}
use nimlib.Connection.States.{IsPrompt, IsLive}
use nimlib.Prelude.{take, ◌++◌, zero, suc, List}
use nimlib.Prelude.Int.{negsuc}
use nimlib.Connection.Writing.{Wrote, write-Wrote, Finished}
use nimlib.Connection.Sending.{AreSends}
use nimlib.Connection.Draining.{Turn, IsTurn, drain, drain-Finished}

abbrev lives : Protocol Bool
lives = record {
  notify = λ h source sink. none;
  wants_more_bytes = λ h. false;
  wants_to_write = λ h. false;
  wants_to_live = λ h. h;
  wants_to_be_calledback = λ h. false;
}

abbrev response_ready : TcpConnection Bool
response_ready = record {
  id = 4;
  buffer_size = 1024;
  connection_state = record {
    state = ready_to_write;
    initial_state = ready_to_read;
    error_state = connection_error;
    transition_map = states_transition_map;
    msec_time_outs = state_time_outs;
    max_reset_counts = max_reset_counts;
    reset_count = 0;
    last_state_change = 0;
  };
  input_stream = 7 ∷ [];
  output_stream = 1 ∷ 2 ∷ 3 ∷ [];
  socket = true;
  handler = some true;
  timer = record { start_point = 0; timing = true };
  measured = [];
}

abbrev clock : ℕ → Readings
clock i = record { entry = 1; check = 1; stamp = 1 }

abbrev byte_by_byte : Sends
byte_by_byte i n = pos 1

byte_by_byte-AreSends : AreSends byte_by_byte
byte_by_byte-AreSends i n h = (omega arith, h)

response_ready-IsLive : IsLive 0 response_ready
response_ready-IsLive = record {
  tables = record {
    initial = refl;
    error = refl;
    transitions = refl;
    limits = refl;
    time_outs = refl;
  };
  changed = omega arith;
}

clock-IsPrompt : (i : ℕ) → IsPrompt 0 (clock i)
clock-IsPrompt i = record { entry = omega arith; check = omega arith; stamp = omega arith }

write-Wrote_example :
    (out : TcpConnection Bool) × (write lives response_ready byte_by_byte clock ≡ some out)
    × (w : Wrote 0 lives response_ready true out) × (write_out lives response_ready byte_by_byte
          clock
        ≡ some (out, take w.taken response_ready.output_stream))
    × (send_loop 4 byte_by_byte 0 response_ready.output_stream 0 []
        ≡ some (w.taken, take w.taken response_ready.output_stream))
write-Wrote_example =
    write-Wrote lives response_ready true 0 clock response_ready-IsLive clock-IsPrompt refl refl
      byte_by_byte byte_by_byte-AreSends refl

-- The handler writes what it has read.
abbrev echoes : Protocol Bool
echoes = record {
  notify = λ h source sink. some (true, [], source, true);
  wants_more_bytes = λ h. false;
  wants_to_write = λ h. h;
  wants_to_live = λ h. false;
  wants_to_be_calledback = λ h. false;
}

abbrev ready : TcpConnection Bool
ready = record response_ready {
  buffer_size = 2;
  connection_state = record response_ready.connection_state { state = ready_to_read };
  output_stream = [];
}

-- One byte in each turn, behind which the socket takes no more for now.
abbrev one_byte : Sends
one_byte zero n = pos 1
one_byte (suc i) n = negsuc 10

one_byte-AreSends : AreSends one_byte
one_byte-AreSends zero n h = (omega arith, h)
one_byte-AreSends (suc i) n h = tt

one_byte-IsTurn : IsTurn 0 (one_byte, clock)
one_byte-IsTurn = record {
  sends = one_byte-AreSends;
  first = λ n h. (1, refl);
  prompt = clock-IsPrompt;
}

abbrev three_turns : List Turn
three_turns = (one_byte, clock) ∷ (one_byte, clock) ∷ (one_byte, clock) ∷ []

drain-Finished_example :
    (out : TcpConnection Bool) × (drain lives three_turns response_ready []
      ≡ some (out, [] ++ response_ready.output_stream))
    × Finished lives true out
drain-Finished_example =
    drain-Finished lives 0 true three_turns response_ready [] response_ready-IsLive refl refl refl
      (one_byte-IsTurn, (one_byte-IsTurn, (one_byte-IsTurn, tt))) (omega arith) (omega arith)
