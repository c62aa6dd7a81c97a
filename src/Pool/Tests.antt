-- ===== src/Pool/Tests.antt =====
-- A response in two parts, through the connection and `clean_up` of src/tcp_connection_pool.cpp.
use nimlib.Prelude.{ℕ, zero, suc, Bool, true, false, some, [], ◌∷◌, ◌++◌}
use nimlib.Prelude.Int.{pos}
use nimlib.Constants.{ready_to_read, ready_to_write, connection_error}
use nimlib.Utils.StateManager.{Readings}
use nimlib.Connection.{
  Protocol, TcpConnection, states_transition_map, max_reset_counts, state_time_outs,
}
use nimlib.Pool.Recalling.{Turn}

-- A handler that writes the byte 9 when it is called back, once.
abbrev is_last : ℕ → Bool
is_last zero = true
is_last (suc n) = false

abbrev is_more : ℕ → Bool
is_more zero = false
is_more (suc n) = true

abbrev parts : Protocol ℕ
parts = record {
  notify = λ n source sink. some (zero, source, sink ++ 9 ∷ [], true);
  wants_more_bytes = λ n. false;
  wants_to_write = is_last;
  wants_to_live = λ n. false;
  wants_to_be_calledback = is_more;
}

abbrev ready : TcpConnection ℕ
ready = record {
  id = 4;
  buffer_size = 1024;
  connection_state = record {
    state = ready_to_write;
    initial_state = ready_to_read;
    error_state = connection_error;
    transition_map = states_transition_map;
    msec_time_outs = state_time_outs;
    max_reset_counts = max_reset_counts;
    reset_count = 0;
    last_state_change = 0;
  };
  input_stream = 7 ∷ [];
  output_stream = 1 ∷ 2 ∷ [];
  socket = true;
  handler = some 1;
  timer = record { start_point = 0; timing = true };
  measured = [];
}

abbrev at_one : Readings
at_one = record { entry = 1; check = 1; stamp = 1 }

abbrev bytewise : Turn
bytewise = record { sends = λ i n. pos 1; write_clock = λ i. at_one; tidy_clock = λ i. at_one }
