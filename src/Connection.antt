-- ===== src/Connection.antt =====
-- src/tcp_connection.h and tcp_connection.cpp: `TcpConnection`.
--
-- The handler is a state `S` with the operations of `Protocol`. A stream is the text in it; whether
-- its flags are good is not modelled, since `notify(handler)` clears them. What the socket returns
-- is given to the calls: what `tcp_read` read, and the result of each `tcp_send`. `none` is a failed
-- assertion, a null pointer that is followed, or an exception of the handler.
pub mod States
pub mod Sending
pub mod Writing
pub mod Reading
pub mod Closing
pub mod Draining
mod Tests
use nimlib.Prelude.{
  ℕ, zero, suc, ◌+◌, ◌-◌, ◌≡◌, Bool, true, false, ◌||◌, Option, none, some, List, [], ◌∷◌, ◌++◌,
  ite, ltb, ◌==◌, if◌then◌else◌, take, drop, length,
}
use nimlib.Prelude.Int.{ℤ, pos, negsuc}
use nimlib.Prelude.Text.{Text}
use nimlib.Constants.{
  ServerDirective, read_socket, write_socket, continue_handling, ConnectionState,
  ConnectionState-discrete, ready_to_read, reading, handling, ready_to_write, writing, done,
  inactive, connection_error,
}
use nimlib.Utils.StateManager
use nimlib.Utils.StateManager.{StateManager, Readings, set_state, get_state, clear}
use nimlib.Utils.Timer
use nimlib.Utils.Timer.{Timer}

abbrev pub states_transition_map : List (ConnectionState × List ConnectionState)
states_transition_map =
    (ready_to_read, inactive ∷ reading ∷ [])
    ∷ (reading, inactive ∷ handling ∷ [])
    ∷ (handling, inactive ∷ ready_to_read ∷ ready_to_write ∷ [])
    ∷ (ready_to_write, inactive ∷ writing ∷ [])
    ∷ (writing, inactive ∷ ready_to_write ∷ ready_to_read ∷ done ∷ handling ∷ [])
    ∷ (done, inactive ∷ [])
    ∷ (inactive, ready_to_read ∷ [])
    ∷ []

abbrev pub max_reset_counts : List (ConnectionState × ℕ)
max_reset_counts =
    (ready_to_read, 1000)
    ∷ (reading, 1000)
    ∷ (handling, 1000)
    ∷ (ready_to_write, 1000)
    ∷ (writing, 1000)
    ∷ []

abbrev pub state_time_outs : List (ConnectionState × ℕ)
state_time_outs =
    (ready_to_read, 1000000000)
    ∷ (reading, 1000000000)
    ∷ (handling, 1000000000)
    ∷ (ready_to_write, 1000000000)
    ∷ (writing, 1000000000)
    ∷ (done, 1000000000)
    ∷ []

-- What a connection asks of its handler: `notify(connection, streams)`, which gives the handler, the
-- streams and whether its last act is to notify the connection, and the four questions.
pub record Protocol (S : Type 0) : Type 0 where
  pub notify : S → Text → Text → Option (S × Text × Text × Bool)
  pub wants_more_bytes : S → Bool
  pub wants_to_write : S → Bool
  pub wants_to_live : S → Bool
  pub wants_to_be_calledback : S → Bool

-- `measured` are the durations that `response_timer` has forwarded to its metric, oldest first.
pub record TcpConnection (S : Type 0) : Type 0 where
  pub id : ℕ
  pub buffer_size : ℕ
  pub connection_state : StateManager ConnectionState
  pub input_stream : Text
  pub output_stream : Text
  pub socket : Bool
  pub handler : Option S
  pub timer : Timer
  pub measured : List ℕ

abbrev pub initial_manager : ℕ → StateManager ConnectionState
initial_manager now =
    StateManager.new ready_to_read connection_error states_transition_map max_reset_counts
      state_time_outs now

abbrev pub is_state : ConnectionState → ConnectionState → Bool
is_state a b = ite (ConnectionState-discrete a b) true false

abbrev pub forwarded : List ℕ → Option ℕ → List ℕ
forwarded ms none = ms
forwarded ms (some d) = ms ++ d ∷ []

module _ {S : Type 0} where
  abbrev pub state : TcpConnection S → ConnectionState
  state c = c.connection_state.state

  unfoldable pub set : TcpConnection S → ConnectionState → Readings → TcpConnection S
  set c s r = record c {
    connection_state = set_state ConnectionState-discrete c.connection_state s r;
  }

  -- `connection_state.get_state()`, which may change the state.
  unfoldable pub get : TcpConnection S → Readings → TcpConnection S
  get c r = record c {
    connection_state = get_state ConnectionState-discrete c.connection_state r.entry r;
  }

  -- `response_timer.end()` of src/metrics/measure.h.
  unfoldable pub end_timer : TcpConnection S → ℕ → TcpConnection S
  end_timer c now =
      let (t, d) = Timer.end c.timer now in
      record c { timer = t; measured = forwarded c.measured d }

  -- `response_timer.cancel()` and `response_timer.start()`.
  unfoldable pub cancel_timer : TcpConnection S → ℕ → TcpConnection S
  cancel_timer c now = record c { timer = (Timer.end c.timer now).0 }

  unfoldable pub start_timer : TcpConnection S → ℕ → TcpConnection S
  start_timer c now = record c { timer = (Timer.begin c.timer now).0 }

-- The result of each call of `tcp_send`, by the number of the call and of the bytes that it is
-- given: a negative number is an error.
abbrev pub Sends : Type 0
Sends = ℕ → ℕ → ℤ

-- The loop of `write`: the number of bytes that the program counts as sent, and the bytes that the
-- socket has taken, `wire` before: a `send` that returns `n` has taken the first `n` bytes that it is
-- given. `sent` counts the calls.
unfoldable pub send_loop : ℕ → Sends → ℕ → Text → ℕ → Text → Option (ℕ × Text)
send_loop zero sends sent response bytes_sent wire = none
send_loop (suc fuel) sends sent response bytes_sent wire =
    let given : Text = drop bytes_sent response in
    let rest =
      λ (n : ℕ). send_loop fuel sends (sent + 1) response (bytes_sent + n) (wire ++ take n given) in
    if ltb bytes_sent (length response)
    then elim (sends sent (length given)) [ pos n ↦ rest n | negsuc n ↦ some (bytes_sent, wire) ]
    else some (bytes_sent, wire)

abbrev pub counted : Option (ℕ × Text) → Option ℕ
counted none = none
counted (some (n, wire)) = some n

abbrev pub wire_of : Option (ℕ × Text) → Text
wire_of none = []
wire_of (some (n, wire)) = wire

module _ {S : Type 0} where
  -- A connection with the bytes that its socket has taken in a call.
  abbrev pub with_wire : Text → Option (TcpConnection S) → Option (TcpConnection S × Text)
  with_wire wire none = none
  with_wire wire (some c) = some (c, wire)

  abbrev pub connection_of : Option (TcpConnection S × Text) → Option (TcpConnection S)
  connection_of none = none
  connection_of (some (c, wire)) = some c

  abbrev pub bytes_taken : Option (TcpConnection S × Text) → Text
  bytes_taken none = []
  bytes_taken (some (c, wire)) = wire

  -- The constructor with a socket (`none` is a null pointer), and the one without, for the pool. They
  -- set their first state at `r`, and the timer is made at `r.entry`.
  unfoldable pub new_with_socket : Bool → ℕ → ℕ → Readings → TcpConnection S
  new_with_socket socket id buffer_size r =
      let c : TcpConnection S = record {
        id = id;
        buffer_size = buffer_size;
        connection_state = initial_manager r.entry;
        input_stream = [];
        output_stream = [];
        socket = socket;
        handler = none;
        timer = Timer.new r.entry;
        measured = [];
      } in
      if socket then c else set c connection_error r

  unfoldable pub new_inactive : ℕ → ℕ → Readings → TcpConnection S
  new_inactive id buffer_size r =
      set
        (record {
          id = id;
          buffer_size = buffer_size;
          connection_state = initial_manager r.entry;
          input_stream = [];
          output_stream = [];
          socket = false;
          handler = none;
          timer = Timer.new r.entry;
          measured = [];
        })
        inactive r

  unfoldable pub accept_socket : TcpConnection S → Bool → Readings → TcpConnection S
  accept_socket c socket r = set (record c { socket = socket }) ready_to_read r

  unfoldable pub set_handler : TcpConnection S → Option S → TcpConnection S
  set_handler c h = record c { handler = h }

  -- `halt`, whose branches on the state come first.
  unfoldable pub settle : TcpConnection S → Readings → TcpConnection S
  settle c r =
      if is_state (state c) connection_error
      then cancel_timer
          (record c {
            connection_state = clear ConnectionState-discrete c.connection_state r.stamp;
          })
          r.stamp
      else if is_state (state c) done
      then end_timer c r.stamp
      else c

  unfoldable pub halt : TcpConnection S → (ℕ → Readings) → TcpConnection S
  halt c clock = record (set (settle (get c (clock 0)) (clock 1)) inactive (clock 2)) {
    input_stream = [];
    output_stream = [];
    socket = false;
  }

  -- `get_state()` of the connection: the state is that of the connection returned.
  unfoldable pub get_connection_state : TcpConnection S → Readings → TcpConnection S
  get_connection_state c r = get c r

module _ {S : Type 0} (protocol : Protocol S) where
  -- `notify(notifying_handler)`.
  unfoldable pub notify_handler : TcpConnection S → S → Readings → Option (TcpConnection S)
  notify_handler c h r =
      if protocol.wants_to_write h
      then some (set c ready_to_write r)
      else if protocol.wants_to_live h
      then some (set c ready_to_write r)
      else if protocol.wants_more_bytes h
      then some (set c ready_to_read r)
      else if protocol.wants_to_be_calledback h
      then some (set c ready_to_write r)
      else none

  -- `handler->notify(*this, *this)`, with the call of `notify(handler)` that the handler ends with.
  abbrev pub after_handler :
      TcpConnection S → Readings → Option (S × Text × Text × Bool) → Option (TcpConnection S)
  after_handler c r none = none
  after_handler c r (some (h, source, sink, true)) =
      notify_handler (record c { handler = some h; input_stream = source; output_stream = sink }) h
        r
  after_handler c r (some (h, source, sink, false)) =
      some (record c { handler = some h; input_stream = source; output_stream = sink })

  abbrev pub with_handler : TcpConnection S → Readings → Option S → Option (TcpConnection S)
  with_handler c r none = none
  with_handler c r (some h) = after_handler c r (protocol.notify h c.input_stream c.output_stream)

  unfoldable pub run_handler : TcpConnection S → Readings → Option (TcpConnection S)
  run_handler c r = with_handler c r c.handler

  abbrev pub with_state : Option (TcpConnection S) → Readings → Option (TcpConnection S)
  with_state none r = none
  with_state (some c) r = some (get c r)

  -- `read`, behind the check of the state: `bytes_count` is the result of `tcp_read`, and `buff` the
  -- buffer of `buffer_size` bytes.
  unfoldable pub receive : TcpConnection S → ℤ → Text → (ℕ → Readings) → Option (TcpConnection S)
  receive c (pos zero) buff clock = some (set c connection_error (clock 1))
  receive c (negsuc n) buff clock = some (set c connection_error (clock 1))
  receive c (pos (suc n)) buff clock =
      with_state
        (run_handler
          (set
            (record c { input_stream = c.input_stream ++ take (suc n) (take c.buffer_size buff) })
            handling (clock 1))
          (clock 2))
        (clock 3)

  unfoldable pub read : TcpConnection S → ℤ → Text → (ℕ → Readings) → Option (TcpConnection S)
  read c bytes_count buff clock =
      let c' : TcpConnection S = set c reading (clock 0) in
      if is_state (state c') connection_error
      then some c'
      else if c.socket
      then receive c' bytes_count buff clock
      else none

  -- `write`, when all is sent.
  abbrev pub sent_all : TcpConnection S → (ℕ → Readings) → Option S → Option (TcpConnection S)
  sent_all c clock none = none
  sent_all c clock (some h) =
      if protocol.wants_to_be_calledback h
      then some (set (record c { output_stream = [] }) handling (clock 1))
      else if protocol.wants_to_live h
      then some (
          set (end_timer (record c { output_stream = []; input_stream = [] }) (clock 1).entry)
            ready_to_read (clock 1))
      else some (set (record c { output_stream = [] }) done (clock 1))

  -- `write`, behind the loop.
  unfoldable pub sent : TcpConnection S → (ℕ → Readings) → Option ℕ → Option (TcpConnection S)
  sent c clock none = none
  sent c clock (some n) =
      if n == length c.output_stream
      then sent_all c clock c.handler
      else if ltb n (length c.output_stream)
      then some (set (record c { output_stream = drop n c.output_stream }) ready_to_write (clock 1))
      else none

  -- `write`, with the bytes that the socket has taken. The socket is used if there is something to
  -- send. The fuel of the loop is one more than the bytes to send (`Sending.send_loop_total`).
  unfoldable pub write_out :
      TcpConnection S → Sends → (ℕ → Readings) → Option (TcpConnection S × Text)
  write_out c sends clock =
      let c' : TcpConnection S = set c writing (clock 0) in
      let total : ℕ = length c.output_stream in
      let loop = send_loop (suc total) sends 0 c.output_stream 0 [] in
      if is_state (state c') connection_error
      then some (c', [])
      else if c'.socket || (total == 0)
      then with_wire (wire_of loop) (sent c' clock (counted loop))
      else none

  -- What `write` leaves.
  unfoldable pub write : TcpConnection S → Sends → (ℕ → Readings) → Option (TcpConnection S)
  write c sends clock = connection_of (write_out c sends clock)

  -- `notify(directive)`, with what the socket returns.
  unfoldable pub notify :
      TcpConnection S
      → ServerDirective
      → ℤ
      → Text
      → Sends
      → (ℕ → Readings)
      → Option (TcpConnection S)
  notify c read_socket bytes_count buff sends clock =
      read (start_timer c (clock 0).entry) bytes_count buff clock
  notify c write_socket bytes_count buff sends clock = write c sends clock
  notify c continue_handling bytes_count buff sends clock = run_handler c (clock 0)
