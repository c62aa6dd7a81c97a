-- ===== src/Pool/Standing.antt =====
-- How the connections of the pool of src/tcp_connection_pool.cpp stand: what each operation of
-- src/tcp_connection.cpp needs, so that it neither fails an assertion nor follows a null pointer.
pub mod Calls
pub mod Tidy
use nimlib.Prelude.{
  ℕ, zero, suc, ◌+◌, ◌-◌, ◌<◌, ◌≤◌, ◌≡◌, refl, sym, ap, ◌∙◌, ◌≢◌, ◌⊎◌, inl, inr, Bool, true, false,
  ◌||◌, Option, none, some, List, [], ◌∷◌, ◌++◌, arith, if◌then◌else◌, ◌==◌, ltb, length, take,
  drop, Bool-cases, ite,
}
use nimlib.Prelude.Int.{ℤ, pos, negsuc}
use nimlib.Prelude.Text.{Text}
use nimlib.Constants.{
  ConnectionState, ConnectionState-discrete, ready_to_read, reading, handling, ready_to_write,
  writing, done, inactive, connection_error,
}
use nimlib.Utils.StateManager.{
  StateManager, Readings, set_state, change, reset_state, count_reset, get_state, timed_out,
}
use nimlib.Connection.{
  Protocol, TcpConnection, Sends, is_state, state, set, get, end_timer, start_timer, send_loop,
  sent_all, sent, write, receive, read, notify_handler, after_handler, run_handler, with_state,
}
use nimlib.Connection.States.{IsConnection, set-tables, get-tables}
use nimlib.Connection.Sending.{AreSends, send_loop_total}

-- One of the questions that the connection asks of its handler is answered with yes.
abbrev pub Asks : {S : Type 0} → Protocol S → S → Type 0
Asks protocol h =
    (protocol.wants_to_write h ≡ true)
    ⊎ (protocol.wants_to_live h ≡ true)
    ⊎ (protocol.wants_more_bytes h ≡ true)
    ⊎ (protocol.wants_to_be_calledback h ≡ true)

-- Handlers that are `Good` serve every notification, stay so, and ask for something when they notify
-- the connection.
pub record Serves {S : Type 0} (protocol : Protocol S) (Good : S → Type 0) : Type 0 where
  pub runs :
      (h : S) (source sink : Text)
      → Good h
      → (h' : S) × (source' : Text) × (sink' : Text) × (b : Bool) × (protocol.notify h source sink
          ≡ some (h', source', sink', b))
        × Good h'
        × (b ≡ true → Asks protocol h')

module _ {S : Type 0} (Good : S → Type 0) where
  -- A connection at the index `i`, not 0, that has a socket and a good handler.
  pub record IsServing (i : ℕ) (c : TcpConnection S) : Type 0 where
    pub same_id : c.id ≡ i
    pub tables : IsConnection c.connection_state
    pub positive : 0 < i
    pub socket : c.socket ≡ true
    pub handler : (h : S) × (c.handler ≡ some h) × Good h

  -- A connection at the index `i`: it is inactive, or it has failed, or it has what it needs. That
  -- at the index 0 is inactive.
  pub record IsPooled (i : ℕ) (c : TcpConnection S) : Type 0 where
    pub same_id : c.id ≡ i
    pub tables : IsConnection c.connection_state
    pub standing : (state c ≡ inactive) ⊎ ((0 < i) × (state c ≡ connection_error)) ⊎ IsServing i c

  pub serving-IsPooled : (i : ℕ) (c : TcpConnection S) → IsServing i c → IsPooled i c
  serving-IsPooled i c s = record { same_id = s.same_id; tables = s.tables; standing = inr (inr s) }

  pub set-IsServing :
      (i : ℕ) (c : TcpConnection S) (u : ConnectionState) (r : Readings)
      → IsServing i c
      → IsServing i (set c u r)
  unfolding set
  set-IsServing i c u r s = record {
    same_id = s.same_id;
    tables = set-tables c u r s.tables;
    positive = s.positive;
    socket = s.socket;
    handler = s.handler;
  }

  pub get-IsServing :
      (i : ℕ) (c : TcpConnection S) (r : Readings) → IsServing i c → IsServing i (get c r)
  unfolding get
  get-IsServing i c r s = record {
    same_id = s.same_id;
    tables = get-tables c r s.tables;
    positive = s.positive;
    socket = s.socket;
    handler = s.handler;
  }

  pub streams-IsServing :
      (i : ℕ) (c : TcpConnection S) (source sink : Text)
      → IsServing i c
      → IsServing i (record c { input_stream = source; output_stream = sink })
  streams-IsServing i c source sink s = record {
    same_id = s.same_id;
    tables = s.tables;
    positive = s.positive;
    socket = s.socket;
    handler = s.handler;
  }

  pub handler-IsServing :
      (i : ℕ) (c : TcpConnection S) (h : S) (source sink : Text)
      → IsServing i c
      → Good h
      → IsServing i (record c { handler = some h; input_stream = source; output_stream = sink })
  handler-IsServing i c h source sink s good = record {
    same_id = s.same_id;
    tables = s.tables;
    positive = s.positive;
    socket = s.socket;
    handler = (h, refl, good);
  }

  pub timers-IsServing :
      (i : ℕ) (c : TcpConnection S) (now : ℕ)
      → IsServing i c
      → IsServing i (end_timer c now) × IsServing i (start_timer c now)
  unfolding end_timer start_timer
  timers-IsServing i c now s = (
    record {
      same_id = s.same_id;
      tables = s.tables;
      positive = s.positive;
      socket = s.socket;
      handler = s.handler;
    },
    record {
      same_id = s.same_id;
      tables = s.tables;
      positive = s.positive;
      socket = s.socket;
      handler = s.handler;
    },
  )
