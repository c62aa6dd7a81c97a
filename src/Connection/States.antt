-- ===== src/Connection/States.antt =====
-- The state of a `TcpConnection` under the tables of src/tcp_connection.cpp.
use nimlib.Prelude.{
  ℕ, ◌+◌, ◌≤◌, ◌<◌, ◌≡◌, refl, sym, ap₂, ◌∙◌, ◌≢◌, inl, inr, true, false, arith, leb,
}
use nimlib.Prelude.Map.{find}
use nimlib.Constants.{
  ConnectionState, ConnectionState-discrete, ready_to_read, reading, handling, ready_to_write,
  writing, done, inactive, connection_error,
}
use nimlib.Utils.StateManager.{
  StateManager, Readings, listed, listed_in, expired, timed_out, get_state, msec_since,
}
use nimlib.Utils.StateManager.Laws.{set_state-Follows, set_state-Edge, get_state-Follows}
use nimlib.Connection.{
  TcpConnection, states_transition_map, max_reset_counts, state_time_outs, set, get, state,
}

-- The manager has the tables of `TcpConnection`.
pub record IsConnection (m : StateManager ConnectionState) : Type 0 where
  pub initial : m.initial_state ≡ ready_to_read
  pub error : m.error_state ≡ connection_error
  pub transitions : m.transition_map ≡ states_transition_map
  pub limits : m.max_reset_counts ≡ max_reset_counts
  pub time_outs : m.msec_time_outs ≡ state_time_outs

-- The nanoseconds of the time-out that all states share.
abbrev pub patience : ℕ
patience = 1000000000000000

-- All that the clock shows lies less than the time-out after the time `t`.
pub record IsPrompt (t : ℕ) (r : Readings) : Type 0 where
  pub entry : r.entry < t + patience
  pub check : r.check < t + patience
  pub stamp : t ≤ r.stamp

short_wait :
    (now last t : ℕ) → t ≤ last → now < t + patience → leb 1000000000 (msec_since now last) ≡ false
short_wait now last t h k = ground arith

limit_of :
    (s : ConnectionState) (msec : ℕ)
    → leb 1000000000 msec ≡ false
    → expired (find ConnectionState-discrete s state_time_outs) msec ≡ false
unfolding find ConnectionState-discrete
limit_of ready_to_read msec h = h
limit_of reading msec h = h
limit_of handling msec h = h
limit_of ready_to_write msec h = h
limit_of writing msec h = h
limit_of done msec h = h
limit_of inactive msec h = refl
limit_of connection_error msec h = refl

pub timed_out-Connection :
    (m : StateManager ConnectionState) (now t : ℕ)
    → IsConnection m
    → t ≤ m.last_state_change
    → now < t + patience
    → timed_out ConnectionState-discrete m now ≡ false
unfolding timed_out
timed_out-Connection m now t c h k = rw c.time_outs (
    ground (
      arith,
      limit_of m.state (msec_since now m.last_state_change)
          (short_wait now m.last_state_change t h k),
    ))

-- A connection whose state was set at the time `t` or later.
pub record IsLive {S : Type 0} (t : ℕ) (c : TcpConnection S) : Type 0 where
  pub tables : IsConnection c.connection_state
  pub changed : t ≤ c.connection_state.last_state_change

-- The edges of the transition table.
abbrev pub HasEdge : ConnectionState → ConnectionState → Type 0
HasEdge s u =
    listed_in ConnectionState-discrete u (find ConnectionState-discrete s states_transition_map)
    ≡ true

-- The edges that the operations take.
pub edges :
    HasEdge ready_to_read reading
    × HasEdge reading handling
    × HasEdge handling ready_to_write
    × HasEdge handling ready_to_read
    × HasEdge ready_to_write writing
    × HasEdge writing handling
    × HasEdge writing ready_to_read
    × HasEdge writing ready_to_write
    × HasEdge writing done
    × HasEdge inactive ready_to_read
unfolding find ConnectionState-discrete listed
edges = (refl, refl, refl, refl, refl, refl, refl, refl, refl, refl)

pub edge_inactive : HasEdge ready_to_read inactive
unfolding find ConnectionState-discrete listed
edge_inactive = refl

pub edge_done : HasEdge done inactive
unfolding find ConnectionState-discrete listed
edge_done = refl

module _ {S : Type 0} where
  pub set-tables :
      (c : TcpConnection S) (u : ConnectionState) (r : Readings)
      → IsConnection c.connection_state
      → IsConnection (set c u r).connection_state
  unfolding set
  set-tables c u r t =
      let s = (set_state-Follows ConnectionState-discrete c.connection_state u r).tables in
      record {
        initial = s.initial ∙ t.initial;
        error = s.error ∙ t.error;
        transitions = s.transitions ∙ t.transitions;
        limits = s.limits ∙ t.limits;
        time_outs = s.time_outs ∙ t.time_outs;
      }

  pub get-tables :
      (c : TcpConnection S) (r : Readings)
      → IsConnection c.connection_state
      → IsConnection (get c r).connection_state
  unfolding get
  get-tables c r t =
      let s = (get_state-Follows ConnectionState-discrete c.connection_state r.entry r).tables in
      record {
        initial = s.initial ∙ t.initial;
        error = s.error ∙ t.error;
        transitions = s.transitions ∙ t.transitions;
        limits = s.limits ∙ t.limits;
        time_outs = s.time_outs ∙ t.time_outs;
      }

  -- Along an edge of the table the state is set, if there is no time-out.
  pub set-edge :
      (c : TcpConnection S) (s u : ConnectionState) (t : ℕ) (r : Readings)
      → IsLive t c
      → IsPrompt t r
      → state c ≡ s
      → s ≢ connection_error
      → u ≢ s
      → HasEdge s u
      → (state (set c u r) ≡ u) × IsLive t (set c u r)
  unfolding set
  set-edge c s u t r live prompt e ne other edge =
      let m = c.connection_state in
      let tables = live.tables in
      let on_time = λ (now : ℕ) (h : now < t + patience).
        timed_out-Connection c.connection_state now t tables live.changed h in
      let found =
        set_state-Edge ConnectionState-discrete c.connection_state u r
          (λ q. ne (sym e ∙ q ∙ tables.error)) (λ q. other (q ∙ e)) (on_time r.entry prompt.entry)
          (on_time r.check prompt.check) in
      (
        found.0.1 (
            inr (
              ap₂
                (λ x tm. listed_in ConnectionState-discrete u (find ConnectionState-discrete x tm))
                e tables.transitions
              ∙ edge)),
        record { tables = set-tables c u r tables; changed = omega (arith, prompt.stamp, found.3) },
      )

  -- Without an edge the connection fails.
  pub set-no_edge :
      (c : TcpConnection S) (s u : ConnectionState) (t : ℕ) (r : Readings)
      → IsLive t c
      → IsPrompt t r
      → state c ≡ s
      → s ≢ connection_error
      → u ≢ s
      → u ≢ connection_error
      → ¬ HasEdge s u
      → state (set c u r) ≡ connection_error
  unfolding set
  set-no_edge c s u t r live prompt e ne other fine missing =
      let tables = live.tables in
      let on_time = λ (now : ℕ) (h : now < t + patience).
        timed_out-Connection c.connection_state now t tables live.changed h in
      let found =
        set_state-Edge ConnectionState-discrete c.connection_state u r
          (λ q. ne (sym e ∙ q ∙ tables.error)) (λ q. other (q ∙ e)) (on_time r.entry prompt.entry)
          (on_time r.check prompt.check) in
      elim found.1 [
        | inr failed ↦ failed ∙ tables.error
        | inl moved ↦ elim (found.0.0 moved) [
          | inl q ↦ absurd (fine (q ∙ tables.error))
          | inr listed ↦ absurd (
              missing (
                sym (
                  ap₂
                    (λ x tm.
                      listed_in ConnectionState-discrete u (find ConnectionState-discrete x tm))
                    e tables.transitions)
                ∙ listed))
        ]
      ]

  -- `get_state` finds no time-out.
  pub get-live :
      (c : TcpConnection S) (t : ℕ) (r : Readings) → IsLive t c → IsPrompt t r → get c r ≡ c
  unfolding get get_state
  get-live c t r live prompt =
      rw (timed_out-Connection c.connection_state r.entry t live.tables live.changed prompt.entry)
