-- ===== src/Pool/Standing/Tidy.antt =====
-- The calls by which the server of src/polling_server.cpp looks at a connection and by which the pool
-- cleans up keep how a connection stands.
use nimlib.Prelude.{
  ℕ, ◌<◌, ◌≡◌, refl, sym, ap, subst, ◌∙◌, ◌≢◌, ◌⊎◌, inl, inr, true, false, [], arith, Bool-cases,
}
use nimlib.Constants.{ConnectionState, ConnectionState-discrete, done, inactive, connection_error}
use nimlib.Utils.StateManager.{
  StateManager, Readings, set_state, change, reset_state, count_reset, get_state, timed_out, clear,
}
use nimlib.Connection.{TcpConnection, is_state, state, set, get, end_timer}
use nimlib.Connection.States.{IsConnection, set-tables, get-tables}
use nimlib.Prelude.Map.{find}
use nimlib.Connection.{settle, halt, cancel_timer}
use nimlib.Pool.Standing.{IsPooled, get-IsServing}

-- `set_state` of another state sets it or fails.
set_state-other :
    (m : StateManager ConnectionState) (u : ConnectionState) (r : Readings)
    → u ≢ m.state
    → ((set_state ConnectionState-discrete m u r).state ≡ u)
      ⊎ ((set_state ConnectionState-discrete m u r).state ≡ m.error_state)
unfolding set_state change
set_state-other m u r ne = ground arith

get_state-cases :
    (m : StateManager ConnectionState) (now : ℕ) (r : Readings)
    → ((get_state ConnectionState-discrete m now r).state ≡ m.state)
      ⊎ ((get_state ConnectionState-discrete m now r).state ≡ m.error_state)
unfolding get_state set_state change reset_state count_reset
get_state-cases m now r = ground arith

-- An inactive connection has no time-out.
timed_out-inactive :
    (m : StateManager ConnectionState) (now : ℕ)
    → IsConnection m
    → m.state ≡ inactive
    → timed_out ConnectionState-discrete m now ≡ false
unfolding timed_out find ConnectionState-discrete
timed_out-inactive m now t e = rw (t.time_outs, t.error, e) refl

module _ {S : Type 0} (Good : S → Type 0) where
  get-inactive :
      (c : TcpConnection S) (r : Readings)
      → IsConnection c.connection_state
      → state c ≡ inactive
      → get c r ≡ c
  unfolding get get_state
  get-inactive c r t e = rw (timed_out-inactive c.connection_state r.entry t e)

  get-error :
      (c : TcpConnection S) (r : Readings)
      → IsConnection c.connection_state
      → state c ≡ connection_error
      → state (get c r) ≡ connection_error
  unfolding get
  get-error c r t e = elim (get_state-cases c.connection_state r.entry r) [
    | inl q ↦ q ∙ e
    | inr q ↦ q ∙ t.error
  ]

  same_id-get : (c : TcpConnection S) (r : Readings) → (get c r).id ≡ c.id
  unfolding get
  same_id-get c r = refl

  -- Asking for the state keeps how a connection stands.
  pub get-IsPooled :
      (i : ℕ) (c : TcpConnection S) (r : Readings) → IsPooled Good i c → IsPooled Good i (get c r)
  get-IsPooled i c r p = record {
    same_id = same_id-get c r ∙ p.same_id;
    tables = get-tables c r p.tables;
    standing = elim p.standing [
      | inl e ↦ inl (ap state (get-inactive c r p.tables e) ∙ e)
      | inr (inl (pos', e)) ↦ inr (inl (pos', get-error c r p.tables e))
      | inr (inr s) ↦ inr (inr (get-IsServing Good i c r s))
    ];
  }

  -- A connection that `halt` may take: it is not inactive.
  pub record IsHalting (i : ℕ) (c : TcpConnection S) : Type 0 where
    pub same_id : c.id ≡ i
    pub tables : IsConnection c.connection_state
    pub active : state c ≢ inactive

  settle-error :
      (c : TcpConnection S) (r : Readings)
      → is_state (state c) connection_error ≡ true
      → settle c r
        ≡ cancel_timer
            (record c {
              connection_state = clear ConnectionState-discrete c.connection_state r.stamp;
            })
            r.stamp
  unfolding settle
  settle-error c r e = rw e

  settle-other :
      (c : TcpConnection S) (r : Readings)
      → is_state (state c) connection_error ≡ false
      → (settle c r ≡ end_timer c r.stamp) ⊎ (settle c r ≡ c)
  unfolding settle
  settle-other c r e = elim (Bool-cases (is_state (state c) done)) [
    | inl d ↦ inl (rw (e, d))
    | inr d ↦ inr (rw (e, d))
  ]

  cleared-IsHalting :
      (i : ℕ) (c : TcpConnection S) (now stamp : ℕ)
      → IsHalting i c
      → IsHalting i (
          cancel_timer
            (record c {
              connection_state = clear ConnectionState-discrete c.connection_state stamp;
            })
            now)
  unfolding cancel_timer clear
  cleared-IsHalting i c now stamp h = record {
    same_id = h.same_id;
    tables = record {
      initial = h.tables.initial;
      error = h.tables.error;
      transitions = h.tables.transitions;
      limits = h.tables.limits;
      time_outs = h.tables.time_outs;
    };
    active = λ e. absurd cc;
  }

  ended-IsHalting :
      (i : ℕ) (c : TcpConnection S) (now : ℕ) → IsHalting i c → IsHalting i (end_timer c now)
  unfolding end_timer
  ended-IsHalting i c now h = record { same_id = h.same_id; tables = h.tables; active = h.active }

  settle-IsHalting :
      (i : ℕ) (c : TcpConnection S) (r : Readings) → IsHalting i c → IsHalting i (settle c r)
  settle-IsHalting i c r h = elim (Bool-cases (is_state (state c) connection_error)) [
    | inl e ↦
        subst (IsHalting i) (sym (settle-error c r e)) (cleared-IsHalting i c r.stamp r.stamp h)
    | inr e ↦ elim (settle-other c r e) [
      | inl q ↦ subst (IsHalting i) (sym q) (ended-IsHalting i c r.stamp h)
      | inr q ↦ subst (IsHalting i) (sym q) h
    ]
  ]

  state-get :
      (c : TcpConnection S) (r : Readings)
      → IsConnection c.connection_state
      → (state (get c r) ≡ state c) ⊎ (state (get c r) ≡ connection_error)
  unfolding get
  state-get c r t = elim (get_state-cases c.connection_state r.entry r) [
    | inl q ↦ inl q
    | inr q ↦ inr (q ∙ t.error)
  ]

  get-IsHalting :
      (i : ℕ) (c : TcpConnection S) (r : Readings) → IsHalting i c → IsHalting i (get c r)
  get-IsHalting i c r h = record {
    same_id = same_id-get c r ∙ h.same_id;
    tables = get-tables c r h.tables;
    active =
        λ e. elim (state-get c r h.tables) [ inl q ↦ h.active (sym q ∙ e) | inr q ↦ absurd cc ];
  }

  halted-IsPooled :
      (i : ℕ) (c : TcpConnection S) (r : Readings)
      → 0 < i
      → IsHalting i c
      → IsPooled Good i
          (record (set c inactive r) { input_stream = []; output_stream = []; socket = false })
  unfolding set
  halted-IsPooled i c r pos' h = record {
    same_id = h.same_id;
    tables = set-tables c inactive r h.tables;
    standing = elim (set_state-other c.connection_state inactive r (λ e. h.active (sym e))) [
      | inl q ↦ inl q
      | inr q ↦ inr (inl (pos', q ∙ h.tables.error))
    ];
  }

  pub halt-IsPooled :
      (i : ℕ) (c : TcpConnection S) (clock : ℕ → Readings)
      → 0 < i
      → IsHalting i c
      → IsPooled Good i (halt c clock)
  unfolding halt
  halt-IsPooled i c clock pos' h =
      halted-IsPooled i (settle (get c (clock 0)) (clock 1)) (clock 2) pos'
        (settle-IsHalting i (get c (clock 0)) (clock 1) (get-IsHalting i c (clock 0) h))
