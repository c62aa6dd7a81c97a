-- ===== src/Pool/Kept.antt =====
-- The operations of the pool of src/tcp_connection_pool.cpp keep how its connections stand.
use nimlib.Prelude.{
  ℕ, zero, suc, ◌+◌, ◌<◌, ◌≡◌, refl, sym, ap, subst, ◌∙◌, ◌≢◌, inl, inr, true, false, ◌||◌, none,
  some, List, [], ◌∷◌, arith, length, Bool-cases, get_elem?, set, length-set,
}
use nimlib.Constants.{
  ConnectionState, ConnectionState-discrete, ready_to_read, handling, done, inactive,
  connection_error,
}
use nimlib.Utils.StateManager.{Readings, set_state, change, timed_out}
use nimlib.Connection
use nimlib.Connection.{
  Protocol, TcpConnection, is_state, state, get, get_connection_state, halt, new_inactive,
}
use nimlib.Connection.States.{IsPrompt, IsLive, set-tables, set-edge, edge_inactive}
use nimlib.Utils.StateManager
use nimlib.Utils.Timer
use nimlib.Pool.{
  make_connections, new_pool, record_connection, tidy, clean_up_one, clean_up_from,
  connection_count, default_buffer_size,
}
use nimlib.Pool.Standing.{Serves, IsServing, IsPooled, serving-IsPooled}
use nimlib.Pool.Standing.Calls.{run_handler-Served}
use nimlib.Pool.Standing.Tidy.{get-IsPooled, halt-IsPooled}

pub is_state_sound : (s u : ConnectionState) → is_state s u ≡ true → s ≡ u
is_state_sound s u e = ground arith

quiet_lem : (is_state inactive connection_error || is_state inactive done) ≡ false
unfolding ConnectionState-discrete
quiet_lem = refl

module _ {S : Type 0} (Good : S → Type 0) where
  -- The connections of a list from the index `i` on.
  abbrev pub AllPooled : ℕ → List (TcpConnection S) → Type 0
  AllPooled i [] = Unit
  AllPooled i (c ∷ cs) = IsPooled Good i c × AllPooled (i + 1) cs

  -- The connection before its constructor sets the first state.
  abbrev unset : ℕ → ℕ → ℕ → TcpConnection S
  unset i n now = record {
    id = i;
    buffer_size = n;
    connection_state = Connection.initial_manager now;
    input_stream = [];
    output_stream = [];
    socket = false;
    handler = none;
    timer = Timer.new now;
    measured = [];
  }

  unset-IsLive :
      (i n now : ℕ) → IsLive now (unset i n now) × (state (unset i n now) ≡ ready_to_read)
  unfolding StateManager.new
  unset-IsLive i n now = (
    record {
      tables = record {
        initial = refl;
        error = refl;
        transitions = refl;
        limits = refl;
        time_outs = refl;
      };
      changed = omega arith;
    },
    refl,
  )

  same_id-new_inactive : (i n : ℕ) (r : Readings) → (new_inactive {S = S} i n r).id ≡ i
  unfolding new_inactive Connection.set
  same_id-new_inactive i n r = refl

  new_inactive-IsPooled :
      (i n : ℕ) (r : Readings) → IsPrompt r.entry r → IsPooled Good i (new_inactive i n r)
  unfolding new_inactive
  new_inactive-IsPooled i n r prompt =
      let (live, begun) = unset-IsLive i n r.entry in
      let (e, live') =
        set-edge (unset i n r.entry) ready_to_read inactive r.entry r live prompt begun (λ q. cc)
          (λ q. cc) edge_inactive in
      record { same_id = same_id-new_inactive i n r; tables = live'.tables; standing = inl e }

  pub make_connections-AllPooled :
      (count i : ℕ) (clock : ℕ → Readings)
      → ((j : ℕ) → IsPrompt (clock j).entry (clock j))
      → AllPooled i (make_connections count i clock)
        × (length (make_connections {S = S} count i clock) ≡ count)
  unfolding make_connections
  make_connections-AllPooled zero i clock prompt = (tt, refl)
  make_connections-AllPooled (suc count) i clock prompt =
      let (ps, l) = make_connections-AllPooled count (i + 1) clock prompt in
      ((new_inactive-IsPooled i default_buffer_size (clock i) (prompt i), ps), ap suc l)

  -- The index of a connection that is not inactive is not 0.
  pub active-positive :
      (i : ℕ) (c : TcpConnection S) → IsPooled Good i c → state c ≢ inactive → 0 < i
  active-positive i c p ne = elim p.standing [
    | inl e ↦ absurd (ne e)
    | inr (inl (h, e)) ↦ h
    | inr (inr s) ↦ s.positive
  ]

  -- A connection that is neither inactive nor has failed has what it needs.
  pub active-IsServing :
      (i : ℕ) (c : TcpConnection S)
      → IsPooled Good i c
      → state c ≢ inactive
      → state c ≢ connection_error
      → IsServing Good i c
  active-IsServing i c p ne fine = elim p.standing [
    | inl e ↦ absurd (ne e)
    | inr (inl (h, e)) ↦ absurd (fine e)
    | inr (inr s) ↦ s
  ]

  module _ (protocol : Protocol S) (serves : Serves protocol Good) where
    tidy-IsPooled :
        (i : ℕ) (c : TcpConnection S) (clock : ℕ → Readings)
        → IsPooled Good i c
        → (c' : TcpConnection S) × (tidy protocol c clock ≡ some c') × IsPooled Good i c'
    unfolding tidy Connection.notify
    tidy-IsPooled i c clock p = elim (Bool-cases (is_state (state c) handling)) [
      | inl h ↦
          let e : state c ≡ handling = is_state_sound (state c) handling h in
          let s = active-IsServing i c p (λ q. absurd cc) (λ q. absurd cc) in
          let (c', ran, s') = run_handler-Served Good protocol serves i c (clock 0) s in
          (c', rw h ran, serving-IsPooled Good i c' s')
      | inr h ↦ elim (Bool-cases (is_state (state c) connection_error || is_state (state c) done)) [
        | inl q ↦
            let active : state c ≢ inactive = λ e. absurd (apart (sym q ∙ quiet e)) in
            (
              halt c clock,
              rw (h, q),
              halt-IsPooled Good i c clock (active-positive i c p active)
                  (record { same_id = p.same_id; tables = p.tables; active = active }),
            )
        | inr q ↦ (c, rw (h, q), p)
      ]
    ]
      where
        quiet :
            state c ≡ inactive
            → (is_state (state c) connection_error || is_state (state c) done) ≡ false
        quiet e = ap (λ s. is_state s connection_error || is_state s done) e ∙ quiet_lem

        apart : true ≢ false
        apart e = cc

    clean_up_one-IsPooled :
        (i : ℕ) (c : TcpConnection S) (clock : ℕ → Readings)
        → IsPooled Good i c
        → (c' : TcpConnection S) × (clean_up_one protocol c clock ≡ some c') × IsPooled Good i c'
    unfolding clean_up_one get_connection_state
    clean_up_one-IsPooled i c clock p =
        tidy-IsPooled i (get c (clock 0)) (λ j. clock (j + 1)) (get-IsPooled Good i c (clock 0) p)

    pub clean_up_from-AllPooled :
        (cs : List (TcpConnection S)) (i : ℕ) (clock : ℕ → ℕ → Readings)
        → AllPooled i cs
        → (cs' : List (TcpConnection S)) × (clean_up_from protocol cs i clock ≡ some cs')
          × AllPooled i cs'
          × (length cs' ≡ length cs)
    unfolding clean_up_from
    clean_up_from-AllPooled [] i clock p = ([], refl, tt, refl)
    clean_up_from-AllPooled (c ∷ cs) i clock (p, ps) =
        let (c', e, p') = clean_up_one-IsPooled i c (clock i) p in
        let (cs', es, ps', l) = clean_up_from-AllPooled cs (i + 1) clock ps in
        (c' ∷ cs', rw (e, es), (p', ps'), ap suc l)

  pub get_elem?-AllPooled :
      (cs : List (TcpConnection S)) (i n : ℕ)
      → AllPooled i cs
      → n < length cs
      → (c : TcpConnection S) × (get_elem? cs n ≡ some c) × IsPooled Good (i + n) c
  get_elem?-AllPooled [] i n p h = absurd (omega arith)
  get_elem?-AllPooled (c ∷ cs) i zero (p, ps) h =
      (c, refl, subst (λ k. IsPooled Good k c) (omega arith) p)
  get_elem?-AllPooled (c ∷ cs) i (suc n) (p, ps) h =
      let (c', e, p') = get_elem?-AllPooled cs (i + 1) n ps (omega arith) in
      (c', e, subst (λ k. IsPooled Good k c') (omega arith) p')

  pub set-AllPooled :
      (cs : List (TcpConnection S)) (i n : ℕ) (c : TcpConnection S)
      → AllPooled i cs
      → IsPooled Good (i + n) c
      → AllPooled i (set cs n c)
  set-AllPooled [] i n c ps p = tt
  set-AllPooled (x ∷ cs) i zero c (q, ps) p = (subst (λ k. IsPooled Good k c) (omega arith) p, ps)
  set-AllPooled (x ∷ cs) i (suc n) c (q, ps) p =
      (q, set-AllPooled cs (i + 1) n c ps (subst (λ k. IsPooled Good k c) (omega arith) p))

  accept-IsServing :
      (i : ℕ) (c : TcpConnection S) (fresh : S) (r : Readings)
      → IsPooled Good i c
      → 0 < i
      → Good fresh
      → IsServing Good i (Connection.set_handler (Connection.accept_socket c true r) (some fresh))
  unfolding Connection.set_handler Connection.accept_socket Connection.set
  accept-IsServing i c fresh r p positive good = record {
    same_id = p.same_id;
    tables = set-tables c ready_to_read r p.tables;
    positive = positive;
    socket = refl;
    handler = (fresh, refl, good);
  }

  pub record_connection-AllPooled :
      (pool : List (TcpConnection S)) (fd : ℕ) (fresh : S) (r : Readings)
      → AllPooled 0 pool
      → 0 < fd
      → fd < length pool
      → Good fresh
      → (pool' : List (TcpConnection S)) × (record_connection pool (some fd) fresh r ≡ some pool')
        × AllPooled 0 pool'
        × (length pool' ≡ length pool)
  unfolding record_connection
  record_connection-AllPooled pool fd fresh r ps positive h good =
      let (c, e, p) = get_elem?-AllPooled pool 0 fd ps h in
      let p' : IsPooled Good fd c = subst (λ k. IsPooled Good k c) (omega arith) p in
      let c' : TcpConnection S =
        Connection.set_handler (Connection.accept_socket c true r) (some fresh) in
      (
        set pool fd c',
        rw e,
        set-AllPooled pool 0 fd c' ps (
            subst (λ k. IsPooled Good k c') (omega arith)
              (serving-IsPooled Good fd c' (accept-IsServing fd c fresh r p' positive good))),
        length-set pool fd c',
      )

length-make_connections :
    (S : Type 0) (count i : ℕ) (clock : ℕ → Readings)
    → length (make_connections {S = S} count i clock) ≡ count
unfolding make_connections
length-make_connections S zero i clock = refl
length-make_connections S (suc count) i clock =
    ap suc (length-make_connections S count (i + 1) clock)

pub length-new_pool :
    (S : Type 0) (clock : ℕ → Readings) → length (new_pool {S = S} clock) ≡ connection_count
unfolding new_pool
length-new_pool S clock = length-make_connections S connection_count 0 clock
