-- ===== src/Server/Safety.antt =====
-- The loop of the server of src/polling_server.cpp goes on: no assertion fails, no null pointer is
-- followed and no connection is looked up out of range.
use nimlib.Prelude.{
  ℕ, suc, ◌+◌, ◌<◌, ◌≡◌, refl, sym, ap, subst, ◌∙◌, ◌≢◌, inl, inr, Bool, true, false, some, List,
  [], ◌∷◌, arith, if◌then◌else◌, length, Bool-cases, ltb, lt→ltb, All, set, length-set,
}
use nimlib.Constants.{
  ConnectionState, ready_to_read, ready_to_write, inactive, connection_error, read_socket,
  write_socket,
}
use nimlib.Utils.StateManager.{Readings}
use nimlib.Connection
use nimlib.Connection.{
  Protocol, TcpConnection, is_state, state, get, get_connection_state, start_timer,
}
use nimlib.Connection.States.{IsPrompt}
use nimlib.Connection.Sending.{AreSends}
use nimlib.Pool
use nimlib.Pool.{connection_count, new_pool, clean_up}
use nimlib.Pool.Standing.{Serves, IsServing, IsPooled, serving-IsPooled, timers-IsServing}
use nimlib.Pool.Standing.Calls.{read-Served, write-Served}
use nimlib.Pool.Standing.Tidy.{get-IsPooled}
use nimlib.Pool.Kept.{
  is_state_sound, AllPooled, active-positive, active-IsServing, clean_up_from-AllPooled,
  get_elem?-AllPooled, set-AllPooled, record_connection-AllPooled, make_connections-AllPooled,
}
use nimlib.Server.{
  Events, Traffic, Round, allowed_to_read, allowed_to_write, list_connections, setup_fds,
  accept_new_connection, notify_if, serve, handle_connections, run_once, run,
}

not_itself : (s : ConnectionState) → is_state s s ≢ false
not_itself s e = ground arith

guarded : (b : Bool) {x : Bool} → (if b then x else false) ≡ true → x ≡ true
guarded true h = h
guarded false h = absurd cc

module _ {S : Type 0} (Good : S → Type 0) where
  -- The connections of the pool.
  pub record IsPool (pool : List (TcpConnection S)) : Type 0 where
    pub all : AllPooled Good 0 pool
    pub count : length pool ≡ connection_count

  -- What is asked of the world outside in a round: a new handler is good; a connection that poll
  -- announces can be accepted, and its descriptor is a place of the pool other than 0; a send fails or
  -- takes at least one byte.
  pub record IsRound (fresh : S) (r : Round) : Type 0 where
    pub good : Good fresh
    pub accepted :
        (r.events 0).input ≡ true
        → (fd : ℕ) × (r.accepted ≡ some fd) × (0 < fd) × (fd < connection_count)
    pub sends : (fd : ℕ) → AreSends (r.traffic fd).sends

  abbrev pub AreRounds : List (S × Round) → Type 0
  AreRounds [] = Unit
  AreRounds ((fresh, r) ∷ rounds) = IsRound fresh r × AreRounds rounds

  -- The descriptors of a list are places of the pool.
  abbrev pub ArePlaces : ℕ → List ℕ → Type 0
  ArePlaces n fds = All (λ fd. fd < n) fds

  list_connections-AllPooled :
      (cs : List (TcpConnection S)) (i n : ℕ) (clock : ℕ → Readings)
      → AllPooled Good i cs
      → i + length cs ≡ n
      → (cs' : List (TcpConnection S)) × (fds : List ℕ) × (list_connections cs i clock
          ≡ some (cs', fds))
        × AllPooled Good i cs'
        × (length cs' ≡ length cs)
        × ArePlaces n fds
  unfolding list_connections get_connection_state
  list_connections-AllPooled [] i n clock p l = ([], [], refl, tt, refl, tt)
  list_connections-AllPooled (c ∷ cs) i n clock (p, ps) l =
      let (cs', fds, e, ps', same, places) =
        list_connections-AllPooled cs (i + 1) n clock ps (omega (arith, l)) in
      let c' : TcpConnection S = get c (clock i) in
      let p' : IsPooled Good i c' = get-IsPooled Good i c (clock i) p in
      elim (Bool-cases (is_state (state (get c (clock i))) inactive)) [
        | inl q ↦ (c' ∷ cs', fds, rw (e, q), (p', ps'), ap suc same, places)
        | inr q ↦
            let positive : 0 < i = active-positive Good i c' p' (λ x. inactive-apart c' q x) in
            let id : ltb 0 (get c (clock i)).id ≡ true =
              ap (ltb 0) p'.same_id ∙ lt→ltb 0 i positive in
            (
              c' ∷ cs',
              (get c (clock i)).id ∷ fds,
              rw (e, q, id),
              (p', ps'),
              ap suc same,
              (subst (λ k. k < n) (sym p'.same_id) (omega (arith, l)), places),
            )
      ]
    where
      inactive-apart :
          (c : TcpConnection S) → is_state (state c) inactive ≡ false → state c ≢ inactive
      inactive-apart c q e = not_itself inactive (sym (ap (λ s. is_state s inactive) e) ∙ q)

  module _ (protocol : Protocol S) (serves : Serves protocol Good) where
    -- A notification that comes only where the connection has what it needs.
    read_if-IsPooled :
        (b : Bool) (i : ℕ) (c : TcpConnection S) (traffic : Traffic) (clock : ℕ → Readings)
        → IsPooled Good i c
        → (b ≡ true → IsServing Good i c)
        → (c' : TcpConnection S) × (notify_if protocol b c read_socket traffic clock ≡ some c')
          × IsPooled Good i c'
          × (IsServing Good i c → IsServing Good i c')
    unfolding notify_if Connection.notify
    read_if-IsPooled true i c traffic clock p armed =
        let s = (timers-IsServing Good i c (clock 0).entry (armed refl)).1 in
        let (c', e, s') =
          read-Served Good protocol serves i (start_timer c (clock 0).entry) traffic.bytes_count
            traffic.buff clock s in
        (c', e, serving-IsPooled Good i c' s', λ x. s')
    read_if-IsPooled false i c traffic clock p armed = (c, refl, p, λ x. x)

    write_if-IsPooled :
        (b : Bool) (i : ℕ) (c : TcpConnection S) (traffic : Traffic) (clock : ℕ → Readings)
        → IsPooled Good i c
        → (b ≡ true → IsServing Good i c)
        → AreSends traffic.sends
        → (c' : TcpConnection S) × (notify_if protocol b c write_socket traffic clock ≡ some c')
          × IsPooled Good i c'
    unfolding notify_if Connection.notify
    write_if-IsPooled true i c traffic clock p armed ok =
        let (c', e, s') =
          write-Served Good protocol serves i c traffic.sends clock (armed refl) ok in
        (c', e, serving-IsPooled Good i c' s')
    write_if-IsPooled false i c traffic clock p armed ok = (c, refl, p)

    serve-IsPooled :
        (i : ℕ) (c : TcpConnection S) (events : Events) (traffic : Traffic) (clock : ℕ → Readings)
        → IsPooled Good i c
        → AreSends traffic.sends
        → (c' : TcpConnection S) × (serve protocol c events traffic clock ≡ some c')
          × IsPooled Good i c'
    unfolding serve allowed_to_read allowed_to_write
    serve-IsPooled i c events traffic clock p ok =
        let readable : Bool = if events.input then is_state (state c) ready_to_read else false in
        let writable : Bool = if events.output then is_state (state c) ready_to_write else false in
        let armed =
          λ (u : ConnectionState) (fine : (u ≢ inactive) × (u ≢ connection_error))
              (e : state c ≡ u).
            active-IsServing Good i c p (λ q. fine.0 (sym e ∙ q)) (λ q. fine.1 (sym e ∙ q)) in
        let (c1, e1, p1, s1) = read_if-IsPooled readable i c traffic clock p (λ b.
          armed ready_to_read (λ q. absurd cc, λ q. absurd cc)
            (is_state_sound (state c) ready_to_read (guarded events.input b))) in
        let (c2, e2, p2) =
          write_if-IsPooled writable i c1 traffic (λ j. clock (j + 4)) p1
            (λ b. s1 (
              armed ready_to_write (λ q. absurd cc, λ q. absurd cc)
                (is_state_sound (state c) ready_to_write (guarded events.output b))))
            ok in
        (c2, rw e1 e2, p2)

    handle_connections-AllPooled :
        (fds : List ℕ) (n : ℕ) (r : Round) (pool : List (TcpConnection S))
        → IsPool pool
        → ArePlaces connection_count fds
        → ((fd : ℕ) → AreSends (r.traffic fd).sends)
        → (pool' : List (TcpConnection S)) × (handle_connections protocol fds n r pool ≡ some pool')
          × IsPool pool'
    unfolding handle_connections get_connection_state Pool.find
    handle_connections-AllPooled [] n r pool ps places ok = (pool, refl, ps)
    handle_connections-AllPooled (fd ∷ fds) n r pool ps (place, places) ok =
        let (c, e, p) =
          get_elem?-AllPooled Good pool 0 fd ps.all (omega (arith, ps.count, place)) in
        let (c', served, p') =
          serve-IsPooled (0 + fd) (get c (r.handle_clock fd 0)) (r.events n) (r.traffic fd)
            (λ j. r.handle_clock fd (j + 1)) (get-IsPooled Good (0 + fd) c (r.handle_clock fd 0) p)
            (ok fd) in
        let (pool', handled, ps') =
          handle_connections-AllPooled fds (n + 1) r (set pool fd c')
            (record {
              all = set-AllPooled Good pool 0 fd c' ps.all p';
              count = length-set pool fd c' ∙ ps.count;
            })
            places ok in
        (pool', rw (e, served) handled, ps')

    accept-IsPool :
        (pool : List (TcpConnection S)) (fresh : S) (r : Round)
        → IsPool pool
        → IsRound fresh r
        → (pool' : List (TcpConnection S)) × (accept_new_connection pool
              (r.events 0).input
              r.accepted
              fresh
              r.accept_clock
            ≡ some pool')
          × IsPool pool'
    unfolding accept_new_connection
    accept-IsPool pool fresh r ps round = elim (Bool-cases (r.events 0).input) [
      | inr b ↦ (pool, rw b, ps)
      | inl b ↦
          let (fd, e, positive, place) = round.accepted b in
          let (pool', recorded, ps', l) =
            record_connection-AllPooled Good pool fd fresh r.accept_clock ps.all positive
              (omega (arith, ps.count, place)) round.good in
          (pool', rw (b, e) recorded, record { all = ps'; count = l ∙ ps.count })
    ]

    run_once-IsPool :
        (pool : List (TcpConnection S)) (fresh : S) (r : Round)
        → IsPool pool
        → IsRound fresh r
        → (pool' : List (TcpConnection S)) × (run_once protocol fresh r pool ≡ some pool')
          × IsPool pool'
    unfolding run_once setup_fds clean_up
    run_once-IsPool pool fresh r ps round =
        let (pool1, fds, listed, ps1, l1, places) =
          list_connections-AllPooled pool 0 connection_count r.setup_clock ps.all
            (omega (arith, ps.count)) in
        let (pool2, accepted, ps2) =
          accept-IsPool pool1 fresh r (record { all = ps1; count = l1 ∙ ps.count }) round in
        let (pool3, handled, ps3) =
          handle_connections-AllPooled fds 1 r pool2 ps2 places round.sends in
        let (pool4, tidied, ps4, l4) =
          clean_up_from-AllPooled Good protocol serves pool3 0 r.tidy_clock ps3.all in
        (pool4, rw (listed, accepted, handled) tidied, record { all = ps4; count = l4 ∙ ps3.count })

    run_all-IsPool :
        (rounds : List (S × Round)) (pool : List (TcpConnection S))
        → IsPool pool
        → AreRounds rounds
        → (pool' : List (TcpConnection S)) × (run protocol rounds pool ≡ some pool') × IsPool pool'
    unfolding run
    run_all-IsPool [] pool ps rs = (pool, refl, ps)
    run_all-IsPool ((fresh, r) ∷ rounds) pool ps (one, rs) =
        let (pool1, e, ps1) = run_once-IsPool pool fresh r ps one in
        let (pool2, es, ps2) = run_all-IsPool rounds pool1 ps1 rs in (pool2, rw e es, ps2)

    -- The server starts with a new pool whose connections are made without a delay. For any number of
    -- rounds in which poll announces only connections that can be accepted, with descriptors from 1
    -- to 64, in which a send fails or takes at least one byte, and in which handlers serve every
    -- notification and ask for something when they notify their connection, the loop goes on: no
    -- assertion fails, no null pointer is followed and no connection is looked up out of range. The
    -- pool keeps its 65 connections, each with its index for its id, and each is inactive, or has
    -- failed, or has a socket and a handler; that at the index 0 is inactive.
    pub run-IsPool :
        (clock : ℕ → Readings) (rounds : List (S × Round))
        → ((j : ℕ) → IsPrompt (clock j).entry (clock j))
        → AreRounds rounds
        → (pool : List (TcpConnection S)) × (run protocol rounds (new_pool clock) ≡ some pool)
          × IsPool pool
    unfolding new_pool
    run-IsPool clock rounds prompt rs =
        let (ps, l) = make_connections-AllPooled Good connection_count 0 clock prompt in
        run_all-IsPool rounds (Pool.make_connections connection_count 0 clock)
          (record { all = ps; count = l }) rs
