-- ===== src/Server/Handlers.antt =====
-- The `HttpHandler` of src/http/http.cpp as the handler of a connection of src/tcp_connection.cpp: what
-- it writes goes behind what the output stream holds.
--
-- The handler has no time-outs, so that what the clock shows to it does not matter.
use nimlib.Prelude.{
  ℕ, ◌≡◌, refl, sym, ap, subst, ◌∙◌, ◌⊎◌, inl, inr, Bool, true, Option, none, some, ◌++◌, List, [],
}
use nimlib.Prelude.Text.{Text}
use nimlib.Constants.{
  HandlerState, HandlerState-discrete, ready_to_handle, finished_no_wait, finished_wait, recall,
  handler_error,
}
use nimlib.Utils.StateManager
use nimlib.Utils.StateManager.{Readings}
use nimlib.Http.Parser.{Request, Response, parse_request, parse_response}
use nimlib.Http.Handler
use nimlib.Http.Handler.{HttpHandler, Notified, new_manager, new_response, text_of, state, is_state}
use nimlib.Http.Handler.States.{IsHandler, get_state-Handler}
use nimlib.Http.Handler.Requests.Unanswered.{unanswered_request, unanswered_recall}
use nimlib.Http.Handler.Requests.{Answered, first_request, bad_request, recalled, second_request}
use nimlib.Http.Handler.Sound.{IsAnswer, IsIdle, IsSound}
use nimlib.Connection.{Protocol, TcpConnection}
use nimlib.Connection.States.{IsPrompt}
use nimlib.Pool.{new_pool}
use nimlib.Server.{Round, run}
use nimlib.Server.Safety.{IsPool, AreRounds, run-IsPool}
use nimlib.Pool.Standing.{Asks, Serves}

abbrev pub written_behind :
    {R : Type 0} → Text → Option (Notified R) → Option (HttpHandler R × Text × Text × Bool)
written_behind sink none = none
written_behind sink (some out) = some (out.handler, out.source, sink ++ out.sink, out.called_back)

-- A new handler around a router.
unfoldable pub new_handler : {R : Type 0} → R → ℕ → HttpHandler R
new_handler router now = record {
  state_manager = new_manager now;
  http_request = none;
  router = router;
}

pub new_handler-IsSound :
    {R : Type 0} (router : R) (now : ℕ)
    → IsSound (new_handler router now)
      × (state (new_handler router now) ≡ ready_to_handle)
      × ((new_handler router now).http_request ≡ none)
unfolding new_handler new_manager StateManager.new
new_handler-IsSound router now = (
  record {
    tables = record { error = refl; transitions = refl; limits = refl; time_outs = refl };
    phase = inl (refl, inl refl);
  },
  refl,
  refl,
)

module _ {R : Type 0} (route : Request → Response → R → Option (Option HandlerState × Response × R))
    (garbage : ℕ) (clock : ℕ → Readings) (r : Readings) where
  unfoldable pub http_protocol : Protocol (HttpHandler R)
  http_protocol = record {
    notify = λ h source sink. written_behind sink (Handler.notify route garbage clock h source);
    wants_more_bytes = Handler.wants_more_bytes r;
    wants_to_write = Handler.wants_to_write r;
    wants_to_live = Handler.wants_to_live r;
    wants_to_be_calledback = Handler.wants_to_be_calledback r;
  }

  -- A handler answers the four questions by its state.
  pub asks_lem :
      (h : HttpHandler R)
      → IsHandler h.state_manager
      → (http_protocol.wants_to_write h ≡ is_state (state h) finished_no_wait)
        × (http_protocol.wants_to_live h ≡ is_state (state h) finished_wait)
        × (http_protocol.wants_to_be_calledback h ≡ is_state (state h) recall)
  unfolding http_protocol Handler.wants_to_write Handler.wants_to_live
      Handler.wants_to_be_calledback Handler.get
  asks_lem h t = rw (get_state-Handler h.state_manager r.entry r t) (refl, refl, refl)

  is_itself :
      (is_state finished_no_wait finished_no_wait ≡ true)
      × (is_state finished_wait finished_wait ≡ true)
      × (is_state recall recall ≡ true)
  unfolding HandlerState-discrete
  is_itself = (refl, refl, refl)

  answer-Asks :
      (h : HttpHandler R) → IsHandler h.state_manager → IsAnswer (state h) → Asks http_protocol h
  answer-Asks h t (inl e) =
      inl ((asks_lem h t).0 ∙ ap (λ s. is_state s finished_no_wait) e ∙ is_itself.0)
  answer-Asks h t (inr (inl e)) =
      inr (inl ((asks_lem h t).1 ∙ ap (λ s. is_state s finished_wait) e ∙ is_itself.1))
  answer-Asks h t (inr (inr e)) =
      inr (inr (inr ((asks_lem h t).2 ∙ ap (λ s. is_state s recall) e ∙ is_itself.2)))

  module _ (GoodRouter : R → Type 0) where
    -- A router that is good gives every request a response, and a state to answer with or none, and
    -- stays good.
    abbrev pub RouterAnswers : Type 0
    RouterAnswers =
        (q : Request) (router : R)
        → GoodRouter router
        → (o : Option HandlerState) × (p : Response) × (router' : R) × (route q
              (new_response garbage) router
            ≡ some (o, p, router'))
          × ((o ≡ none) ⊎ ((s : HandlerState) × (o ≡ some s) × IsAnswer s))
          × GoodRouter router'

    -- A handler with a good router, which holds a request exactly in RECALL.
    pub record IsWorking (h : HttpHandler R) : Type 0 where
      pub sound : IsSound h
      pub good : GoodRouter h.router

    abbrev Run : HttpHandler R → Text → Text → Type 0
    Run h source sink =
        (h' : HttpHandler R) × (source' : Text) × (sink' : Text) × (b : Bool)
        × (http_protocol.notify h source sink ≡ some (h', source', sink', b))
        × IsWorking h'
        × (b ≡ true → Asks http_protocol h')

    Answered-Run :
        (h : HttpHandler R) (source sink left written : Text) (s : HandlerState) (after : R)
        → IsAnswer s
        → GoodRouter after
        → Answered route garbage clock h source left written s after
        → Run h source sink
    unfolding http_protocol
    Answered-Run h source sink left written s after a good n = (
      n.out.handler,
      n.out.source,
      sink ++ n.out.sink,
      n.out.called_back,
      ap (written_behind sink) n.returns,
      record { sound = n.sound; good = subst GoodRouter (sym n.router) good },
      λ b. answer-Asks n.out.handler n.sound.tables (rw n.ends_in a),
    )

    failed-Run :
        (h : HttpHandler R) (source sink : Text)
        → IsHandler h.state_manager
        → GoodRouter h.router
        → (state h ≡ finished_wait) ⊎ (state h ≡ finished_no_wait) ⊎ (state h ≡ handler_error)
        → h.http_request ≡ none
        → Run h source sink
    unfolding http_protocol
    failed-Run h source sink t good over n =
        let (out, e, st, _, _, quiet, sound, same) =
          second_request route garbage clock h source t over n in
        (
          out.handler,
          out.source,
          sink ++ out.sink,
          out.called_back,
          ap (written_behind sink) e,
          record { sound = sound; good = subst GoodRouter (sym same) good },
          λ b. absurd cc,
        )

    idle-Run :
        RouterAnswers
        → (h : HttpHandler R) (source sink : Text) → IsHandler h.state_manager
        → GoodRouter h.router
        → h.http_request ≡ none
        → state h ≡ ready_to_handle
        → (o : Option Request × Text) → parse_request source ≡ o
        → Run h source sink
    idle-Run answers h source sink t good n e (none, left) parsed =
        Answered-Run h source sink left [] finished_no_wait h.router (inl refl) good
          (bad_request route garbage clock h source left t e n parsed)
    idle-Run answers h source sink t good n e (some q, left) parsed =
        let (o, p, router', routed, kind, good') = answers q h.router good in
        elim kind [
          | inl quiet ↦
              Answered-Run h source sink left [] finished_no_wait router' (inl refl) good' (
                unanswered_request route garbage clock h source left q p router' t e n parsed
                  (rw quiet at routed))
          | inr (s, says, a) ↦
              Answered-Run h source sink left (text_of (parse_response p)) s router' a good' (
                (first_request route garbage clock h source left q p router' s t e n parsed
                  (rw says at routed) a).0)
        ]

    recalled-Run :
        RouterAnswers
        → (h : HttpHandler R) (source sink : Text) (q : Request) → IsHandler h.state_manager
        → GoodRouter h.router
        → h.http_request ≡ some q
        → state h ≡ recall
        → Run h source sink
    recalled-Run answers h source sink q t good n e =
        let (o, p, router', routed, kind, good') = answers q h.router good in
        elim kind [
          | inl quiet ↦ Answered-Run h source sink source [] recall router' (inr (inr refl)) good' (
              unanswered_recall route garbage clock h source q p router' t e n (rw quiet at routed))
          | inr (s, says, a) ↦
              Answered-Run h source sink source p.body s router' a good'
                (recalled route garbage clock h source q p router' s t e n (rw says at routed) a).0
        ]

    -- Handlers with a good router, which hold a request exactly in RECALL, serve every notification,
    -- stay so, and ask for something when they notify their connection.
    pub http_protocol-Serves : RouterAnswers → Serves http_protocol IsWorking
    http_protocol-Serves answers = record {
      runs = λ h source sink w. ran h source sink w.sound.tables w.good w.sound.phase;
    }
      where
        ran :
            (h : HttpHandler R) (source sink : Text)
            → IsHandler h.state_manager
            → GoodRouter h.router
            → ((h.http_request ≡ none) × IsIdle (state h))
              ⊎ ((q : Request) × (h.http_request ≡ some q) × (state h ≡ recall))
            → Run h source sink
        ran h source sink t good (inl (n, inl e)) =
            idle-Run answers h source sink t good n e (parse_request source) refl
        ran h source sink t good (inl (n, inr (inl e))) =
            failed-Run h source sink t good (inr (inl e)) n
        ran h source sink t good (inl (n, inr (inr (inl e)))) =
            failed-Run h source sink t good (inl e) n
        ran h source sink t good (inl (n, inr (inr (inr e)))) =
            failed-Run h source sink t good (inr (inr e)) n
        ran h source sink t good (inr (q, n, e)) = recalled-Run answers h source sink q t good n e

    -- The server starts with a new pool whose connections are made without a delay. Each accepted
    -- connection has an `HttpHandler` of its own that holds a request exactly in RECALL, and whose
    -- router is one of a class that gives every request a response, with one of the states
    -- FINISHED_NO_WAIT, FINISHED_WAIT and RECALL or with none, and stays in the class. For any number
    -- of rounds in which poll announces only connections that can be accepted, with descriptors from
    -- 1 to 64, and in which a send fails or takes at least one byte, the loop goes on: no assertion
    -- fails, no null pointer is followed and no connection is looked up out of range. The pool keeps
    -- its 65 connections, each with its index for its id, and each is inactive, or has failed, or has
    -- a socket and a handler; that at the index 0 is inactive.
    pub run_http-IsPool :
        (pool_clock : ℕ → Readings) (rounds : List (HttpHandler R × Round))
        → RouterAnswers
        → ((j : ℕ) → IsPrompt (pool_clock j).entry (pool_clock j))
        → AreRounds IsWorking rounds
        → (pool : List (TcpConnection (HttpHandler R))) × (run http_protocol rounds
              (new_pool pool_clock)
            ≡ some pool)
          × IsPool IsWorking pool
    run_http-IsPool pool_clock rounds answers prompt rs =
        run-IsPool IsWorking http_protocol (http_protocol-Serves answers) pool_clock rounds prompt
          rs
