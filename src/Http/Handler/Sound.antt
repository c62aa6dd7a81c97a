-- ===== src/Http/Handler/Sound.antt =====
-- What `HttpHandler` of src/http/http.cpp keeps between two calls.
use nimlib.Prelude.{◌≢◌, ◌≡◌, refl, ap, ◌⊎◌, inl, inr, true, false, none, some}
use nimlib.Prelude.Map.{find}
use nimlib.Prelude.Text.{Text}
use nimlib.Constants.{
  HandlerState, HandlerState-discrete, ready_to_handle, h_handling, finished_no_wait, finished_wait,
  recall, incomplete_input, handler_error,
}
use nimlib.Utils.StateManager.{Readings, listed}
use nimlib.Http.Parser.{Request}
use nimlib.Http.Handler.{HttpHandler, unless, set, get, state, is_over, forget, conclude}
use nimlib.Http.Handler.States.{
  IsHandler, next_state, get_state-Handler, set_state-IsHandler, set_state-Handler,
}

-- The states that a route's function is to answer with.
abbrev pub IsAnswer : HandlerState → Type 0
IsAnswer s = (s ≡ finished_no_wait) ⊎ (s ≡ finished_wait) ⊎ (s ≡ recall)

-- The states in which there is no request.
abbrev pub IsIdle : HandlerState → Type 0
IsIdle s =
    (s ≡ ready_to_handle) ⊎ (s ≡ finished_no_wait) ⊎ (s ≡ finished_wait) ⊎ (s ≡ handler_error)

pub next_state_answers :
    (s : HandlerState) → IsAnswer s → (next_state h_handling s ≡ s) × (next_state recall s ≡ s)
unfolding next_state HandlerState-discrete find listed
next_state_answers s (inl e) = rw e (refl, refl)
next_state_answers s (inr (inl e)) = rw e (refl, refl)
next_state_answers s (inr (inr e)) = rw e (refl, refl)

pub unless_answer :
    (other s : HandlerState)
    → (other ≡ incomplete_input) ⊎ (other ≡ handler_error)
    → IsAnswer s
    → unless other (some s) ≡ some s
unfolding HandlerState-discrete
unless_answer other s (inl d) (inl e) = rw (d, e)
unless_answer other s (inl d) (inr (inl e)) = rw (d, e)
unless_answer other s (inl d) (inr (inr e)) = rw (d, e)
unless_answer other s (inr d) (inl e) = rw (d, e)
unless_answer other s (inr d) (inr (inl e)) = rw (d, e)
unless_answer other s (inr d) (inr (inr e)) = rw (d, e)

pub next_state_known :
    (next_state ready_to_handle h_handling ≡ h_handling)
    × (next_state h_handling finished_no_wait ≡ finished_no_wait)
    × (next_state finished_no_wait h_handling ≡ handler_error)
    × (next_state finished_wait h_handling ≡ handler_error)
    × (next_state handler_error h_handling ≡ handler_error)
unfolding next_state HandlerState-discrete find listed
next_state_known = (refl, refl, refl, refl, refl)

module _ {R : Type 0} where
  -- A handler holds a request exactly when it waits to be called back.
  pub record IsSound (h : HttpHandler R) : Type 0 where
    pub tables : IsHandler h.state_manager
    pub phase :
        ((h.http_request ≡ none) × IsIdle (state h))
        ⊎ ((q : Request) × (h.http_request ≡ some q) × (state h ≡ recall))

  pub state-set :
      (h : HttpHandler R) (s : HandlerState) (r : Readings)
      → IsHandler h.state_manager
      → (state (set h s r) ≡ next_state (state h) s)
        × ((set h s r).http_request ≡ h.http_request)
        × IsHandler (set h s r).state_manager
  unfolding set
  state-set h s r t =
      (set_state-Handler h.state_manager s r t, refl, set_state-IsHandler h.state_manager s r t)

  pub get-Handler : (h : HttpHandler R) (r : Readings) → IsHandler h.state_manager → get h r ≡ h
  unfolding get
  get-Handler h r t =
      ap (λ m. record h { state_manager = m }) (get_state-Handler h.state_manager r.entry r t)

  forget-over :
      (h : HttpHandler R) → is_over (state h) ≡ true → forget h ≡ record h { http_request = none }
  unfolding forget
  forget-over h e = rw e

  forget-other : (h : HttpHandler R) → is_over (state h) ≡ false → forget h ≡ h
  unfolding forget
  forget-other h e = rw e

  pub conclude_request :
      (h : HttpHandler R) (source sink : Text) (r : Readings)
      → IsHandler h.state_manager
      → state h ≡ recall
      → (conclude h source sink r).handler.http_request ≡ h.http_request
  unfolding conclude is_over HandlerState-discrete
  conclude_request h source sink r t e = rw (get-Handler h r t, forget-other h (ap is_over e)) refl

  pub no_request : (h : HttpHandler R) → IsSound h → state h ≢ recall → h.http_request ≡ none
  no_request h s ne = elim s.phase [ inl (n, _) ↦ n | inr (q, _, e) ↦ absurd (ne e) ]

  -- The end of a call that leaves the state of an answer: the request is kept for RECALL alone.
  pub conclude-IsSound :
      (h : HttpHandler R) (source sink : Text) (r : Readings)
      → IsHandler h.state_manager
      → IsAnswer (state h)
      → (state h ≡ recall → (q : Request) × (h.http_request ≡ some q))
      → let out = conclude h source sink r in
        IsSound out.handler
        × (state out.handler ≡ state h)
        × (out.source ≡ source)
        × (out.sink ≡ sink)
        × (out.called_back ≡ true)
        × (out.handler.router ≡ h.router)
  unfolding conclude is_over HandlerState-discrete
  conclude-IsSound h source sink r t (inl e) q =
      rw (get-Handler h r t, forget-over h (ap is_over e))
        (record { tables = t; phase = inl (refl, inr (inl e)) }, refl, refl, refl, refl, refl)
  conclude-IsSound h source sink r t (inr (inl e)) q =
      rw (get-Handler h r t, forget-over h (ap is_over e))
        (record { tables = t; phase = inl (refl, inr (inr (inl e))) }, refl, refl, refl, refl, refl)
  conclude-IsSound h source sink r t (inr (inr e)) q =
      let (request, has) = q e in
      rw (get-Handler h r t, forget-other h (ap is_over e))
        (record { tables = t; phase = inr (request, has, e) }, refl, refl, refl, refl, refl)

module _ {R : Type 0} where
  pub router-set :
      (h : HttpHandler R) (s : HandlerState) (r : Readings) → (set h s r).router ≡ h.router
  unfolding set
  router-set h s r = refl
