-- ===== src/Http/Handler/Requests.antt =====
-- What `HttpHandler::notify` of src/http/http.cpp does with a request.
pub mod Unanswered
use nimlib.Prelude.{
  ◌≢◌, ℕ, ◌≡◌, refl, sym, ap, subst, ◌∙◌, ◌⊎◌, inl, inr, true, false, Option, none, some, [],
}
use nimlib.Prelude.Text.{Text}
use nimlib.Constants.{
  HandlerState, HandlerState-discrete, ready_to_handle, h_handling, finished_no_wait, finished_wait,
  recall, incomplete_input, handler_error,
}
use nimlib.Utils.StateManager.{Readings}
use nimlib.Http.Parser.{Request, Response, parse_request, parse_response}
use nimlib.Http.Handler.{
  HttpHandler, Notified, is_state, new_response, text_of, set, state, conclude, answer, continue_in,
  respond, handle_new, continue_with, start, notify_request, notify,
}
use nimlib.Http.Handler.States.{IsHandler, next_state}
use nimlib.Http.Handler.Sound.{
  IsAnswer, next_state_answers, unless_answer, next_state_known, IsSound, state-set, get-Handler,
  conclude-IsSound, conclude_request, no_request, router-set,
}

module _ {R : Type 0} (route : Request → Response → R → Option (Option HandlerState × Response × R))
    (garbage : ℕ) (clock : ℕ → Readings) where
  -- What a call has done: it has written `sink`, left `source`, notified its caller, and is in the
  -- state `s` with the router `after`.
  pub record Answered (h : HttpHandler R) (given left written : Text) (s : HandlerState) (after : R)
      : Type 0 where
    pub out : Notified R
    pub returns : notify route garbage clock h given ≡ some out
    pub sound : IsSound out.handler
    pub ends_in : state out.handler ≡ s
    pub source : out.source ≡ left
    pub sink : out.sink ≡ written
    pub called_back : out.called_back ≡ true
    pub router : out.handler.router ≡ after

  -- What the handler holds behind the call: the request `q` in RECALL, and none in another state.
  abbrev pub Keeps :
      {h : HttpHandler R} {given left written : Text} {s : HandlerState} {after : R}
      → Request
      → Answered h given left written s after
      → Type 0
  Keeps {s = s} q a =
      (s ≡ recall → a.out.handler.http_request ≡ some q)
      × (s ≢ recall → a.out.handler.http_request ≡ none)

  begun :
      (h : HttpHandler R)
      → IsHandler h.state_manager
      → state h ≡ ready_to_handle
      → (state (set h h_handling (clock 0)) ≡ h_handling)
        × ((set h h_handling (clock 0)).router ≡ h.router)
        × IsHandler (set h h_handling (clock 0)).state_manager
  unfolding set
  begun h t e =
      let (s, q, t') = state-set h h_handling (clock 0) t in
      (s ∙ ap (λ x. next_state x h_handling) e ∙ next_state_known.0, refl, t')

  start_handling :
      (h : HttpHandler R) (source : Text)
      → state h ≡ h_handling
      → start route garbage clock h source ≡ handle_new route garbage clock h (parse_request source)
  unfolding start HandlerState-discrete
  start_handling h source e = rw (ap (λ x. is_state x handler_error) e)

  notify_none :
      (h : HttpHandler R) (source : Text)
      → h.http_request ≡ none
      → notify route garbage clock h source
        ≡ start route garbage clock (set h h_handling (clock 0)) source
  unfolding notify notify_request
  notify_none h source e = rw e

  -- A new handler answers a request that can be parsed: it writes the router's response and takes
  -- the state that the router returns, if this is FINISHED_NO_WAIT, FINISHED_WAIT or RECALL. It keeps
  -- that request in RECALL and none in another state, has the router as the call has left it, and notifies its caller.
  pub first_request :
      (h : HttpHandler R) (source left : Text) (q : Request) (p : Response) (r' : R)
      (s : HandlerState)
      → IsHandler h.state_manager
      → state h ≡ ready_to_handle
      → h.http_request ≡ none
      → parse_request source ≡ (some q, left)
      → route q (new_response garbage) h.router ≡ some (some s, p, r')
      → IsAnswer s
      → (a : Answered h source left (text_of (parse_response p)) s r') × Keeps q a
  unfolding handle_new respond answer
  first_request h source left q p r' s t e n parsed routed a =
      let (st, same, t') = begun h t e in
      let h0 : HttpHandler R = record (set h h_handling (clock 0)) {
        http_request = some q;
        router = r';
      } in
      let (st', kept, t'') = state-set h0 s (clock 1) t' in
      let ends : state (set h0 s (clock 1)) ≡ s =
        st' ∙ ap (λ x. next_state x s) st ∙ (next_state_answers s a).0 in
      let c =
        conclude-IsSound (set h0 s (clock 1)) left (text_of (parse_response p)) (clock 2) t''
          (subst IsAnswer (sym ends) a) (λ _. (q, kept)) in
      let a : Answered h source left (text_of (parse_response p)) s r' = record {
        out = conclude (set h0 s (clock 1)) left (text_of (parse_response p)) (clock 2);
        returns =
            notify_none h source n
            ∙ start_handling (set h h_handling (clock 0)) source st
            ∙ rw (parsed, same, routed, unless_answer incomplete_input s (inl refl) a) refl;
        sound = c.0;
        ends_in = c.1 ∙ ends;
        source = c.2;
        sink = c.3;
        called_back = c.4;
        router = c.5 ∙ router-set _ _ (clock 1);
      } in
      (
        a,
        (
          λ is_recall.
              conclude_request (set h0 s (clock 1)) left (text_of (parse_response p)) (clock 2) t''
                (ends ∙ is_recall)
              ∙ kept,
          λ ne. no_request a.out.handler a.sound (λ e'. ne (sym a.ends_in ∙ e')),
        ),
      )

  -- A new handler that cannot parse the request writes nothing, forgets it, keeps its router, notifies
  -- its caller and ends in FINISHED_NO_WAIT.
  pub bad_request :
      (h : HttpHandler R) (source left : Text)
      → IsHandler h.state_manager
      → state h ≡ ready_to_handle
      → h.http_request ≡ none
      → parse_request source ≡ (none, left)
      → Answered h source left [] finished_no_wait h.router
  unfolding handle_new
  bad_request h source left t e n parsed =
      let (st, same, t') = begun h t e in
      let h0 : HttpHandler R = record (set h h_handling (clock 0)) { http_request = none } in
      let (st', kept, t'') = state-set h0 finished_no_wait (clock 1) t' in
      let ends : state (set h0 finished_no_wait (clock 1)) ≡ finished_no_wait =
        st' ∙ ap (λ x. next_state x finished_no_wait) st ∙ next_state_known.1 in
      let c =
        conclude-IsSound (set h0 finished_no_wait (clock 1)) left [] (clock 2) t'' (inl ends)
          (λ q. cc (sym ends ∙ q)) in
      record {
        out = conclude (set h0 finished_no_wait (clock 1)) left [] (clock 2);
        returns =
            notify_none h source n
            ∙ start_handling (set h h_handling (clock 0)) source st
            ∙ rw parsed refl;
        sound = c.0;
        ends_in = c.1 ∙ ends;
        source = c.2;
        sink = c.3;
        called_back = c.4;
        router = c.5 ∙ router-set h0 finished_no_wait (clock 1) ∙ router-set h h_handling (clock 0);
      }

  -- A handler that waits in RECALL writes the body of the router's next response alone, reads
  -- nothing, takes the state that the router returns, if this is FINISHED_NO_WAIT, FINISHED_WAIT or
  -- RECALL, and keeps its request in RECALL and none in another state.
  pub recalled :
      (h : HttpHandler R) (source : Text) (q : Request) (p : Response) (r' : R) (s : HandlerState)
      → IsHandler h.state_manager
      → state h ≡ recall
      → h.http_request ≡ some q
      → route q (new_response garbage) h.router ≡ some (some s, p, r')
      → IsAnswer s
      → (a : Answered h source source p.body s r') × Keeps q a
  unfolding notify notify_request continue_with continue_in
  recalled h source q p r' s t e n routed a =
      let h0 : HttpHandler R = record h { router = r' } in
      let (st', kept, t'') = state-set h0 s (clock 1) t in
      let ends : state (set h0 s (clock 1)) ≡ s =
        st' ∙ ap (λ x. next_state x s) e ∙ (next_state_answers s a).1 in
      let c =
        conclude-IsSound (set h0 s (clock 1)) source p.body (clock 2) t''
          (subst IsAnswer (sym ends) a) (λ _. (q, kept ∙ n)) in
      let a : Answered h source source p.body s r' = record {
        out = conclude (set h0 s (clock 1)) source p.body (clock 2);
        returns =
            ap (λ o. notify_request route garbage clock h o source) n
            ∙ rw (get-Handler h (clock 0) t, routed, unless_answer handler_error s (inr refl) a)
                refl;
        sound = c.0;
        ends_in = c.1 ∙ ends;
        source = c.2;
        sink = c.3;
        called_back = c.4;
        router = c.5 ∙ router-set _ _ (clock 1);
      } in
      (
        a,
        (
          λ is_recall.
              conclude_request (set h0 s (clock 1)) source p.body (clock 2) t'' (ends ∙ is_recall)
              ∙ kept
              ∙ n,
          λ ne. no_request a.out.handler a.sound (λ e'. ne (sym a.ends_in ∙ e')),
        ),
      )

  -- A handler whose request is over takes no other: it fails, reads and writes nothing, does not
  -- notify its caller, holds no request, and keeps its router. This holds of FINISHED_WAIT, which asks for the connection to live.
  pub second_request :
      (h : HttpHandler R) (source : Text)
      → IsHandler h.state_manager
      → (state h ≡ finished_wait) ⊎ (state h ≡ finished_no_wait) ⊎ (state h ≡ handler_error)
      → h.http_request ≡ none
      → (out : Notified R) × (notify route garbage clock h source ≡ some out)
        × (state out.handler ≡ handler_error)
        × (out.source ≡ source)
        × (out.sink ≡ [])
        × (out.called_back ≡ false)
        × IsSound out.handler
        × (out.handler.router ≡ h.router)
  unfolding start HandlerState-discrete
  second_request h source t over n =
      let failed : HttpHandler R = set h h_handling (clock 0) in
      let fails : next_state (state h) h_handling ≡ handler_error = elim over [
        | inl e ↦ ap (λ x. next_state x h_handling) e ∙ next_state_known.3
        | inr (inl e) ↦ ap (λ x. next_state x h_handling) e ∙ next_state_known.2
        | inr (inr e) ↦ ap (λ x. next_state x h_handling) e ∙ next_state_known.4
      ] in
      let e : state failed ≡ handler_error = (state-set h h_handling (clock 0) t).0 ∙ fails in
      (
        record { handler = failed; source = source; sink = []; called_back = false },
        notify_none h source n ∙ rw (ap (λ x. is_state x handler_error) e) refl,
        e,
        refl,
        refl,
        refl,
        record {
          tables = (state-set h h_handling (clock 0) t).2;
          phase = inl ((state-set h h_handling (clock 0) t).1 ∙ n, inr (inr (inr e)));
        },
        router-set h h_handling (clock 0),
      )
