-- ===== src/Http/Handler/Requests/Unanswered.antt =====
-- What `HttpHandler::notify` of src/http/http.cpp does when the router returns no state.
use nimlib.Prelude.{ℕ, ◌≡◌, refl, ap, ◌∙◌, inl, inr, Option, none, some, []}
use nimlib.Prelude.Text.{Text}
use nimlib.Constants.{HandlerState, ready_to_handle, h_handling, finished_no_wait, recall}
use nimlib.Utils.StateManager.{Readings}
use nimlib.Http.Parser.{Request, Response, parse_request}
use nimlib.Http.Handler.{
  HttpHandler, new_response, set, state, conclude, answer, continue_in, respond, handle_new,
  continue_with, notify_request, notify,
}
use nimlib.Http.Handler.States.{IsHandler, next_state}
use nimlib.Http.Handler.Requests.{Answered, begun, notify_none, start_handling}
use nimlib.Http.Handler.Sound.{
  state-set, get-Handler, conclude-IsSound, router-set, next_state_known,
}

module _ {R : Type 0} (route : Request → Response → R → Option (Option HandlerState × Response × R))
    (garbage : ℕ) (clock : ℕ → Readings) where
  -- A new handler whose router returns no state writes nothing and ends in FINISHED_NO_WAIT.
  pub unanswered_request :
      (h : HttpHandler R) (source left : Text) (q : Request) (p : Response) (r' : R)
      → IsHandler h.state_manager
      → state h ≡ ready_to_handle
      → h.http_request ≡ none
      → parse_request source ≡ (some q, left)
      → route q (new_response garbage) h.router ≡ some (none, p, r')
      → Answered route garbage clock h source left [] finished_no_wait r'
  unfolding handle_new respond answer
  unanswered_request h source left q p r' t e n parsed routed =
      let (st, same, t') = begun route garbage clock h t e in
      let h0 : HttpHandler R = record (set h h_handling (clock 0)) {
        http_request = some q;
        router = r';
      } in
      let (st', kept, t'') = state-set h0 finished_no_wait (clock 1) t' in
      let ends : state (set h0 finished_no_wait (clock 1)) ≡ finished_no_wait =
        st' ∙ ap (λ x. next_state x finished_no_wait) st ∙ next_state_known.1 in
      let c =
        conclude-IsSound (set h0 finished_no_wait (clock 1)) left [] (clock 2) t'' (inl ends)
          (λ _. (q, kept)) in
      record {
        out = conclude (set h0 finished_no_wait (clock 1)) left [] (clock 2);
        returns =
            notify_none route garbage clock h source n
            ∙ start_handling route garbage clock (set h h_handling (clock 0)) source st
            ∙ rw (parsed, same, routed) refl;
        sound = c.0;
        ends_in = c.1 ∙ ends;
        source = c.2;
        sink = c.3;
        called_back = c.4;
        router = c.5 ∙ router-set _ _ (clock 1);
      }

  -- A handler that waits in RECALL and whose router returns no state writes nothing and waits on.
  pub unanswered_recall :
      (h : HttpHandler R) (source : Text) (q : Request) (p : Response) (r' : R)
      → IsHandler h.state_manager
      → state h ≡ recall
      → h.http_request ≡ some q
      → route q (new_response garbage) h.router ≡ some (none, p, r')
      → Answered route garbage clock h source source [] recall r'
  unfolding notify notify_request continue_with continue_in
  unanswered_recall h source q p r' t e n routed =
      let h0 : HttpHandler R = record h { router = r' } in
      let c = conclude-IsSound h0 source [] (clock 2) t (inr (inr e)) (λ _. (q, n)) in
      record {
        out = conclude h0 source [] (clock 2);
        returns =
            ap (λ o. notify_request route garbage clock h o source) n
            ∙ rw (get-Handler h (clock 0) t, routed) refl;
        sound = c.0;
        ends_in = c.1 ∙ e;
        source = c.2;
        sink = c.3;
        called_back = c.4;
        router = c.5;
      }
