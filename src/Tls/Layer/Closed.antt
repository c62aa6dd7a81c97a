-- ===== src/Tls/Layer/Closed.antt =====
-- What the layer of src/tls/tls_layer.cpp does after its first answer.
use nimlib.Prelude.{
  ◌≡◌, refl, sym, ap, ◌∙◌, subst, Bool, true, false, ◌||◌, Option, some, List, [], ◌∷◌, ◌++◌,
}
use nimlib.Prelude.Text.{Text}
use nimlib.Connection.{Protocol}
use nimlib.Tls.Layer.{
  Channel, TlsLayer, Work, returned, threw, notice, tell_connection, tls_emit_data, emit_all,
  with_channel, close_channel, sent_then_close, answer_with, notify_layer, after_next, run_next,
  told_if_threw, notify_by, notify_with, notify,
}

module _ {S C : Type 0} (protocol : Protocol S) (channel : Channel C) where
  abbrev pub has_answer : S → Bool
  has_answer h =
      protocol.wants_to_write h || protocol.wants_to_live h || protocol.wants_to_be_calledback h

  -- The handler behind the layer, asked with the streams of the layer, answers: it gives `h` and the
  -- streams, has an answer, and notifies the layer.
  pub record Answers (l : TlsLayer S C) (h : S) (source sink : Text) : Type 0 where
    pub runs :
        protocol.notify l.next l.decrypted_input l.decrypted_output ≡ some (h, source, sink, true)
    pub wants : has_answer h ≡ true

  abbrev handled : Work S C → S → Text → Text → Work S C
  handled w h source sink = record w {
    layer = record w.layer { next = h; decrypted_input = source; decrypted_output = sink };
  }

  run_next-answer :
      (w : Work S C) (h : S) (source sink : Text) (c : C)
      → w.layer.tls_server ≡ some c
      → Answers w.layer h source sink
      → run_next protocol channel w
        ≡ some (sent_then_close protocol channel (channel.send c sink) (handled w h source sink))
  unfolding run_next notify_layer
  run_next-answer w h source sink c e a =
      ap (after_next protocol channel w) a.runs
      ∙ ap (λ o. answer_with protocol channel o (handled w h source sink)) e
      ∙ rw a.wants refl

  emit_all_layer :
      (pieces : List Text) (w : Work S C) → (emit_all protocol pieces w).layer ≡ w.layer
  unfolding emit_all tls_emit_data
  emit_all_layer [] w = refl
  emit_all_layer (piece ∷ pieces) w = emit_all_layer pieces (tls_emit_data protocol piece w)

  emit_all_input :
      (pieces : List Text) (w : Work S C) → (emit_all protocol pieces w).input ≡ w.input
  unfolding emit_all tls_emit_data
  emit_all_input [] w = refl
  emit_all_input (piece ∷ pieces) w = emit_all_input pieces (tls_emit_data protocol piece w)

  close_layer :
      (c : C) (w : Work S C)
      → (close_channel protocol channel c w).layer
        ≡ record w.layer { tls_server = some (channel.close c).1 }
  unfolding close_channel
  close_layer c w = emit_all_layer (channel.close c).0 (with_channel protocol (channel.close c).1 w)

  close_input : (c : C) (w : Work S C) → (close_channel protocol channel c w).input ≡ w.input
  unfolding close_channel
  close_input c w = emit_all_input (channel.close c).0 (with_channel protocol (channel.close c).1 w)

  notify_recalled :
      (made : Option C) (w : Work S C) (c : C)
      → w.input ≡ []
      → w.layer.tls_server ≡ some c
      → notify protocol channel made w
        ≡ told_if_threw protocol channel (run_next protocol channel w)
  unfolding notify
  notify_recalled made w c i e =
      ap (λ o. notify_with protocol channel o made w) e
      ∙ ap (λ t. notify_by protocol channel t c w) i

  -- Two calls without new input, the second of which has emitted nothing.
  pub record Lost (made : Option C) (w : Work S C) : Type 0 where
    pub first : Work S C
    pub second : Work S C
    pub first_runs : notify protocol channel made w ≡ some first
    pub second_runs : notify protocol channel made first ≡ some second
    pub same_output : second.output ≡ first.output
    pub one_notice : second.notices ≡ first.notices ++ notice protocol second.layer ∷ []

  -- The layer behind an answer that the channel has taken: the channel is the closed one.
  abbrev behind : TlsLayer S C → S → Text → Text → C → TlsLayer S C
  behind l h source sink c = record l {
    next = h;
    decrypted_input = source;
    decrypted_output = sink;
    tls_server = some (channel.close c).1;
  }

  -- On a layer with a channel and without new input, let the handler answer twice in turn, let the
  -- channel take the first answer, and let a closed channel throw on `send` without emitting, as Botan
  -- says. Then both calls return, but the second answer is not emitted at all, since the layer has
  -- closed the channel behind the first one: the connection gets one more notice.
  pub notify-Lost :
      (made : Option C) (w : Work S C) (c c' d : C) (pieces : List Text) (h k : S)
      (source sink source' sink' : Text)
      → w.input ≡ []
      → w.layer.tls_server ≡ some c
      → Answers w.layer h source sink
      → channel.send c sink ≡ (pieces, c', false)
      → Answers (behind w.layer h source sink c') k source' sink'
      → channel.send (channel.close c').1 sink' ≡ ([], d, true)
      → Lost made w
  unfolding emit_all
  notify-Lost made w c c' d pieces h k source sink source' sink' i e a sends b throws = record {
    first = first;
    second = tell_connection protocol second;
    first_runs = notify_recalled made w c i e ∙ ap (told_if_threw protocol channel) runs;
    second_runs =
        notify_recalled made first (channel.close c').1 input (ap (λ l. l.tls_server) layer)
        ∙ ap (told_if_threw protocol channel) lost;
    same_output = refl;
    one_notice = refl;
  }
    where
      sent : Work S C
      sent = emit_all protocol pieces (with_channel protocol c' (handled w h source sink))

      first : Work S C
      first = close_channel protocol channel c' sent

      second : Work S C
      second = with_channel protocol d (handled first k source' sink')

      runs : run_next protocol channel w ≡ some (returned, first)
      runs =
          run_next-answer w h source sink c e a
          ∙ ap (λ o. some (sent_then_close protocol channel o (handled w h source sink))) sends

      layer : first.layer ≡ behind w.layer h source sink c'
      layer =
          let closed : TlsLayer S C → TlsLayer S C =
            λ l. record l { tls_server = some (channel.close c').1 } in
          close_layer c' sent
          ∙ ap closed (emit_all_layer pieces (with_channel protocol c' (handled w h source sink)))

      input : first.input ≡ []
      input =
          close_input c' sent
          ∙ emit_all_input pieces (with_channel protocol c' (handled w h source sink))
          ∙ i

      lost : run_next protocol channel first ≡ some (threw, second)
      lost =
          run_next-answer first k source' sink' (channel.close c').1 (ap (λ l. l.tls_server) layer)
            (subst (λ l. Answers l k source' sink') (sym layer) b)
          ∙ ap (λ o. some (sent_then_close protocol channel o (handled first k source' sink')))
              throws
