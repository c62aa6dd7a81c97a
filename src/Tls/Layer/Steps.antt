-- ===== src/Tls/Layer/Steps.antt =====
-- One call of the layer of src/tls/tls_layer.cpp: what it adds, and what it leaves of the channel.
use nimlib.Prelude.{
  ℕ, ◌<◌, ◌≤◌, ◌≡◌, refl, sym, ap, ◌∙◌, inl, inr, Bool, true, false, ◌||◌, Option, none, some, List,
  [], ◌∷◌, ◌++◌, append-nil, append_assoc, arith, Bool-cases,
}
use nimlib.Prelude.Text.{Text}
use nimlib.Connection.{Protocol}
use nimlib.Tls.Layer.{
  Event, emits, hands_over, finished, throws, Channel, Notice, TlsLayer, Work, Exit, returned,
  notice, tls_emit_data, emit_all, with_channel, close_channel, sent_then_close, answer_with,
  notify_layer, after_next, run_next, tls_record_received,
}

-- An event leaves fewer events.
abbrev pub Lowers : {C : Type 0} → (C → ℕ) → ℕ → Event C → Type 0
Lowers pending n (emits bytes c) = pending c < n
Lowers pending n (hands_over bytes c) = pending c < n
Lowers pending n (finished needed c) = Unit
Lowers pending n (throws c) = Unit

-- What the channel emits in an event is what its log grows by.
abbrev pub Logs : {C : Type 0} → (C → Text) → Text → Event C → Type 0
Logs log before (emits bytes c) = log c ≡ before ++ bytes
Logs log before (hands_over bytes c) = log c ≡ before
Logs log before (finished needed c) = log c ≡ before
Logs log before (throws c) = log c ≡ before

abbrev pub joined : List Text → Text
joined [] = []
joined (piece ∷ pieces) = piece ++ joined pieces

-- The log of a channel, if there is one.
abbrev pub logged : {C : Type 0} → (C → Text) → Option C → Text
logged log none = []
logged log (some c) = log c

-- The channel that a call uses.
abbrev pub used : {C : Type 0} → Option C → Option C → Option C
used none made = made
used (some c) made = some c

-- What the layer relies on: received bytes lead to finitely many events, and sending and closing, which
-- the callbacks do in between, do not add to those that are left. `log` is all that the channel has
-- emitted so far.
pub record IsChannel {C : Type 0} (channel : Channel C) : Type 0 where
  pub next_event-Lowers :
      (c : C) → Lowers channel.pending (channel.pending c) (channel.next_event c)
  pub send-le : (c : C) (t : Text) → channel.pending (channel.send c t).1 ≤ channel.pending c
  pub close-le : (c : C) → channel.pending (channel.close c).1 ≤ channel.pending c
  pub log : C → Text
  pub received-log : (c : C) (t : Text) → log (channel.received_data c t) ≡ log c
  pub next_event-Logs : (c : C) → Logs log (log c) (channel.next_event c)
  pub send-log :
      (c : C) (t : Text) → log (channel.send c t).1 ≡ log c ++ joined (channel.send c t).0
  pub close-log : (c : C) → log (channel.close c).1 ≡ log c ++ joined (channel.close c).0

-- The layer has a channel, or one can be made.
abbrev pub HasChannel : {C : Type 0} → Option C → Option C → Type 0
HasChannel none none = ⊥
HasChannel none (some c) = Unit
HasChannel (some c) made = Unit

-- There is a channel, with at most `n` events left.
abbrev pub HasAtMost : {C : Type 0} → (C → ℕ) → ℕ → Option C → Type 0
HasAtMost pending n none = ⊥
HasAtMost pending n (some c) = pending c ≤ n

module _ {S C : Type 0} where
  -- The text `t` is added to the output, and notices may be, and the input is the same.
  pub record Added (t : Text) (w w' : Work S C) : Type 0 where
    pub same_input : w'.input ≡ w.input
    pub output_eq : w'.output ≡ w.output ++ t
    pub more : List Notice
    pub notices_eq : w'.notices ≡ w.notices ++ more

  Added-trans : (t t' : Text) (u v w : Work S C) → Added t u v → Added t' v w → Added (t ++ t') u w
  Added-trans t t' u v w g h = record {
    same_input = h.same_input ∙ g.same_input;
    output_eq = h.output_eq ∙ ap (λ x. x ++ t') g.output_eq ∙ append_assoc u.output t t';
    more = g.more ++ h.more;
    notices_eq =
        h.notices_eq ∙ ap (λ x. x ++ h.more) g.notices_eq ∙ append_assoc u.notices g.more h.more;
  }

  Added-none : (l : TlsLayer S C) (w : Work S C) → Added [] w (record w { layer = l })
  Added-none l w = record {
    same_input = refl;
    output_eq = sym (append-nil w.output);
    more = [];
    notices_eq = sym (append-nil w.notices);
  }

module _ {S C : Type 0} (log : C → Text) where
  -- What is added to the output is what the log of the channel has grown by.
  pub record Went (w w' : Work S C) : Type 0 where
    pub emitted : Text
    pub grew : Added emitted w w'
    pub log_eq : logged log w'.layer.tls_server ≡ logged log w.layer.tls_server ++ emitted

  pub Went-trans : (u v w : Work S C) → Went u v → Went v w → Went u w
  Went-trans u v w g h = record {
    emitted = g.emitted ++ h.emitted;
    grew = Added-trans g.emitted h.emitted u v w g.grew h.grew;
    log_eq =
        h.log_eq
        ∙ ap (λ x. x ++ h.emitted) g.log_eq
        ∙ append_assoc (logged log u.layer.tls_server) g.emitted h.emitted;
  }

  -- The call has returned or thrown, and the layer has a channel with at most `n` events left.
  abbrev pub Goes : (C → ℕ) → ℕ → Work S C → Option (Exit × Work S C) → Type 0
  Goes pending n w none = ⊥
  Goes pending n w (some (e, w')) = Went w w' × HasAtMost pending n w'.layer.tls_server

  pub with_layer-Went :
      (l : TlsLayer S C) (w : Work S C)
      → logged log l.tls_server ≡ logged log w.layer.tls_server
      → Went w (record w { layer = l })
  with_layer-Went l w e = record {
    emitted = [];
    grew = Added-none l w;
    log_eq = e ∙ sym (append-nil (logged log w.layer.tls_server));
  }

module _ {S C : Type 0} (protocol : Protocol S) where
  tls_emit_data-Added : (t : Text) (w : Work S C) → Added t w (tls_emit_data protocol t w)
  unfolding tls_emit_data
  tls_emit_data-Added t w = record {
    same_input = refl;
    output_eq = refl;
    more = notice protocol (record w.layer {}) ∷ [];
    notices_eq = refl;
  }

  pub tls_emit_data_server :
      (t : Text) (w : Work S C) → (tls_emit_data protocol t w).layer.tls_server ≡ w.layer.tls_server
  unfolding tls_emit_data
  tls_emit_data_server t w = refl

  emit_all-Added :
      (pieces : List Text) (w : Work S C) → Added (joined pieces) w (emit_all protocol pieces w)
  unfolding emit_all
  emit_all-Added [] w = Added-none w.layer w
  emit_all-Added (piece ∷ pieces) w =
      Added-trans piece (joined pieces) _ _ _ (tls_emit_data-Added piece w)
        (emit_all-Added pieces (tls_emit_data protocol piece w))

  pub emit_all_server :
      (pieces : List Text) (w : Work S C)
      → (emit_all protocol pieces w).layer.tls_server ≡ w.layer.tls_server
  unfolding emit_all
  emit_all_server [] w = refl
  emit_all_server (piece ∷ pieces) w =
      emit_all_server pieces (tls_emit_data protocol piece w) ∙ tls_emit_data_server piece w

  module _ (log : C → Text) where
    -- A channel is set, and what it has emitted is passed on.
    pub emits-Went :
        (pieces : List Text) (c : C) (w : Work S C)
        → log c ≡ logged log w.layer.tls_server ++ joined pieces
        → Went log w (emit_all protocol pieces (with_channel protocol c w))
    emits-Went pieces c w e =
        let a = emit_all-Added pieces (with_channel protocol c w) in
        record {
          emitted = joined pieces;
          grew = record {
            same_input = a.same_input;
            output_eq = a.output_eq;
            more = a.more;
            notices_eq = a.notices_eq;
          };
          log_eq = ap (logged log) (emit_all_server pieces (with_channel protocol c w)) ∙ e;
        }

    pub tls_emit_data-Went :
        (t : Text) (c : C) (w : Work S C)
        → log c ≡ logged log w.layer.tls_server ++ t
        → Went log w (tls_emit_data protocol t (with_channel protocol c w))
    tls_emit_data-Went t c w e =
        let a = tls_emit_data-Added t (with_channel protocol c w) in
        record {
          emitted = t;
          grew = record {
            same_input = a.same_input;
            output_eq = a.output_eq;
            more = a.more;
            notices_eq = a.notices_eq;
          };
          log_eq = ap (logged log) (tls_emit_data_server t (with_channel protocol c w)) ∙ e;
        }

module _ {S C : Type 0} (protocol : Protocol S) (channel : Channel C) (law : IsChannel channel)
    (serves : (h : S) (source sink : Text)
      → (r : S × Text × Text × Bool) × (protocol.notify h source sink ≡ some r)) where
  close_channel-Goes :
      (c : C) (w : Work S C) (n : ℕ)
      → channel.pending c ≤ n
      → logged law.log w.layer.tls_server ≡ law.log c
      → Goes law.log channel.pending n w (some (returned, close_channel protocol channel c w))
  unfolding close_channel
  close_channel-Goes c w n h same = (
    emits-Went protocol law.log (channel.close c).0 (channel.close c).1 w
        (law.close-log c ∙ ap (λ x. x ++ joined (channel.close c).0) (sym same)),
    rw (emit_all_server protocol (channel.close c).0 (with_channel protocol (channel.close c).1 w))
        (omega (arith, law.close-le c, h)),
  )

  later :
      (u w : Work S C) (n : ℕ) (o : Option (Exit × Work S C))
      → Went law.log u w
      → Goes law.log channel.pending n w o
      → Goes law.log channel.pending n u o
  later u w n none g h = h
  later u w n (some (e, v)) g (h, k) = (Went-trans law.log u w v g h, k)

  sent-Goes :
      (pieces : List Text) (c : C) (b : Bool) (w : Work S C) (n : ℕ)
      → channel.pending c ≤ n
      → law.log c ≡ logged law.log w.layer.tls_server ++ joined pieces
      → Goes law.log channel.pending n w (some (sent_then_close protocol channel (pieces, c, b) w))
  sent-Goes pieces c true w n h e = (
    emits-Went protocol law.log pieces c w e,
    rw (emit_all_server protocol pieces (with_channel protocol c w)) h,
  )
  sent-Goes pieces c false w n h e =
      let w' = emit_all protocol pieces (with_channel protocol c w) in
      later w w' n (some (returned, close_channel protocol channel c w'))
        (emits-Went protocol law.log pieces c w e)
        (close_channel-Goes c w' n h
          (ap (logged law.log) (emit_all_server protocol pieces (with_channel protocol c w))))

  answer-Goes :
      (o : Option C) (w : Work S C) (n : ℕ)
      → HasAtMost channel.pending n o
      → logged law.log w.layer.tls_server ≡ logged law.log o
      → Goes law.log channel.pending n w (answer_with protocol channel o w)
  answer-Goes none w n h same = absurd h
  answer-Goes (some c) w n h same =
      elim (Bool-cases (
        protocol.wants_to_write w.layer.next
        || protocol.wants_to_live w.layer.next
        || protocol.wants_to_be_calledback w.layer.next)) [
          | inl b ↦ rw b (
              sent-Goes _ _ _ w n (omega (arith, law.send-le c w.layer.decrypted_output, h)) (
                law.send-log c w.layer.decrypted_output
                ∙ ap (λ x. x ++ joined (channel.send c w.layer.decrypted_output).0) (sym same)))
          | inr b ↦ rw b (close_channel-Goes c w n h same)
        ]

  pub run_next-Goes :
      (w : Work S C) (n : ℕ)
      → HasAtMost channel.pending n w.layer.tls_server
      → Goes law.log channel.pending n w (run_next protocol channel w)
  unfolding run_next notify_layer
  run_next-Goes w n h =
      let ((s, source, sink, notifies), e) =
        serves w.layer.next w.layer.decrypted_input w.layer.decrypted_output in
      rw e (after notifies s source sink)
    where
      after :
          (notifies : Bool) (s : S) (source sink : Text)
          → Goes law.log channel.pending n w
              (after_next protocol channel w (some (s, source, sink, notifies)))
      after true s source sink =
          let l = record w.layer { next = s; decrypted_input = source; decrypted_output = sink } in
          later w (record w { layer = l }) n
            (notify_layer protocol channel (record w { layer = l }))
            (with_layer-Went law.log l w refl)
            (answer-Goes w.layer.tls_server (record w { layer = l }) n h refl)
      after false s source sink = (with_layer-Went law.log _ w refl, h)

  pub record_received-Goes :
      (t : Text) (w : Work S C) (n : ℕ)
      → HasAtMost channel.pending n w.layer.tls_server
      → Goes law.log channel.pending n w (tls_record_received protocol channel t w)
  unfolding tls_record_received
  record_received-Goes t w n h =
      let l = record w.layer { decrypted_input = w.layer.decrypted_input ++ t } in
      later w (record w { layer = l }) n (run_next protocol channel (record w { layer = l }))
        (with_layer-Went law.log l w refl) (run_next-Goes (record w { layer = l }) n h)

module _ {S C : Type 0} (protocol : Protocol S) where
  -- The layer has returned: nothing is left in the input stream; what stood in the output stream is
  -- followed by what the channel has emitted since its log was `before_log`; and the connection has got
  -- notices, the last of which is what the layer says now.
  pub record Round (log : C → Text) (before_log : Text) (w w' : Work S C) : Type 0 where
    pub input_read : w'.input ≡ []
    pub emitted : Text
    pub output_eq : w'.output ≡ w.output ++ emitted
    pub log_eq : logged log w'.layer.tls_server ≡ before_log ++ emitted
    pub before : List Notice
    pub notices_eq : w'.notices ≡ w.notices ++ before ++ notice protocol w'.layer ∷ []
