-- ===== src/Tls/Layer.antt =====
-- src/tls/tls_layer.h and tls_layer.cpp: `TlsLayer`; src/tls/botan/callbacks.cpp: `Callbacks`; and
-- `get_tls_server` of src/tls/botan/botan_tls_server.cpp.
--
-- The channel of the Botan library is a state `C` with the operations of `Channel`, and the handler
-- behind the layer a state `S` with those of `Protocol` (`next` is not an empty pointer). The layer
-- notifies the connection several times in a call: a notice is what the connection reads from it then,
-- the answers to the four questions. `none` is a failure of the handler, an empty pointer that is
-- followed, or the end of the fuel.
pub mod Steps
pub mod Rounds
pub mod Closed
mod Tests
use nimlib.Prelude.{
  ℕ, zero, suc, ◌+◌, Bool, true, false, ◌||◌, Option, none, some, List, [], ◌∷◌, ◌++◌,
  if◌then◌else◌, ltb,
}
use nimlib.Prelude.Text.{Text, codes}
use nimlib.Connection.{Protocol}
use nimlib.Tls.Credentials.{Botan, CredentialsProvider}
use nimlib.Tls.Credentials.Making.{new_server}

-- What a channel does next with the bytes that it has received: it emits data, or hands over a record,
-- and goes on; or it is done and says how many bytes it needs; or it throws.
pub data Event (C : Type 0) : Type 0 where
  emits : Text → C → Event C
  hands_over : Text → C → Event C
  finished : ℕ → C → Event C
  throws : C → Event C

-- `Botan::TLS::Server`. `send` gives the pieces that it emits, and whether it throws then. `pending` is
-- a bound on the events that are left.
pub record Channel (C : Type 0) : Type 0 where
  pub received_data : C → Text → C
  pub next_event : C → Event C
  pub send : C → Text → List Text × C × Bool
  pub close : C → List Text × C
  pub pending : C → ℕ

pub record Notice : Type 0 where
  pub more_bytes : Bool
  pub write : Bool
  pub live : Bool
  pub calledback : Bool

pub record TlsLayer (S C : Type 0) : Type 0 where
  pub tls_continue : Bool
  pub decrypted_input : Text
  pub decrypted_output : Text
  pub tls_server : Option C
  pub next : S

-- The layer, the streams of the connection, and the notices that the connection has got, in order.
pub record Work (S C : Type 0) : Type 0 where
  pub layer : TlsLayer S C
  pub input : Text
  pub output : Text
  pub notices : List Notice

-- Whether a call has returned or has thrown.
pub data Exit : Type 0 where
  returned : Exit
  threw : Exit

-- The channel that `get_tls_server` makes with the credentials of the server, or `none` if making
-- these throws. The static objects are the same at each call.
unfoldable pub get_tls_server : (B : Botan) → {C : Type 0} → (CredentialsProvider B → C) → Option C
get_tls_server B make_channel =
    elim (new_server B (codes "../cert/server.crt") (codes "../cert/server.key") none none none) [
      | none ↦ none
      | some credentials ↦ some (make_channel credentials)
    ]

unfoldable pub new_layer : {S C : Type 0} → S → TlsLayer S C
new_layer next = record {
  tls_continue = true;
  decrypted_input = [];
  decrypted_output = [];
  tls_server = none;
  next = next;
}

module _ {S C : Type 0} (protocol : Protocol S) where
  unfoldable pub wants_more_bytes : TlsLayer S C → Bool
  wants_more_bytes l = l.tls_continue || protocol.wants_more_bytes l.next

  unfoldable pub wants_to_write : TlsLayer S C → Bool
  wants_to_write l = l.tls_continue || protocol.wants_to_write l.next

  unfoldable pub wants_to_live : TlsLayer S C → Bool
  wants_to_live l = l.tls_continue || protocol.wants_to_live l.next

  unfoldable pub wants_to_be_calledback : TlsLayer S C → Bool
  wants_to_be_calledback l = protocol.wants_to_be_calledback l.next

  abbrev pub notice : TlsLayer S C → Notice
  notice l = record {
    more_bytes = wants_more_bytes l;
    write = wants_to_write l;
    live = wants_to_live l;
    calledback = wants_to_be_calledback l;
  }

  -- `connection.notify(tls_layer)`.
  abbrev pub tell_connection : Work S C → Work S C
  tell_connection w = record w { notices = w.notices ++ notice w.layer ∷ [] }

  -- `Callbacks::tls_emit_data`.
  unfoldable pub tls_emit_data : Text → Work S C → Work S C
  tls_emit_data bytes w = tell_connection (record w { output = w.output ++ bytes })

  unfoldable pub emit_all : List Text → Work S C → Work S C
  emit_all [] w = w
  emit_all (piece ∷ pieces) w = emit_all pieces (tls_emit_data piece w)

  abbrev pub with_channel : C → Work S C → Work S C
  with_channel c w = record w { layer = record w.layer { tls_server = some c } }

module _ {S C : Type 0} (protocol : Protocol S) (channel : Channel C) where
  -- `tls_server->close()`.
  unfoldable pub close_channel : C → Work S C → Work S C
  close_channel c w =
      let (pieces, c') = channel.close c in emit_all protocol pieces (with_channel protocol c' w)

  abbrev pub sent_then_close : List Text × C × Bool → Work S C → Exit × Work S C
  sent_then_close (pieces, c, true) w =
      (threw, emit_all protocol pieces (with_channel protocol c w))
  sent_then_close (pieces, c, false) w =
      (returned, close_channel c (emit_all protocol pieces (with_channel protocol c w)))

  abbrev pub answer_with : Option C → Work S C → Option (Exit × Work S C)
  answer_with none w = none
  answer_with (some c) w =
      if protocol.wants_to_write w.layer.next
        || protocol.wants_to_live w.layer.next
        || protocol.wants_to_be_calledback w.layer.next
      then some (sent_then_close (channel.send c w.layer.decrypted_output) w)
      else some (returned, close_channel c w)

  -- `notify(handler, connection, streams)`, which the handler behind the layer calls.
  unfoldable pub notify_layer : Work S C → Option (Exit × Work S C)
  notify_layer w = answer_with w.layer.tls_server w

  abbrev pub after_next : Work S C → Option (S × Text × Text × Bool) → Option (Exit × Work S C)
  after_next w none = none
  after_next w (some (h, source, sink, notifies)) =
      let w' : Work S C = record w {
        layer = record w.layer { next = h; decrypted_input = source; decrypted_output = sink };
      } in
      if notifies then notify_layer w' else some (returned, w')

  -- `next->notify(tls_layer, connection, decrypted_streams)`.
  unfoldable pub run_next : Work S C → Option (Exit × Work S C)
  run_next w =
      after_next w (protocol.notify w.layer.next w.layer.decrypted_input w.layer.decrypted_output)

  -- `Callbacks::tls_record_received`.
  unfoldable pub tls_record_received : Text → Work S C → Option (Exit × Work S C)
  tls_record_received bytes w =
      run_next
        (record w { layer = record w.layer { decrypted_input = w.layer.decrypted_input ++ bytes } })

  abbrev pub unless_threw :
      (Work S C → Option (Exit × Work S C)) → Option (Exit × Work S C) → Option (Exit × Work S C)
  unless_threw f none = none
  unless_threw f (some (threw, w)) = some (threw, w)
  unless_threw f (some (returned, w)) = f w

  -- What follows an event, where `rest` handles those behind it. The channel is in the layer while the
  -- callbacks run, since they use it.
  abbrev pub on_event :
      (Work S C → Option (Exit × Work S C)) → Event C → Work S C → Option (Exit × Work S C)
  on_event rest (emits bytes c) w = rest (tls_emit_data protocol bytes (with_channel protocol c w))
  on_event rest (hands_over bytes c) w =
      unless_threw rest (tls_record_received bytes (with_channel protocol c w))
  on_event rest (finished bytes_needed c) w = some (
    returned,
    record w { layer = record w.layer { tls_server = some c; tls_continue = ltb 0 bytes_needed } },
  )
  on_event rest (throws c) w = some (threw, with_channel protocol c w)

  abbrev pub next_of : (C → Option (Exit × Work S C)) → Option C → Option (Exit × Work S C)
  next_of f none = none
  next_of f (some c) = f c

  -- `tls_server->received_data(...)` up to the assignment of `tls_continue`, event by event.
  unfoldable pub run_events : ℕ → Work S C → Option (Exit × Work S C)
  run_events zero w = none
  run_events (suc fuel) w =
      next_of (λ c. on_event (run_events fuel) (channel.next_event c) w) w.layer.tls_server

  -- The end of both branches of `notify`: with new bytes the connection is notified, and after an
  -- exception as well.
  abbrev pub told : Option (Exit × Work S C) → Option (Work S C)
  told none = none
  told (some (e, w)) = some (tell_connection protocol w)

  abbrev pub told_if_threw : Option (Exit × Work S C) → Option (Work S C)
  told_if_threw none = none
  told_if_threw (some (returned, w)) = some w
  told_if_threw (some (threw, w)) = some (tell_connection protocol w)

  -- `notify(connection, streams)` with a channel. The fuel is one more than the events that are left.
  abbrev pub notify_by : Text → C → Work S C → Option (Work S C)
  notify_by [] c w = told_if_threw (run_next w)
  notify_by (b ∷ bytes) c w =
      let fed = channel.received_data c (b ∷ bytes) in
      told (
        run_events (suc (channel.pending fed))
          (record (with_channel protocol fed w) { input = [] }))

  -- With the channel of the layer, or else with the one that is made; if this throws, the connection
  -- is notified.
  abbrev pub notify_with : Option C → Option C → Work S C → Option (Work S C)
  notify_with none none w = some (tell_connection protocol w)
  notify_with none (some c) w = notify_by w.input c (with_channel protocol c w)
  notify_with (some c) made w = notify_by w.input c w

  -- `notify(connection, streams)`; `made` is what `get_tls_server` gives.
  unfoldable pub notify : Option C → Work S C → Option (Work S C)
  notify made w = notify_with w.layer.tls_server made w
