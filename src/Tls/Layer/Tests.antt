-- ===== src/Tls/Layer/Tests.antt =====
-- Runs of the layer of src/tls/tls_layer.cpp over a channel that encrypts nothing.
use nimlib.Prelude.{ℕ, suc, refl, Bool, true, false, none, some, List, [], ◌∷◌, ◌++◌, length}
use nimlib.Prelude.Text.{Text, codes}
use nimlib.Connection.{Protocol}
use nimlib.Tls.Layer.{Event, hands_over, finished, Channel, Work, new_layer, notify}
use nimlib.Tls.Layer.Closed.{Lost, notify-Lost}

-- Whether the channel is open, the records that it has yet to hand over, and what it has emitted.
record Plain : Type 0 where
  open_ : Bool
  records : List Text
  emitted : Text

abbrev plain_of : Bool → List Text → Text → Plain
plain_of b ts log = record { open_ = b; records = ts; emitted = log }

abbrev next_of_records : Bool → Text → List Text → Event Plain
next_of_records b log [] = finished 0 (plain_of b [] log)
next_of_records b log (t ∷ ts) = hands_over t (plain_of b ts log)

abbrev send_if : Bool → List Text → Text → Text → List Text × Plain × Bool
send_if true ts log t = (t ∷ [], plain_of true ts (log ++ (t ++ [])), false)
send_if false ts log t = ([], plain_of false ts (log ++ []), true)

abbrev plain : Channel Plain
plain = record {
  received_data = λ c t. record c { records = c.records ++ t ∷ [] };
  next_event = λ c. next_of_records c.open_ c.emitted c.records;
  send = λ c t. send_if c.open_ c.records c.emitted t;
  close = λ c. (codes "bye" ∷ [], plain_of false c.records (c.emitted ++ (codes "bye" ++ [])));
  pending = λ c. length c.records;
}

-- A handler that answers with what it reads and wants to be called back.
abbrev echo : Protocol ℕ
echo = record {
  notify = λ n source sink. some (suc n, [], sink ++ source ++ codes "!", true);
  wants_more_bytes = λ n. false;
  wants_to_write = λ n. false;
  wants_to_live = λ n. false;
  wants_to_be_calledback = λ n. true;
}

abbrev fresh : Plain
fresh = plain_of true [] []

abbrev start : Work ℕ Plain
start = record { layer = new_layer 0; input = codes "hi"; output = []; notices = [] }

abbrev recalled : Work ℕ Plain
recalled = record start { layer = record start.layer { tls_server = some fresh }; input = [] }

notify-Lost_example : Lost echo plain none recalled
unfolding new_layer
notify-Lost_example =
    notify-Lost echo plain none recalled fresh (plain_of true [] (codes "!"))
      (plain_of false [] (codes "!bye")) (codes "!" ∷ []) 1 2 [] (codes "!") [] (codes "!!") refl
      refl (record { runs = refl; wants = refl }) refl (record { runs = refl; wants = refl }) refl
