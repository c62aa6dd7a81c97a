-- ===== src/Tls/Layer/Rounds.antt =====
-- Every call of `notify` of src/tls/tls_layer.cpp returns.
use nimlib.Prelude.{◌≡◌, Bool, Option, none, some}
use nimlib.Prelude.Text.{Text}
use nimlib.Connection.{Protocol}
use nimlib.Tls.Layer.{Channel, Work, Exit, notify}
use nimlib.Tls.Layer.Steps.{IsChannel, Went}

module _ {S C : Type 0} (protocol : Protocol S) (channel : Channel C) (law : IsChannel channel)
    (serves : (h : S) (source sink : Text)
      → (r : S × Text × Text × Bool) × (protocol.notify h source sink ≡ some r)) where
  -- The call has returned or thrown.
  abbrev Ends : Work S C → Option (Exit × Work S C) → Type 0
  Ends w none = ⊥
  Ends w (some (e, w')) = Went law.log w w'
