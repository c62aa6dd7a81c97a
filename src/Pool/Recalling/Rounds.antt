-- ===== src/Pool/Recalling/Rounds.antt =====
-- Where the rounds of a response in several parts end.
use nimlib.Prelude.{ℕ, ◌+◌}
use nimlib.Prelude.Text.{Text}
use nimlib.Utils.StateManager.{Readings}
use nimlib.Connection
use nimlib.Connection.{Protocol, Sends, send_loop}
use nimlib.Pool.Recalling.{Turn, IsTurn}

module _ {S : Type 0} (protocol : Protocol S) where
  module _ (t : ℕ) (turn : Turn) (fair : IsTurn t turn) where
    later : ℕ → Readings
    later j = turn.tidy_clock (j + 1)
