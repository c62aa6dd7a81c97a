-- ===== src/Logging/Tests.antt =====
-- Runs of the agents of src/logger.
use nimlib.Prelude.{ℕ, ◌≡◌, refl, ◌++◌, some, [], ◌∷◌}
use nimlib.Prelude.Text.{Text, codes}
use nimlib.Constants.{info, debug, warn, error}
use nimlib.Logging.{Agent, Logger, new_logger, get_agent}
use nimlib.Logging.Registry.{Registered, new_logger-IsLogger, get_agent-Registered}
use nimlib.Logging.Levels.{Messages, log_all, log_all_lem, lines_from, let_through}

abbrev noon : ℕ → Text × Text
noon n = (codes "2024-05-01", codes "12:00:00")

abbrev main_agent : Agent
main_agent = record { agent_name = codes "main"; level = warn }

abbrev one_agent : Logger
one_agent = record { agents = (codes "main", 0) ∷ []; heap = main_agent ∷ []; output = [] }

abbrev messages : Messages
messages = (debug, codes "a") ∷ (error, codes "b") ∷ (warn, codes "c") ∷ []

let_through_runs : let_through warn messages ≡ (error, codes "b") ∷ (warn, codes "c") ∷ []
unfolding let_through
let_through_runs = refl

get_agent-Registered_example :
    (ptr : ℕ) × (after : Logger) × (get_agent (codes "main") info new_logger
      ≡ some (some ptr, after))
    × Registered (codes "main") new_logger after ptr error
get_agent-Registered_example =
    get_agent-Registered (codes "main") info error new_logger new_logger-IsLogger

log_all_lem_example :
    log_all noon 0 messages one_agent
    ≡ some (record one_agent {
      output = [] ++ lines_from noon 0 main_agent (let_through warn messages);
    })
log_all_lem_example = log_all_lem noon 0 main_agent messages one_agent refl
