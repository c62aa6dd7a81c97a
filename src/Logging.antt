-- ===== src/Logging.antt =====
-- src/logger: `Agent`, `Logger` and the factory of agents.
--
-- A shared pointer to an agent is its place in the list of all agents that were made. What is printed
-- is the list of the lines; `now n` is the date and the time (`%F` and `%T`) that the line number `n`
-- shows. The only `Logger` is the static one of `get_instance`, which the calls pass on. `none` is a
-- pointer that leads to no agent.
pub mod Registry
pub mod Levels
mod Tests
use nimlib.Prelude.{
  ℕ, ◌+◌, ◌≡◌, Bool, true, false, Option, none, some, List, [], ◌∷◌, ◌++◌, if◌then◌else◌, leb,
  length, get_elem?, set,
}
use nimlib.Prelude.Text.{Text, Text-discrete, codes}
use nimlib.Prelude.Map.{find, insert}
use nimlib.Constants.{
  LogLevel, info, debug, warn, error, critical, level_number, level_to_string_translation,
}

pub record Agent : Type 0 where
  pub agent_name : Text
  pub level : LogLevel

-- `Logger`, with the agents that its pointers lead to and the lines printed so far.
pub record Logger : Type 0 where
  pub agents : List (Text × ℕ)
  pub heap : List Agent
  pub output : List Text

abbrev pub new_logger : Logger
new_logger = record { agents = []; heap = []; output = [] }

-- The members of the agent at `ptr`.
abbrev pub applied {ℓ} : {A : Type ℓ} → (Agent → Logger → A) → Logger → Option Agent → Option A
applied f l none = none
applied f l (some a) = some (f a l)

abbrev pub at_agent {ℓ} : {A : Type ℓ} → ℕ → (Agent → Logger → A) → Logger → Option A
at_agent ptr f l = applied f l (get_elem? l.heap ptr)

unfoldable pub get_name : ℕ → Logger → Option Text
get_name = λ ptr. at_agent ptr (λ a l. a.agent_name)

unfoldable pub set_level : ℕ → LogLevel → Logger → Option Logger
set_level ptr new_level =
    at_agent ptr λ a l. record l { heap = set l.heap ptr (record a { level = new_level }) }

module _ (now : ℕ → Text × Text) where
  abbrev pub line : ℕ → Agent → LogLevel → Text → Text
  line n a requested_level message =
      codes "["
      ++ (now n).0
      ++ codes " "
      ++ (now n).1
      ++ codes "]: ["
      ++ level_to_string_translation requested_level
      ++ codes "] ["
      ++ a.agent_name
      ++ codes "] "
      ++ message

  unfoldable pub print_message : LogLevel → Text → Agent → Logger → Logger
  print_message requested_level message a l = record l {
    output = l.output ++ line (length l.output) a requested_level message ∷ [];
  }

  -- `log(message)`.
  unfoldable pub log_message : ℕ → Text → Logger → Option Logger
  log_message ptr message = at_agent ptr (print_message info message)

  abbrev pub log_at : LogLevel → Text → Agent → Logger → Logger
  log_at requested_level message a l =
      if leb (level_number a.level) (level_number requested_level)
      then print_message requested_level message a l
      else l

  -- `log(requested_level, message)`.
  unfoldable pub log : ℕ → LogLevel → Text → Logger → Option Logger
  log ptr requested_level message = at_agent ptr (log_at requested_level message)

  unfoldable pub log_debug : ℕ → Text → Logger → Option Logger
  log_debug ptr message = log ptr debug message

  unfoldable pub log_info : ℕ → Text → Logger → Option Logger
  log_info ptr message = log ptr info message

  unfoldable pub log_warn : ℕ → Text → Logger → Option Logger
  log_warn ptr message = log ptr warn message

  unfoldable pub log_error : ℕ → Text → Logger → Option Logger
  log_error ptr message = log ptr error message

  unfoldable pub log_critical : ℕ → Text → Logger → Option Logger
  log_critical ptr message = log ptr critical message

-- `Logger::get_agent`, where `none` is an empty pointer.
unfoldable pub registered_agent : Text → Logger → Option ℕ
registered_agent agent_name l = find Text-discrete agent_name l.agents

abbrev pub register_unless : ℕ → Text → Logger → Option ℕ → Bool × Logger
register_unless ptr name l none =
    (true, record l { agents = insert Text-discrete name ptr l.agents })
register_unless ptr name l (some _) = (false, l)

unfoldable pub register_agent : ℕ → Logger → Option (Bool × Logger)
register_agent ptr =
    at_agent ptr
      λ a l. register_unless ptr a.agent_name l (find Text-discrete a.agent_name l.agents)

-- `std::make_shared<Agent>(agent_name, level)`.
unfoldable pub make_agent : Text → LogLevel → Logger → ℕ × Logger
make_agent agent_name level l = (
  length l.heap,
  record l { heap = l.heap ++ record { agent_name = agent_name; level = level } ∷ [] },
)

abbrev pub registered_or_empty : ℕ → Option (Bool × Logger) → Option (Option ℕ × Logger)
registered_or_empty ptr none = none
registered_or_empty ptr (some (true, l)) = some (some ptr, l)
registered_or_empty ptr (some (false, l)) = some (none, l)

abbrev pub new_agent : Text → LogLevel → Logger → Option (Option ℕ × Logger)
new_agent agent_name level l =
    let (ptr, l') = make_agent agent_name level l in registered_or_empty ptr (register_agent ptr l')

abbrev pub found_or_new : Text → LogLevel → Logger → Option ℕ → Option (Option ℕ × Logger)
found_or_new agent_name level l (some ptr) = some (some ptr, l)
found_or_new agent_name level l none = new_agent agent_name level l

-- `Factory::get_agent`, where the inner `none` is an empty pointer.
unfoldable pub get_agent : Text → LogLevel → Logger → Option (Option ℕ × Logger)
get_agent agent_name level l = found_or_new agent_name level l (registered_agent agent_name l)
