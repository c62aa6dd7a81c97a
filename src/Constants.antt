-- ===== src/Constants.antt =====
-- src/common/common.h: the enumerations that the components share.
use nimlib.Prelude.{ℕ}
use nimlib.Prelude.Text.{Text, codes}

pub data ServerDirective : Type 0 where
  read_socket write_socket continue_handling : ServerDirective

pub data ConnectionState : Type 0 where
  ready_to_read reading handling ready_to_write writing done inactive connection_error :
      ConnectionState

pub data HandlerState : Type 0 where
  ready_to_handle h_handling finished_no_wait finished_wait recall incomplete_input handler_error :
      HandlerState

unfoldable pub ConnectionState-discrete : Discrete ConnectionState
ConnectionState-discrete = hlevel

unfoldable pub HandlerState-discrete : Discrete HandlerState
HandlerState-discrete = hlevel

-- In the order of their numbers.
pub data LogLevel : Type 0 where
  info debug warn error critical : LogLevel

-- The number of a level, by which `>=` compares two levels.
abbrev pub level_number : LogLevel → ℕ
level_number info = 0
level_number debug = 1
level_number warn = 2
level_number error = 3
level_number critical = 4

unfoldable pub level_to_string_translation : LogLevel → Text
level_to_string_translation info = codes "info"
level_to_string_translation debug = codes "debug"
level_to_string_translation warn = codes "warn"
level_to_string_translation error = codes "error"
level_to_string_translation critical = codes "critical"
