-- ===== src/Logging/Levels.antt =====
-- What the agents of src/logger/agent.cpp print.
use nimlib.Prelude.{
  ℕ, suc, ◌≡◌, refl, sym, ap, ◌∙◌, Option, none, some, List, [], ◌∷◌, ◌++◌, length, get_elem?,
  append-nil, append_assoc, arith, if◌then◌else◌, leb, length-append, Bool-cases, inl, inr,
}
use nimlib.Prelude.Text.{Text, codes}
use nimlib.Constants.{
  LogLevel, info, debug, warn, error, critical, level_number, level_to_string_translation,
}
use nimlib.Logging.{Agent, Logger, line, log, log_at, print_message, applied}

-- Messages are lists of what is asked for.
abbrev pub Messages : Type 0
Messages = List (LogLevel × Text)

-- The levels from the least to the greatest, and what they are called.
abbrev pub rank : LogLevel → ℕ
rank info = 0
rank debug = 1
rank warn = 2
rank error = 3
rank critical = 4

abbrev pub level_name : LogLevel → Text
level_name info = codes "info"
level_name debug = codes "debug"
level_name warn = codes "warn"
level_name error = codes "error"
level_name critical = codes "critical"

rank_lem : (level : LogLevel) → level_number level ≡ rank level
rank_lem info = refl
rank_lem debug = refl
rank_lem warn = refl
rank_lem error = refl
rank_lem critical = refl

level_name_lem : (level : LogLevel) → level_to_string_translation level ≡ level_name level
unfolding level_to_string_translation
level_name_lem info = refl
level_name_lem debug = refl
level_name_lem warn = refl
level_name_lem error = refl
level_name_lem critical = refl

-- Those that an agent of the level lets through, in order.
unfoldable pub let_through : LogLevel → Messages → Messages
let_through level [] = []
let_through level ((asked, text) ∷ ms) =
    let rest = let_through level ms in
    if leb (rank level) (rank asked) then (asked, text) ∷ rest else rest

module _ (now : ℕ → Text × Text) where
  -- A line as it is printed: `[date time]: [level] [agent] message`.
  abbrev pub shown : ℕ → Text → LogLevel → Text → Text
  shown n name asked text =
      codes "["
      ++ (now n).0
      ++ codes " "
      ++ (now n).1
      ++ codes "]: ["
      ++ level_name asked
      ++ codes "] ["
      ++ name
      ++ codes "] "
      ++ text

  shown_lem :
      (n : ℕ) (a : Agent) (asked : LogLevel) (text : Text)
      → line now n a asked text ≡ shown n a.agent_name asked text
  shown_lem n a asked text = rw (level_name_lem asked) refl

  -- The lines of an agent, the first of which has the number `n`.
  unfoldable pub lines_from : ℕ → Agent → Messages → List Text
  lines_from n a [] = []
  lines_from n a ((asked, text) ∷ ms) = shown n a.agent_name asked text ∷ lines_from (suc n) a ms

  abbrev pub and_log_all : (Logger → Option Logger) → Option Logger → Option Logger
  and_log_all f none = none
  and_log_all f (some l) = f l

  -- The calls of `log` for the messages in order.
  unfoldable pub log_all : ℕ → Messages → Logger → Option Logger
  log_all ptr [] l = some l
  log_all ptr ((asked, text) ∷ ms) l = and_log_all (log_all ptr ms) (log now ptr asked text l)

  abbrev printed : Agent → Messages → Logger → Logger
  printed a ms l = record l {
    output = l.output ++ lines_from (length l.output) a (let_through a.level ms);
  }

  log_found :
      (ptr : ℕ) (a : Agent) (l : Logger) (asked : LogLevel) (text : Text)
      → get_elem? l.heap ptr ≡ some a
      → log now ptr asked text l ≡ some (log_at now asked text a l)
  unfolding log
  log_found ptr a l asked text e = ap (applied (log_at now asked text) l) e

  print_message_heap :
      (ptr : ℕ) (a : Agent) (l : Logger) (asked : LogLevel) (text : Text)
      → get_elem? l.heap ptr ≡ some a
      → get_elem? (print_message now asked text a l).heap ptr ≡ some a
  unfolding print_message
  print_message_heap ptr a l asked text e = e

  -- The lines behind a printed one.
  line_then :
      (l : Logger) (a : Agent) (asked : LogLevel) (text : Text) (ms : Messages)
      → printed a ms (print_message now asked text a l) ≡ record l {
        output =
            l.output ++ lines_from (length l.output) a ((asked, text) ∷ let_through a.level ms);
      }
  unfolding lines_from print_message
  line_then l a asked text ms =
      let one : List Text = line now (length l.output) a asked text ∷ [] in
      let first = shown_lem (length l.output) a asked text in
      let size : length (l.output ++ one) ≡ suc (length l.output) =
        omega (arith, length-append l.output one) in
      ap (λ xs. record l { output = xs })
        (append_assoc l.output one
            (lines_from (length (l.output ++ one)) a (let_through a.level ms))
          ∙ ap
              (λ n.
                l.output
                ++ (line now (length l.output) a asked text
                    ∷ lines_from n a (let_through a.level ms)))
              size
          ∙ ap
              (λ x. l.output ++ (x ∷ lines_from (suc (length l.output)) a (let_through a.level ms)))
              first)

  -- An agent prints exactly the messages whose level is at least its own, in the order info, debug,
  -- warn, error, critical: one line `[date time]: [level] [agent] message` each, in the order of the
  -- calls, behind what was printed before.
  pub log_all_lem :
      (ptr : ℕ) (a : Agent) (ms : Messages) (l : Logger)
      → get_elem? l.heap ptr ≡ some a
      → log_all ptr ms l
        ≡ some (record l {
          output = l.output ++ lines_from (length l.output) a (let_through a.level ms);
        })
  unfolding log_all let_through lines_from
  log_all_lem ptr a [] l e = ap (λ xs. some (record l { output = xs })) (sym (append-nil l.output))
  log_all_lem ptr a ((asked, text) ∷ ms) l e =
      ap (and_log_all (log_all ptr ms)) (log_found ptr a l asked text e)
      ∙ rw (rank_lem a.level, rank_lem asked)
          (elim (Bool-cases (leb (rank a.level) (rank asked))) [
            | inl b ↦
                rw
                  (
                    b,
                    log_all_lem ptr a ms (print_message now asked text a l)
                        (print_message_heap ptr a l asked text e),
                  )
                  (ap some (line_then l a asked text ms))
            | inr b ↦ rw b (log_all_lem ptr a ms l e)
          ])
