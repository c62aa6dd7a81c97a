-- ===== src/Logging/Registry.antt =====
-- The agents that the factory of src/logger/factory.cpp finds and registers.
use nimlib.Prelude.{
  ℕ, zero, suc, ◌≡◌, refl, sym, ap, subst, ◌∙◌, inl, inr, true, none, some, List, [], ◌∷◌, ◌++◌,
  length, get_elem?, arith, some_inj, Option-cases,
}
use nimlib.Prelude.Text.{Text, Text-discrete}
use nimlib.Prelude.Map.{find, insert, find-insert_self, find-insert_ne}
use nimlib.Constants.{LogLevel}
use nimlib.Logging.{
  Agent, Logger, new_logger, registered_agent, register_agent, make_agent, get_agent, found_or_new,
  register_unless, registered_or_empty, applied,
}

-- The pointer leads to an agent of this name.
pub record Named (l : Logger) (ptr : ℕ) (name : Text) : Type 0 where
  pub agent : Agent
  pub there : get_elem? l.heap ptr ≡ some agent
  pub name_eq : agent.agent_name ≡ name

-- Each agent is registered under its own name.
pub record IsLogger (l : Logger) : Type 0 where
  pub leads :
      (name : Text) (ptr : ℕ) → find Text-discrete name l.agents ≡ some ptr → Named l ptr name

pub new_logger-IsLogger : IsLogger new_logger
unfolding find
new_logger-IsLogger = record { leads = λ name ptr e. absurd (grind arith) }

-- An element of a list is where it was when more stand behind.
pub get_elem?-append {ℓ} :
    {A : Type ℓ} (xs ys : List A) (i : ℕ) (a : A)
    → get_elem? xs i ≡ some a
    → get_elem? (xs ++ ys) i ≡ some a
get_elem?-append [] ys i a e = absurd (grind arith)
get_elem?-append (x ∷ xs) ys zero a e = e
get_elem?-append (x ∷ xs) ys (suc i) a e = get_elem?-append xs ys i a e

pub get_elem?-length {ℓ} :
    {A : Type ℓ} (xs : List A) (a : A) → get_elem? (xs ++ a ∷ []) (length xs) ≡ some a
get_elem?-length [] a = refl
get_elem?-length (x ∷ xs) a = get_elem?-length xs a

-- The logger with one more agent, registered.
abbrev with_agent : Text → LogLevel → Logger → Logger
with_agent name level l = record l {
  heap = l.heap ++ record { agent_name = name; level = level } ∷ [];
  agents = insert Text-discrete name (length l.heap) l.agents;
}

get_agent_known :
    (name : Text) (level : LogLevel) (l : Logger) (ptr : ℕ)
    → find Text-discrete name l.agents ≡ some ptr
    → get_agent name level l ≡ some (some ptr, l)
unfolding get_agent registered_agent
get_agent_known name level l ptr e = ap (found_or_new name level l) e

get_agent_unknown :
    (name : Text) (level : LogLevel) (l : Logger)
    → find Text-discrete name l.agents ≡ none
    → get_agent name level l ≡ some (some (length l.heap), with_agent name level l)
unfolding get_agent registered_agent make_agent register_agent
get_agent_unknown name level l e =
    ap (found_or_new name level l) e ∙ ap (registered_or_empty (length l.heap)) registers
  where
    agent : Agent
    agent = record { agent_name = name; level = level }

    made : Logger
    made = record l { heap = l.heap ++ agent ∷ [] }

    registers : register_agent (length l.heap) made ≡ some (true, with_agent name level l)
    registers =
        ap
          (applied
            (λ a m.
              register_unless (length l.heap) a.agent_name m
                (find Text-discrete a.agent_name m.agents))
            made)
          (get_elem?-length l.heap agent)
        ∙ ap (λ o. some (register_unless (length l.heap) name made o)) e

with_agent-Named :
    (name : Text) (level : LogLevel) (l : Logger)
    → Named (with_agent name level l) (length l.heap) name
with_agent-Named name level l = record {
  agent = record { agent_name = name; level = level };
  there = get_elem?-length l.heap _;
  name_eq = refl;
}

with_agent-IsLogger :
    (name : Text) (level : LogLevel) (l : Logger) → IsLogger l → IsLogger (with_agent name level l)
with_agent-IsLogger name level l good = record { leads = leads }
  where
    kept : (other : Text) (ptr : ℕ) → Named l ptr other → Named (with_agent name level l) ptr other
    kept other ptr n = record {
      agent = n.agent;
      there = get_elem?-append l.heap _ ptr n.agent n.there;
      name_eq = n.name_eq;
    }

    new_ptr :
        (other : Text) (ptr : ℕ)
        → name ≡ other
        → find Text-discrete other (insert Text-discrete name (length l.heap) l.agents) ≡ some ptr
        → length l.heap ≡ ptr
    new_ptr other ptr same e =
        let found = find-insert_self Text-discrete name (length l.heap) l.agents in
        some_inj (
          sym (
            subst
              (λ n.
                find Text-discrete n (insert Text-discrete name (length l.heap) l.agents)
                ≡ some (length l.heap))
              same found)
          ∙ e)

    leads :
        (other : Text) (ptr : ℕ)
        → find Text-discrete other (insert Text-discrete name (length l.heap) l.agents) ≡ some ptr
        → Named (with_agent name level l) ptr other
    leads other ptr e = elim (Text-discrete name other) [
      | yes same ↦
          subst (λ k. Named (with_agent name level l) k other) (new_ptr other ptr same e)
            (subst (Named (with_agent name level l) (length l.heap)) same
              (with_agent-Named name level l))
      | no differ ↦ kept other ptr (
          good.leads other ptr
            (sym (find-insert_ne Text-discrete name other (length l.heap) l.agents differ) ∙ e))
    ]

-- What a call of the factory leaves: it has a pointer to an agent of the name, the next call with the
-- name, at whatever level, gives the same pointer and changes nothing, and nothing is printed.
pub record Registered (name : Text) (before after : Logger) (ptr : ℕ) (next : LogLevel)
    : Type 0 where
  pub well_formed : IsLogger after
  pub agent : Named after ptr name
  pub again : get_agent name next after ≡ some (some ptr, after)
  pub quiet : after.output ≡ before.output

-- In a logger whose agents are registered under their own names, the factory always gives an agent
-- of the name asked for; the logger stays well formed, nothing is printed, and the next call for the
-- name gives the same agent, whatever level it asks for, and changes nothing.
pub get_agent-Registered :
    (name : Text) (level next : LogLevel) (l : Logger)
    → IsLogger l
    → (ptr : ℕ) × (after : Logger) × (get_agent name level l ≡ some (some ptr, after))
      × Registered name l after ptr next
get_agent-Registered name level next l good =
    elim (Option-cases (find Text-discrete name l.agents)) [
      | inr (ptr, e) ↦ (
        ptr,
        l,
        get_agent_known name level l ptr e,
        record {
          well_formed = good;
          agent = good.leads name ptr e;
          again = get_agent_known name next l ptr e;
          quiet = refl;
        },
      )
      | inl e ↦ (
        length l.heap,
        with_agent name level l,
        get_agent_unknown name level l e,
        record {
          well_formed = with_agent-IsLogger name level l good;
          agent = with_agent-Named name level l;
          again =
              get_agent_known name next (with_agent name level l) (length l.heap)
                (find-insert_self Text-discrete name (length l.heap) l.agents);
          quiet = refl;
        },
      )
    ]
