-- ===== src/Sockets/Agreeing.antt =====
-- Calls with messages of src/decorations/tcp_socket_with_logger.h against calls without them.
use nimlib.Prelude.{
  ℕ, ◌≡◌, refl, sym, ap, ◌∙◌, subst, Bool, true, false, Option, none, some, List, [], ◌++◌,
  append-nil, append_assoc, if◌then◌else◌, get_elem?, leb,
}
use nimlib.Prelude.Text.{Text, Text-discrete}
use nimlib.Prelude.State.{M, pure, ◌>>◌, and_then}
use nimlib.Constants.{LogLevel, level_number}
use nimlib.Logging.{Agent, Logger, log, print_message}
use nimlib.Logging.Registry.{IsLogger}
use nimlib.Prelude.Map.{find}
use nimlib.Sockets.Logged.{World, tell, tell_port, keeping_log}

-- The same agents, and more lines behind those that were printed.
pub record Keeps (before after : Logger) : Type 0 where
  pub same_heap : after.heap ≡ before.heap
  pub same_agents : after.agents ≡ before.agents
  pub added : List Text
  pub more : after.output ≡ before.output ++ added

pub Keeps-refl : (l : Logger) → Keeps l l
Keeps-refl l = record {
  same_heap = refl;
  same_agents = refl;
  added = [];
  more = sym (append-nil l.output);
}

pub Keeps-trans : {a b c : Logger} → Keeps a b → Keeps b c → Keeps a c
Keeps-trans {a = a} h k = record {
  same_heap = k.same_heap ∙ h.same_heap;
  same_agents = k.same_agents ∙ h.same_agents;
  added = h.added ++ k.added;
  more = k.more ∙ ap (λ xs. xs ++ k.added) h.more ∙ append_assoc a.output h.added k.added;
}

pub IsLogger-kept : {a b : Logger} → Keeps a b → IsLogger a → IsLogger b
IsLogger-kept h good = record {
  leads = λ name ptr e.
      let n = good.leads name ptr (ap (find Text-discrete name) (sym h.same_agents) ∙ e) in
      record {
        agent = n.agent;
        there = ap (λ xs. get_elem? xs ptr) h.same_heap ∙ n.there;
        name_eq = n.name_eq;
      };
}

-- A pointer that leads to an agent.
abbrev pub Leads : List Agent → Option ℕ → Type 0
Leads heap none = ⊥
Leads heap (some ptr) = (a : Agent) × (get_elem? heap ptr ≡ some a)

abbrev pub IsThere : Option Text → Type 0
IsThere none = ⊥
IsThere (some port) = Unit

module _ {W : Type 0} where
  -- A message that is told.
  abbrev pub Told : Logger → W → Option (Unit {0} × World W) → Type 0
  Told l w none = ⊥
  Told l w (some (u, (w', l'))) = (w' ≡ w) × Keeps l l'

module _ {W A : Type 0} where
  -- The same result and the same state of the operating system, or a fault on both sides.
  abbrev pub Agrees : Logger → Option (A × World W) → Option (A × W) → Type 0
  Agrees l none none = Unit
  Agrees l none (some y) = ⊥
  Agrees l (some x) none = ⊥
  Agrees l (some (a, (w, l'))) (some (b, w')) = (a ≡ b) × (w ≡ w') × Keeps l l'

  pub Agrees_some :
      (l : Logger) (o : Option (A × World W)) (b : A) (w' : W)
      → Agrees l o (some (b, w'))
      → (k : Logger) × (o ≡ some (b, (w', k))) × Keeps l k
  Agrees_some l none b w' h = absurd h
  Agrees_some l (some (a, (w, k))) b w' (e, d, keeps) = (k, rw (e, d) refl, keeps)

  pub outside-Agrees : (l : Logger) (o : Option (A × W)) → Agrees l (keeping_log l o) o
  outside-Agrees l none = tt
  outside-Agrees l (some (a, w)) = (refl, refl, Keeps-refl l)

  told_pure :
      (before l : Logger) (a b : A) (w w' : W) (o : Option (Unit {0} × World W))
      → a ≡ b
      → w ≡ w'
      → Keeps before l
      → Told l w o
      → Agrees before (and_then (λ u. pure a) o) (some (b, w'))
  told_pure before l a b w w' none e d k told = absurd told
  told_pure before l a b w w' (some (u, (v, l'))) e d k (f, t) = (e, f ∙ d, Keeps-trans k t)

  Agrees_earlier :
      (l k : Logger) (o : Option (A × World W)) (o' : Option (A × W))
      → Keeps l k
      → Agrees k o o'
      → Agrees l o o'
  Agrees_earlier l k none none h g = tt
  Agrees_earlier l k none (some y) h g = absurd g
  Agrees_earlier l k (some x) none h g = absurd g
  Agrees_earlier l k (some (a, (w, l'))) (some (b, w')) h (e, d, g) = (e, d, Keeps-trans h g)

  -- A call behind a message agrees if it agrees behind any.
  pub told_then :
      (l : Logger) (w : W) (o : Option (Unit {0} × World W)) (m : M (World W) A)
      (o' : Option (A × W))
      → Told l w o
      → ((k : Logger) → k.heap ≡ l.heap → Agrees k (m (w, k)) o')
      → Agrees l (and_then (λ u. m) o) o'
  told_then l w none m o' told h = absurd told
  told_then l w (some (u, (v, k))) m o' (e, keeps) h =
      Agrees_earlier l k (m (v, k)) o' keeps
        (subst (λ x. Agrees k (m (x, k)) o') (sym e) (h k keeps.same_heap))

  -- A call with a message behind it agrees if the call does.
  pub then_told :
      (l : Logger) (o : Option (A × World W)) (o' : Option (A × W))
      (say : A → M (World W) (Unit {0}))
      → Agrees l o o'
      → ((a : A) (w : W) (l' : Logger) → l'.heap ≡ l.heap → Told l' w (say a (w, l')))
      → Agrees l (and_then (λ a. say a >> pure a) o) o'
  then_told l none none say h told = tt
  then_told l none (some y) say h told = absurd h
  then_told l (some x) none say h told = absurd h
  then_told l (some (a, (w, l'))) (some (b, w')) say (e, d, k) told =
      told_pure l l' a b w w' (say a (w, l')) e d k (told a w l' k.same_heap)

-- Calls in turn agree if each does.
pub and_then_Agrees :
    {W A B : Type 0} (l : Logger) (o : Option (A × World W)) (o' : Option (A × W))
    (f : A → M (World W) B) (g : A → M W B)
    → Agrees l o o'
    → ((a : A) (w : W) (k : Logger) → k.heap ≡ l.heap → Agrees k (f a (w, k)) (g a w))
    → Agrees l (and_then f o) (and_then g o')
and_then_Agrees l none none f g h next = tt
and_then_Agrees l none (some y) f g h next = absurd h
and_then_Agrees l (some x) none f g h next = absurd h
and_then_Agrees l (some (a, (w, k))) (some (b, v)) f g (e, d, keeps) next =
    Agrees_earlier l k (f a (w, k)) (g b v) keeps (
      subst (λ x. Agrees k (f a (w, k)) (g x v)) e
        (subst (λ x. Agrees k (f a (w, k)) (g a x)) d (next a w k keeps.same_heap)))

-- A call with a known outcome, and what comes behind it.
pub Agrees_then :
    {W A B : Type 0} (l : Logger) (o : Option (A × World W)) (b : A) (v : W) (f : A → M (World W) B)
    (o' : Option (B × W))
    → Agrees l o (some (b, v))
    → ((k : Logger) → k.heap ≡ l.heap → Agrees k (f b (v, k)) o')
    → Agrees l (and_then f o) o'
Agrees_then l o b v f o' h next =
    let (k, e, keeps) = Agrees_some l o b v h in
    subst (λ x. Agrees l (and_then f x) o') (sym e)
      (Agrees_earlier l k (f b (v, k)) o' keeps (next k keeps.same_heap))

pub pure_Agrees :
    {W A : Type 0} (a : A) (w : W) (k : Logger) → Agrees k (some (a, (w, k))) (some (a, w))
pure_Agrees a w k = (refl, refl, Keeps-refl k)

module _ (now : ℕ → Text × Text) where
  print_message-Keeps :
      (level : LogLevel) (text : Text) (a : Agent) (l : Logger)
      → Keeps l (print_message now level text a l)
  unfolding print_message
  print_message-Keeps level text a l = record {
    same_heap = refl;
    same_agents = refl;
    added = _;
    more = refl;
  }

  log_at-Keeps :
      (level : LogLevel) (text : Text) (a : Agent) (l : Logger) (b : Bool)
      → Keeps l (if b then print_message now level text a l else l)
  log_at-Keeps level text a l true = print_message-Keeps level text a l
  log_at-Keeps level text a l false = Keeps-refl l

module _ {W : Type 0} (now : ℕ → Text × Text) where
  pub tell-Told :
      (agent : Option ℕ) (message : Option (LogLevel × Text)) (w : W) (l : Logger)
      → Leads l.heap agent
      → Told l w (tell now agent message (w, l))
  unfolding tell log
  tell-Told agent none w l h = (refl, Keeps-refl l)
  tell-Told none (some m) w l h = absurd h
  tell-Told (some ptr) (some (level, text)) w l (a, e) =
      rw e (refl, log_at-Keeps now level text a l (leb (level_number a.level) (level_number level)))

  pub tell_port-Told :
      (agent : Option ℕ) (port : Option Text) (message : Text → LogLevel × Text) (w : W)
      (l : Logger)
      → Leads l.heap agent
      → IsThere port
      → Told l w (tell_port now agent port message (w, l))
  unfolding tell_port
  tell_port-Told agent none message w l h there = absurd there
  tell_port-Told agent (some port) message w l h there = tell-Told agent (some (message port)) w l h

  -- The same in a later state of the logger.
  pub tell_later :
      (agent : Option ℕ) (message : Option (LogLevel × Text)) (w : W) (l k : Logger)
      → Leads l.heap agent
      → k.heap ≡ l.heap
      → Told k w (tell now agent message (w, k))
  tell_later agent message w l k h e =
      tell-Told agent message w k (subst (λ x. Leads x agent) (sym e) h)

  pub tell_port_later :
      (agent : Option ℕ) (port : Option Text) (message : Text → LogLevel × Text) (w : W)
      (l k : Logger)
      → Leads l.heap agent
      → IsThere port
      → k.heap ≡ l.heap
      → Told k w (tell_port now agent port message (w, k))
  tell_port_later agent port message w l k h there e =
      tell_port-Told agent port message w k (subst (λ x. Leads x agent) (sym e) h) there
