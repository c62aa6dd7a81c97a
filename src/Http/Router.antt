-- ===== src/Http/Router.antt =====
-- src/http/router.h and router.cpp: the tree of routes (`Router::Node`) and the router's table.
--
-- `H` is the type of the functions that a `route_handler` holds; a `std::function` may hold none.
-- Maps are association lists; the map from a segment to a node is a list of its own, `Children`,
-- since a node holds it.
pub mod Targets
pub mod Tree
pub mod Literal
pub mod Table
pub mod Mounted
pub mod Static
mod Tests
use nimlib.Prelude.{
  ℕ, ◌≡◌, Bool, true, false, ◌&&◌, Option, none, some, List, [], ◌∷◌, ◌++◌, ite, ◌==◌,
  if◌then◌else◌,
}
use nimlib.Prelude.Text.{Text, Text-discrete, codes}
use nimlib.Prelude.Map.{find, insert}
use nimlib.Utils.StateManager.{is_empty}

abbrev pub slash : ℕ
slash = b'/'

-- `target.substr(0, target.find('/'))`: the target up to the first slash.
unfoldable pub target_segment : Text → Text
target_segment [] = []
target_segment (c ∷ s) = if c == slash then [] else c ∷ target_segment s

-- `(pos == npos) ? "" : target.substr(pos + 1)`: the target behind the first slash.
unfoldable pub target_rest : Text → Text
target_rest [] = []
target_rest (c ∷ s) = if c == slash then s else target_rest s

-- The segments at which the recursive members of `Node` look in turn: each takes the first segment
-- of its target, and passes the rest on until this is empty (`Targets.segments_lem`).
abbrev pub prepend : ℕ → List Text → List Text
prepend c [] = (c ∷ []) ∷ []
prepend c (s ∷ ss) = (c ∷ s) ∷ ss

unfoldable pub segments : Text → List Text
segments [] = []
segments (c ∷ s) = if c == slash then [] ∷ segments s else prepend c (segments s)

-- `s.starts_with('<')` and `s.ends_with('>')`, and `s.substr(1, s.size() - 2)` of such an `s`.
abbrev pub starts_with : ℕ → Text → Bool
starts_with c [] = false
starts_with c (d ∷ s) = d == c

unfoldable pub ends_with : ℕ → Text → Bool
ends_with c [] = false
ends_with c (d ∷ []) = d == c
ends_with c (d ∷ (e ∷ s)) = ends_with c (e ∷ s)

unfoldable pub but_last : Text → Text
but_last [] = []
but_last (c ∷ []) = []
but_last (c ∷ (d ∷ s)) = c ∷ but_last (d ∷ s)

abbrev pub but_first : Text → Text
but_first [] = []
but_first (c ∷ s) = s

unfoldable pub is_parameter : Text → Bool
is_parameter s = starts_with b'<' s && ends_with b'>' s

unfoldable pub parameter_name : Text → Text
parameter_name s = but_last (but_first s)

-- The key under which a segment of a route is filed, and the node's `parameter` behind that.
unfoldable pub segment_key : Text → Text
segment_key s = if is_parameter s then parameter_name s else s

unfoldable pub new_parameter : Text → Text → Text
new_parameter s old = if is_parameter s then parameter_name s else old

mutual
  -- `next`, `handler` and `parameter`. The handler is unset, or a function object, which may be
  -- empty.
  pub data Node (H : Type 0) : Type 0 where
    node : Children H → Option (Option H) → Text → Node H

  pub data Children (H : Type 0) : Type 0 where
    nil : Children H
    child : Text → Node H → Children H → Children H

abbrev pub Params : Type 0
Params = List (Text × Text)

-- The key at which `Node::find` looks a segment up, and what it binds before that:
-- `params[parameter] = segment` replaces an earlier binding.
abbrev pub lookup_key : Text → Text → Text
lookup_key [] s = s
lookup_key (c ∷ p) s = c ∷ p

abbrev pub bind : Text → Text → Params → Params
bind [] s params = params
bind (c ∷ p) s params = insert Text-discrete (c ∷ p) s params

abbrev pub first_segment : List Text → Text
first_segment [] = []
first_segment (s ∷ ss) = s

abbrev pub later_segments : List Text → List Text
later_segments [] = []
later_segments (s ∷ ss) = ss

module _ {H : Type 0} where
  abbrev pub next : Node H → Children H
  next (node cs h p) = cs

  abbrev pub handler : Node H → Option (Option H)
  handler (node cs h p) = h

  abbrev pub parameter : Node H → Text
  parameter (node cs h p) = p

  -- The default constructor.
  abbrev pub empty_node : Node H
  empty_node = node nil none []

  unfoldable pub find_child : Text → Children H → Option (Node H)
  find_child k nil = none
  find_child k (child j n cs) = ite (Text-discrete j k) (some n) (find_child k cs)

  -- `next[k] = n`.
  unfoldable pub set_child : Text → Node H → Children H → Children H
  set_child k n nil = child k n nil
  set_child k n (child j m cs) =
      ite (Text-discrete j k) (child j n cs) (child j m (set_child k n cs))

  abbrev pub or_empty : Option (Node H) → Node H
  or_empty none = empty_node
  or_empty (some n) = n

  -- `Node::add(target, h)` over the segments of the target. A segment that is not filed yet gets
  -- the node that the constructor makes from the rest of the target, which is an empty node with
  -- the rest added.
  unfoldable pub add_route : List Text → Option H → Node H → Node H
  add_route [] h (node cs old p) = node cs (some h) p
  add_route (s ∷ ss) h (node cs old p) =
      node
        (set_child (segment_key s) (add_route ss h (or_empty (find_child (segment_key s) cs))) cs)
        old (new_parameter s p)

  -- `Node::add(target, node)` over the first segment of the target and the others.
  unfoldable pub add_node : Text → List Text → Node H → Node H → Node H
  add_node s [] sub (node cs old p) =
      node (set_child (segment_key s) sub cs) old (new_parameter s p)
  add_node s (s' ∷ ss) sub (node cs old p) =
      node
        (set_child (segment_key s) (add_node s' ss sub (or_empty (find_child (segment_key s) cs)))
          cs)
        old (new_parameter s p)

  abbrev pub descend :
      (Node H → Option (Option H) × Params) → Option (Node H) → Params → Option (Option H) × Params
  descend rest none params = (none, params)
  descend rest (some n) params = rest n

  -- `Node::find(target, params)` over the segments of the target: the handler of the node that is
  -- reached, and the parameters bound on the way.
  unfoldable pub find_route : List Text → Node H → Params → Option (Option H) × Params
  find_route [] (node cs h p) params = (h, params)
  find_route (s ∷ ss) (node cs h p) params =
      descend (λ n. find_route ss n (bind p s params)) (find_child (lookup_key p s) cs)
        (bind p s params)

  -- The members of `Node`, on targets. With an empty target `add(target, node)` files the node
  -- under the empty segment.
  unfoldable pub node_add : Text → Option H → Node H → Node H
  node_add target h n = add_route (segments target) h n

  unfoldable pub node_add_node : Text → Node H → Node H → Node H
  node_add_node target sub n =
      add_node (first_segment (segments target)) (later_segments (segments target)) sub n

  unfoldable pub node_find : Text → Node H → Params → Option (Option H) × Params
  node_find target n params = find_route (segments target) n params

-- The members of `Router`; `target_to_mime_type` and the rest serve the static files.
pub record Router (H : Type 0) : Type 0 where
  pub fallback_handler : Option H
  pub handlers : List (Text × Node H)
  pub target_to_file : List (Text × Text)
  pub target_to_mime_type : List (Text × Text)
  pub last_served_chunk : List (Text × ℕ)

module _ {H : Type 0} where
  -- The default constructor.
  abbrev pub empty_router : Router H
  empty_router = record {
    fallback_handler = none;
    handlers = [];
    target_to_file = [];
    target_to_mime_type = [];
    last_served_chunk = [];
  }

  -- `Router::add`: the router, and whether the target was accepted. `handlers[method]` is an empty
  -- node where the method is new.
  unfoldable pub add : Text → Text → Option H → Router H → Router H × Bool
  add method target h r = if is_empty target then (r, false) else (
    record r {
      handlers =
          insert Text-discrete method
            (node_add target h (or_empty (find Text-discrete method r.handlers))) r.handlers;
    },
    true,
  )

  unfoldable pub get : Text → Option H → Router H → Router H × Bool
  get target h r = add (codes "GET") target h r

  unfoldable pub post : Text → Option H → Router H → Router H × Bool
  post target h r = add (codes "POST") target h r

  unfoldable pub fallback : Option H → Router H → Router H
  fallback h r = record r { fallback_handler = h }

  -- The body of the loop of `sub_route`.
  unfoldable pub mount : Text → Text → Option (Node H) → Router H → Router H
  mount prefix method none r = r
  mount prefix method (some root) r = record r {
    handlers =
        insert Text-discrete method
          (node_add_node prefix root (or_empty (find Text-discrete method r.handlers))) r.handlers;
  }

  unfoldable pub mount_all : Text → List (Text × Node H) → Router H → Router H
  mount_all prefix [] r = r
  mount_all prefix ((method, n) ∷ ms) r =
      mount_all prefix ms (mount prefix method (find_child [] (next n)) r)

  unfoldable pub sub_route : Text → Router H → Router H → Router H
  sub_route prefix sub r = mount_all prefix sub.handlers r

  -- What `route` does with the result of `Node::find`: the function that it calls, and the
  -- parameters that it passes; `none` where it returns no state.
  abbrev pub chosen : Option (Option H) → Option H → Option H
  chosen (some (some h)) fallback = some h
  chosen (some none) fallback = fallback
  chosen none fallback = fallback

  abbrev pub with_params : Option H → Params → Option (H × Params)
  with_params none params = none
  with_params (some h) params = some (h, params)

  abbrev pub choose_in : Option (Node H) → Text → Option H → Option (H × Params)
  choose_in none target fallback = none
  choose_in (some n) target fallback =
      let (found, params) = node_find target n [] in with_params (chosen found fallback) params

  unfoldable pub choose : Router H → Text → Text → Option (H × Params)
  choose r method target =
      choose_in (find Text-discrete method r.handlers) target r.fallback_handler
