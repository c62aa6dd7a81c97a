-- ===== src/Http/Router/Table.antt =====
-- The router's table of methods, of src/http/router.cpp: registering routes and choosing a handler.
use nimlib.Prelude.{◌≡◌, refl, ap, ◌∙◌, ◌≢◌, true, Option, some, [], ◌∷◌}
use nimlib.Prelude.Text.{Text, Text-discrete}
use nimlib.Prelude.Map.{find, insert, find-insert_self, find-insert_ne}
use nimlib.Http.Router.{
  Node, Router, or_empty, node_add, node_find, segments, add, choose_in, choose,
}
use nimlib.Http.Router.Tree.{Fits, bound, IsClear, find_route-add_route}
use nimlib.Http.Router.Literal.{IsLiteral, IsLiteralRoute, find_route-add_other}

module _ {H : Type 0} where
  -- The tree of a method, which is empty where the table has none.
  abbrev pub tree : Router H → Text → Node H
  tree r method = or_empty (find Text-discrete method r.handlers)

  add_accepts :
      (method target : Text) (h : Option H) (r : Router H)
      → target ≢ []
      → add method target h r ≡ (
        record r {
          handlers = insert Text-discrete method (node_add target h (tree r method)) r.handlers;
        },
        true,
      )
  unfolding add
  add_accepts method [] h r ne = absurd (ne refl)
  add_accepts method (c ∷ s) h r ne = refl

  choose-add_self :
      (method target t : Text) (h : Option H) (r : Router H)
      → target ≢ []
      → choose (add method target h r).0 method t
        ≡ choose_in (some (node_add target h (tree r method))) t r.fallback_handler
  unfolding choose
  choose-add_self method target t h r ne = rw (
    add_accepts method target h r ne,
    find-insert_self Text-discrete method (node_add target h (tree r method)) r.handlers,
  )

  -- A route with a target that is not empty is accepted. If its own parameters have names, and no
  -- parameter of an earlier route of the method stands in the way along it, a request that it fits is
  -- then served by its handler with the parameters bound.
  pub choose-add :
      (method target t : Text) (h : H) (r : Router H)
      → target ≢ []
      → IsClear (segments target) (tree r method)
      → Fits (segments target) (segments t)
      → let (r', accepted) = add method target (some h) r in
        (accepted ≡ true) × (choose r' method t ≡ some (h, bound (segments target) (segments t) []))
  unfolding node_add node_find
  choose-add method target t h r ne clear fits = (
    ap (λ p. p.1) (add_accepts method target (some h) r ne),
    choose-add_self method target t (some h) r ne
        ∙ rw (
            find_route-add_route (segments target) (segments t) (some h) (tree r method) [] clear
              fits),
  )

  -- A route leaves the requests with another method as they were.
  pub choose-add_method :
      (method target other t : Text) (h : Option H) (r : Router H)
      → method ≢ other
      → choose (add method target h r).0 other t ≡ choose r other t
  unfolding choose add
  choose-add_method method [] other t h r ne = refl
  choose-add_method method (c ∷ s) other t h r ne =
      rw (
        find-insert_ne Text-discrete method other (node_add (c ∷ s) h (tree r method)) r.handlers
          ne)

  -- In a table whose tree for the method has no parameters, a route without parameters leaves the
  -- targets with other segments what they got before.
  pub choose-add_literal :
      (method target t : Text) (h : Option H) (r : Router H) (n : Node H)
      → target ≢ []
      → find Text-discrete method r.handlers ≡ some n
      → IsLiteral n
      → IsLiteralRoute (segments target)
      → segments target ≢ segments t
      → choose (add method target h r).0 method t ≡ choose r method t
  unfolding node_add node_find choose
  choose-add_literal method target t h r n ne has l lr d =
      choose-add_self method target t h r ne
      ∙ rw (has, find_route-add_other (segments target) (segments t) h n [] lr l d)
