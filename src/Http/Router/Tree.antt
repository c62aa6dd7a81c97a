-- ===== src/Http/Router/Tree.antt =====
-- Adding to a tree of routes, and finding in it (`Router::Node` of src/http/router.cpp).
use nimlib.Prelude.{
  ◌≡◌, refl, sym, ◌≢◌, inl, inr, true, false, Option, some, List, [], ◌∷◌, ◌++◌, arith, Bool-cases,
  if◌then◌else◌,
}
use nimlib.Prelude.Text.{Text}
use nimlib.Http.Router.{
  Node, Children, nil, child, node, next, parameter, Params, is_parameter, parameter_name,
  segment_key, new_parameter, find_child, set_child, or_empty, add_route, add_node, lookup_key,
  bind, find_route,
}

module _ {H : Type 0} where
  pub find_child-set_self :
      (k : Text) (n : Node H) (cs : Children H) → find_child k (set_child k n cs) ≡ some n
  unfolding find_child set_child
  find_child-set_self k n nil = ground arith
  find_child-set_self k n (child j m cs) = ground (arith, find_child-set_self k n cs)

  pub find_child-set_ne :
      (k j : Text) (n : Node H) (cs : Children H)
      → k ≢ j
      → find_child j (set_child k n cs) ≡ find_child j cs
  unfolding find_child set_child
  find_child-set_ne k j n nil h = ground arith
  find_child-set_ne k j n (child i m cs) h = ground (arith, find_child-set_ne k j n cs h)

-- A route against the segments of a request's target: a parameter takes any segment, any other
-- segment only itself.
abbrev pub Fits : List Text → List Text → Type 0
Fits [] [] = Unit
Fits (s ∷ ss) (t ∷ ts) = (is_parameter s ≡ false → s ≡ t) × Fits ss ts
Fits _ _ = ⊥

-- What a route binds to the segments that it fits, after `params`.
abbrev pub bound : List Text → List Text → Params → Params
bound (s ∷ ss) (t ∷ ts) params =
    bound ss ts (if is_parameter s then bind (parameter_name s) t params else params)
bound _ _ params = params

lookup_key_ne : (p t : Text) → p ≢ [] → lookup_key p t ≡ p
lookup_key_ne [] t h = absurd (h refl)
lookup_key_ne (c ∷ p) t h = refl

-- The key that `find` looks up at a segment is the one under which `add` has filed it.
key_lem :
    (s t p : Text)
    → (is_parameter s ≡ true → parameter_name s ≢ [])
    → (is_parameter s ≡ false → p ≡ [])
    → (is_parameter s ≡ false → s ≡ t)
    → lookup_key (new_parameter s p) t ≡ segment_key s
unfolding new_parameter segment_key
key_lem s t p named clear fit = elim (Bool-cases (is_parameter s)) [
  | inl y ↦ rw y (lookup_key_ne (parameter_name s) t (named y))
  | inr n ↦ rw (n, clear n) (sym (fit n))
]

bind_lem :
    (s t p : Text) (params : Params)
    → (is_parameter s ≡ false → p ≡ [])
    → bind (new_parameter s p) t params
      ≡ (if is_parameter s then bind (parameter_name s) t params else params)
unfolding new_parameter
bind_lem s t p params clear = elim (Bool-cases (is_parameter s)) [
  | inl y ↦ rw y
  | inr n ↦ rw (n, clear n)
]

module _ {H : Type 0} where
  -- Along the route, no node has a parameter where the route has another kind of segment, and the
  -- route's parameters have names.
  abbrev pub IsClear : List Text → Node H → Type 0
  IsClear [] n = Unit
  IsClear (s ∷ ss) n =
      (is_parameter s ≡ true → parameter_name s ≢ [])
      × (is_parameter s ≡ false → parameter n ≡ [])
      × IsClear ss (or_empty (find_child (segment_key s) (next n)))

  -- A route that was added last is found by every target that it fits, with its parameters bound,
  -- whatever else the tree holds, as long as no parameter stands in its way.
  pub find_route-add_route :
      (ss ts : List Text) (h : Option H) (n : Node H) (params : Params)
      → IsClear ss n
      → Fits ss ts
      → find_route ts (add_route ss h n) params ≡ (some h, bound ss ts params)
  unfolding find_route add_route
  find_route-add_route [] [] h (node cs old p) params c f = refl
  find_route-add_route (s ∷ ss) (t ∷ ts) h (node cs old p) params (named, clear, c) (fit, f) =
      rw
        (
          key_lem s t p named clear fit,
          find_child-set_self (segment_key s)
              (add_route ss h (or_empty (find_child (segment_key s) cs))) cs,
          bind_lem s t p params clear,
        )
        (find_route-add_route ss ts h (or_empty (find_child (segment_key s) cs))
          (if is_parameter s then bind (parameter_name s) t params else params) c f)
  find_route-add_route [] (t ∷ ts) h n params c f = absurd f
  find_route-add_route (s ∷ ss) [] h n params c f = absurd f

  -- A tree mounted under a route is searched with the segments behind those that the route fits,
  -- and with the route's parameters bound.
  pub find_route-add_node :
      (s : Text) (ss ts us : List Text) (sub n : Node H) (params : Params)
      → IsClear (s ∷ ss) n
      → Fits (s ∷ ss) ts
      → find_route (ts ++ us) (add_node s ss sub n) params
        ≡ find_route us sub (bound (s ∷ ss) ts params)
  unfolding find_route add_node
  find_route-add_node s [] (t ∷ []) us sub (node cs old p) params (named, clear, c) (fit, f) = rw (
    key_lem s t p named clear fit,
    find_child-set_self (segment_key s) sub cs,
    bind_lem s t p params clear,
  )
  find_route-add_node s (s' ∷ ss) (t ∷ ts) us sub (node cs old p) params (named, clear, c)
        (fit, f) =
      rw
        (
          key_lem s t p named clear fit,
          find_child-set_self (segment_key s)
              (add_node s' ss sub (or_empty (find_child (segment_key s) cs))) cs,
          bind_lem s t p params clear,
        )
        (find_route-add_node s' ss ts us sub (or_empty (find_child (segment_key s) cs))
          (if is_parameter s then bind (parameter_name s) t params else params) c f)
  find_route-add_node s [] (t ∷ (t' ∷ ts)) us sub n params c (fit, f) = absurd f
  find_route-add_node s ss [] us sub n params c f = absurd f

  -- Below a node with a parameter, a route that begins with any other segment is filed where no
  -- request's target is looked up: what is found stays the same.
  pub find_route-add_shadowed :
      (s : Text) (ss ts : List Text) (h : Option H) (n : Node H) (params : Params)
      → is_parameter s ≡ false
      → parameter n ≢ []
      → parameter n ≢ s
      → find_route ts (add_route (s ∷ ss) h n) params ≡ find_route ts n params
  unfolding find_route add_route new_parameter segment_key
  find_route-add_shadowed s ss [] h (node cs old p) params literal q ne = refl
  find_route-add_shadowed s ss (t ∷ ts) h (node cs old p) params literal q ne = rw (
    literal,
    lookup_key_ne p t q,
    find_child-set_ne s p (add_route ss h (or_empty (find_child s cs))) cs (λ e. ne (sym e)),
  )
