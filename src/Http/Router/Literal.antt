-- ===== src/Http/Router/Literal.antt =====
-- Trees of routes without parameters, of src/http/router.cpp, are finite maps from the segments of
-- a target to a handler.
use nimlib.Prelude.{
  ◌≡◌, refl, sym, ap₂, ◌∙◌, ◌≢◌, if_pos, if_neg, false, Option, none, some, List, [], ◌∷◌, All,
}
use nimlib.Prelude.Text.{Text, Text-discrete}
use nimlib.Http.Router.{
  Node, Children, nil, child, node, Params, is_parameter, segment_key, new_parameter, find_child,
  set_child, or_empty, empty_node, add_route, descend, find_route,
}
use nimlib.Http.Router.Tree.{find_child-set_self, find_child-set_ne}

-- No node has a parameter.
unfoldable mutual
  pub IsLiteral : {H : Type 0} → Node H → Type 0
  IsLiteral (node cs h p) = (p ≡ []) × AllLiteral cs

  pub AllLiteral : {H : Type 0} → Children H → Type 0
  AllLiteral nil = Unit
  AllLiteral (child k n cs) = IsLiteral n × AllLiteral cs

abbrev pub IsLiteralRoute : List Text → Type 0
IsLiteralRoute ss = All (λ s. is_parameter s ≡ false) ss

pub empty-IsLiteral : (H : Type 0) → IsLiteral {H = H} empty_node
unfolding IsLiteral
empty-IsLiteral H = (refl, tt)

module _ {H : Type 0} where
  find_child-IsLiteral :
      (k : Text) (cs : Children H) → AllLiteral cs → IsLiteral (or_empty (find_child k cs))
  unfolding IsLiteral find_child
  find_child-IsLiteral k nil l = (refl, tt)
  find_child-IsLiteral k (child j n cs) (l, ls) = elim (Text-discrete j k) [
    | yes e ↦ rw (if_pos (Text-discrete j k) e) l
    | no ne ↦ rw (if_neg (Text-discrete j k) ne) (find_child-IsLiteral k cs ls)
  ]

  set_child-AllLiteral :
      (k : Text) (n : Node H) (cs : Children H)
      → IsLiteral n
      → AllLiteral cs
      → AllLiteral (set_child k n cs)
  unfolding IsLiteral set_child
  set_child-AllLiteral k n nil h l = (h, tt)
  set_child-AllLiteral k n (child j m cs) h (l, ls) = elim (Text-discrete j k) [
    | yes e ↦ rw (if_pos (Text-discrete j k) e) (h, ls)
    | no ne ↦ rw (if_neg (Text-discrete j k) ne) (l, set_child-AllLiteral k n cs h ls)
  ]

  -- Routes without parameters keep a tree without parameters.
  pub add_route-IsLiteral :
      (ss : List Text) (h : Option H) (n : Node H)
      → IsLiteralRoute ss
      → IsLiteral n
      → IsLiteral (add_route ss h n)
  unfolding IsLiteral add_route new_parameter
  add_route-IsLiteral [] h (node cs old p) r l = l
  add_route-IsLiteral (s ∷ ss) h (node cs old p) (r, rs) (l, ls) = rw r (
    l,
    set_child-AllLiteral (segment_key s) (add_route ss h (or_empty (find_child (segment_key s) cs)))
        cs
        (add_route-IsLiteral ss h (or_empty (find_child (segment_key s) cs)) rs
          (find_child-IsLiteral (segment_key s) cs ls))
        ls,
  )

  find_route-empty :
      (ts : List Text) (params : Params) → find_route {H = H} ts empty_node params ≡ (none, params)
  unfolding find_route find_child
  find_route-empty [] params = refl
  find_route-empty (t ∷ ts) params = refl

  -- Behind a segment the search goes on in the child, or in an empty node where there is none.
  descend-or_empty :
      (ts : List Text) (o : Option (Node H)) (params : Params)
      → descend (λ n. find_route ts n params) o params ≡ find_route ts (or_empty o) params
  descend-or_empty ts none params = sym (find_route-empty ts params)
  descend-or_empty ts (some n) params = refl

  -- In a tree without parameters the route just added is found by exactly its own segments.
  pub find_route-add_self :
      (ss : List Text) (h : Option H) (n : Node H) (params : Params)
      → IsLiteralRoute ss
      → IsLiteral n
      → find_route ss (add_route ss h n) params ≡ (some h, params)
  unfolding IsLiteral find_route add_route new_parameter segment_key
  find_route-add_self [] h (node cs old p) params r l = refl
  find_route-add_self (s ∷ ss) h (node cs old p) params (r, rs) (l, ls) =
      rw (r, l, find_child-set_self s (add_route ss h (or_empty (find_child s cs))) cs)
        (find_route-add_self ss h (or_empty (find_child s cs)) params rs
          (find_child-IsLiteral s cs ls))

  -- All other targets find what they found before.
  pub find_route-add_other :
      (ss ts : List Text) (h : Option H) (n : Node H) (params : Params)
      → IsLiteralRoute ss
      → IsLiteral n
      → ss ≢ ts
      → find_route ts (add_route ss h n) params ≡ find_route ts n params
  unfolding IsLiteral find_route add_route new_parameter segment_key
  find_route-add_other [] [] h n params r l ne = absurd (ne refl)
  find_route-add_other [] (t ∷ ts) h (node cs old p) params r l ne = refl
  find_route-add_other (s ∷ ss) [] h (node cs old p) params r l ne = refl
  find_route-add_other (s ∷ ss) (t ∷ ts) h (node cs old p) params (r, rs) (l, ls) ne =
      elim (Text-discrete s t) [
        | yes e ↦
            rw (r, l, e, find_child-set_self t (add_route ss h (or_empty (find_child t cs))) cs)
              (find_route-add_other ss ts h (or_empty (find_child t cs)) params rs
                  (find_child-IsLiteral t cs ls) (λ q. ne (ap₂ ◌∷◌ e q))
                ∙ sym (descend-or_empty ts (find_child t cs) params))
        | no k ↦ rw (r, l, find_child-set_ne s t (add_route ss h (or_empty (find_child s cs))) cs k)
      ]
