-- ===== src/Http/Router/Tests.antt =====
-- A small table of routes, for src/http/router.cpp.
use nimlib.Prelude.{arith, ap, get_or, ℕ, ◌≡◌, refl, true, none, some, [], ◌∷◌}
use nimlib.Prelude.Text.{Text, Text-discrete, codes}
use nimlib.Prelude.Map.{find, insert}
use nimlib.Http.Router.{
  Node, nil, child, node, Router, target_segment, target_rest, segments, ends_with, but_last,
  is_parameter, parameter_name, segment_key, new_parameter, find_child, set_child, add_route,
  add_node, find_route, node_add, node_add_node, node_find, empty_router, add, mount, mount_all,
  sub_route, choose,
}
use nimlib.Http.Router.Tree.{find_route-add_shadowed, bound}
use nimlib.Http.Router.Table.{choose-add, choose-add_method}
use nimlib.Http.Router.Mounted.{choose-sub_route}

router : Unit {0}
unfolding Text-discrete find insert target_segment target_rest segments ends_with but_last
    is_parameter parameter_name segment_key new_parameter find_child set_child add_route add_node
    find_route node_add node_add_node node_find add mount mount_all sub_route choose
router = tt

abbrev get : Text
get = codes "GET"

abbrev user_route : Text
user_route = codes "/u/<id>"

abbrev table : Router ℕ
table = (add get user_route (some 7) empty_router).0

tests :
    (choose table get (codes "/u/9") ≡ some (7, (codes "id", codes "9") ∷ []))
    × (choose table get (codes "/u") ≡ none)
    × (choose (sub_route (codes "/api") table empty_router) get (codes "/api/u/9")
        ≡ some (7, (codes "id", codes "9") ∷ []))
unfolding router
tests = (refl, refl, refl)

choose-add_example :
    ((add get user_route (some 7) (empty_router {H = ℕ})).1 ≡ true)
    × (choose {H = ℕ} (add get user_route (some 7) empty_router).0 get (codes "/u/9")
        ≡ some (7, bound (segments user_route) (segments (codes "/u/9")) []))
unfolding router
choose-add_example =
    choose-add get user_route (codes "/u/9") 7 empty_router (λ e. cc)
      ((λ e. cc), (λ _. refl), ((λ e. cc), (λ _. refl), ((λ e q. cc), (λ e. cc), tt)))
      ((λ _. refl), ((λ _. refl), ((λ e. cc), tt)))

choose-add_method_example :
    choose (add get user_route (some 7) table).0 (codes "POST") (codes "/u/9")
    ≡ choose table (codes "POST") (codes "/u/9")
choose-add_method_example =
    choose-add_method get user_route (codes "POST") (codes "/u/9") (some 7) table (λ e. cc)

abbrev literal : Router ℕ
literal = (add get (codes "/a") (some 1) empty_router).0

abbrev under_root : Node ℕ
under_root = node (child (codes "a") (node nil (some (some 1)) []) nil) none []

choose-sub_route_example :
    choose (sub_route (codes "/api") literal empty_router) get (codes "/api/a") ≡ some (1, [])
unfolding router
choose-sub_route_example =
    choose-sub_route (codes "/api") (codes "/api/a") get ([] ∷ (codes "api" ∷ [])) (codes "a" ∷ [])
      literal empty_router (node (child [] under_root nil) none []) under_root (λ e. cc) (tt, tt)
      refl refl ((λ e. cc), (λ _. refl), ((λ e. cc), (λ _. refl), tt))
      ((λ _. refl), ((λ _. refl), tt)) refl

find_route-add_shadowed_example :
    find_route {H = ℕ}
      (codes "me" ∷ [])
      (add_route (codes "me" ∷ []) (some 2) (node nil none (codes "id")))
      []
    ≡ find_route (codes "me" ∷ []) (node nil none (codes "id")) []
unfolding router
find_route-add_shadowed_example =
    find_route-add_shadowed (codes "me") [] (codes "me" ∷ []) (some 2) (node nil none (codes "id"))
      [] refl (λ e. cc) (λ e. absurd (omega (arith, ap (λ t. get_or t 0 0) e)))
