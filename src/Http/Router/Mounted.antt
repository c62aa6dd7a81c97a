-- ===== src/Http/Router/Mounted.antt =====
-- `Router::sub_route` of src/http/router.cpp: the routes of one router under a prefix of another.
use nimlib.Prelude.{
  ◌≡◌, refl, ap, subst, ◌∙◌, ◌≢◌, Option, none, some, List, [], ◌∷◌, ◌++◌, arith, All,
}
use nimlib.Prelude.Text.{Text, Text-discrete}
use nimlib.Prelude.Map.{find, find-insert_self, find-insert_ne}
use nimlib.Http.Router.{
  Node, Router, next, find_child, or_empty, node_add_node, node_find, find_route, segments, mount,
  mount_all, sub_route, chosen, with_params, choose, target_segment, target_rest,
}
use nimlib.Http.Router.Tree.{Fits, bound, IsClear, find_route-add_node}
use nimlib.Http.Router.Table.{tree}
use nimlib.Http.Router.Targets.{segments_lem}

module _ {H : Type 0} where
  -- A method stands once in the table, as the keys of a map do.
  abbrev pub IsMap : List (Text × Node H) → Type 0
  IsMap [] = Unit
  IsMap ((m, n) ∷ ms) = All (λ e. e.0 ≢ m) ms × IsMap ms

  fallback-mount :
      (prefix method : Text) (o : Option (Node H)) (r : Router H)
      → (mount prefix method o r).fallback_handler ≡ r.fallback_handler
  unfolding mount
  fallback-mount prefix method none r = refl
  fallback-mount prefix method (some root) r = refl

  mount_other :
      (prefix method other : Text) (o : Option (Node H)) (r : Router H)
      → method ≢ other
      → find Text-discrete other (mount prefix method o r).handlers
        ≡ find Text-discrete other r.handlers
  unfolding mount
  mount_other prefix method other none r ne = refl
  mount_other prefix method other (some root) r ne =
      find-insert_ne Text-discrete method other (node_add_node prefix root (tree r method))
        r.handlers ne

  mount_self :
      (prefix method : Text) (root : Node H) (r : Router H)
      → find Text-discrete method (mount prefix method (some root) r).handlers
        ≡ some (node_add_node prefix root (tree r method))
  unfolding mount
  mount_self prefix method root r =
      find-insert_self Text-discrete method (node_add_node prefix root (tree r method)) r.handlers

  mount_all_other :
      (prefix other : Text) (ms : List (Text × Node H)) (r : Router H)
      → All (λ e. e.0 ≢ other) ms
      → (find Text-discrete other (mount_all prefix ms r).handlers
          ≡ find Text-discrete other r.handlers)
        × ((mount_all prefix ms r).fallback_handler ≡ r.fallback_handler)
  unfolding mount_all
  mount_all_other prefix other [] r d = (refl, refl)
  mount_all_other prefix other ((m, n) ∷ ms) r (d, ds) =
      let o : Option (Node H) = find_child [] (next n) in
      let ih = mount_all_other prefix other ms (mount prefix m o r) ds in
      (ih.0 ∙ mount_other prefix m other o r d, ih.1 ∙ fallback-mount prefix m o r)

  -- The tree of a method of the sub-router is mounted into the tree that the method had.
  mount_all_self :
      (prefix method : Text) (ms : List (Text × Node H)) (r : Router H) (n root : Node H)
      → IsMap ms
      → find Text-discrete method ms ≡ some n
      → find_child [] (next n) ≡ some root
      → (find Text-discrete method (mount_all prefix ms r).handlers
          ≡ some (node_add_node prefix root (tree r method)))
        × ((mount_all prefix ms r).fallback_handler ≡ r.fallback_handler)
  unfolding mount_all find
  mount_all_self prefix method [] r n root d has rooted = cc
  mount_all_self prefix method ((m, k) ∷ ms) r n root (d, ds) has rooted =
      elim (Text-discrete m method) [
        | yes e ↦
            let same : k ≡ n = ground arith in
            let later =
              mount_all_other prefix method ms (mount prefix m (find_child [] (next k)) r)
                (subst (λ x. All (λ e. e.0 ≢ x) ms) e d) in
            (
              later.0 ∙ rw (same, rooted, ← e) (mount_self prefix m root r),
              later.1 ∙ fallback-mount prefix m (find_child [] (next k)) r,
            )
        | no ne ↦
            let o : Option (Node H) = find_child [] (next k) in
            let ih =
              mount_all_self prefix method ms (mount prefix m o r) n root ds (ground arith)
                rooted in
            (
              ih.0
                  ∙ ap (λ t. some (node_add_node prefix root (or_empty t)))
                      (mount_other prefix m method o r ne),
              ih.1 ∙ fallback-mount prefix m o r,
            )
      ]

  -- Where the sub-router has routes of a method under its root, the prefix is not empty, its parameters
  -- have names, and no parameter of an earlier route of the main router stands in the way along it, a
  -- request for the prefix and more is served in the tree under that root with what is behind the
  -- prefix, and with the parameters of the prefix bound. The fallback handler is that of the main
  -- router.
  pub choose-sub_route :
      (prefix t method : Text) (ts us : List Text) (sub r : Router H) (n root : Node H)
      → prefix ≢ []
      → IsMap sub.handlers
      → find Text-discrete method sub.handlers ≡ some n
      → find_child [] (next n) ≡ some root
      → IsClear (segments prefix) (tree r method)
      → Fits (segments prefix) ts
      → segments t ≡ ts ++ us
      → let (found, params) = find_route us root (bound (segments prefix) ts []) in
        choose (sub_route prefix sub r) method t
        ≡ with_params (chosen found r.fallback_handler) params
  unfolding choose sub_route node_find node_add_node
  choose-sub_route prefix t method ts us sub r n root ne map has rooted clear fits split =
      let e = segments_lem prefix ne in
      let m = mount_all_self prefix method sub.handlers r n root map has rooted in
      let found =
        find_route-add_node (target_segment prefix) (segments (target_rest prefix)) ts us root
          (tree r method) [] (rw e at clear) (rw e at fits) in
      rw (m.0, m.1, split, e, found)
