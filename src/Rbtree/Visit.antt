-- ===== src/Rbtree/Visit.antt =====
-- The loop from `_std_rbtree_getfirst` by `_std_rbtree_getnext` of src/std_rbtree.c.
use mathlib.Core.Option
use mathlib.Core.List.{map-append}
use sonic_common_utils.Base.{
  ℕ, zero, suc, ◌<◌, ◌≤◌, ◌≡◌, ◌≢◌, refl, sym, ap, ◌∙◌, true, false, Option, none, some, List, [],
  ◌∷◌, All, length, ◌++◌, map, arith, ◌==◌, ==_refl, ne→==, if◌then◌else◌,
}
use sonic_common_utils.Rbtree.{
  Table, null_if_nil, leftmost, successor, node_getfirst, node_getnext, climb, rwalk,
  std_rbtree_rwalk,
}
use sonic_common_utils.Rbtree.Shape.{
  Tree, leaf, branch, inorder, count, Rep, IsTree, inorder_ne_nil, Rep-branch_ne_nil,
}
use sonic_common_utils.Rbtree.Order.{head_or, Follow, subtree-Follow, leftmost-inorder, climb_stop}

-- What the loop visits, for as many rounds; a round starts with what a call returned.
unfoldable pub visit : (rounds fuel : ℕ) → Table → Option ℕ → List ℕ
visit zero fuel s r = []
visit (suc n) fuel s none = []
visit (suc n) fuel s (some x) = elim (x == 0) [
  | true ↦ []
  | false ↦ x ∷ visit n fuel s (node_getnext fuel s x)
]

module _ (s : Table) where
  null_if_nil_other : (x : ℕ) → x ≢ s.nil → null_if_nil s x ≡ x
  unfolding null_if_nil
  null_if_nil_other x ne = rw (ne→== x s.nil ne)

  null_if_nil_self : null_if_nil s s.nil ≡ 0
  unfolding null_if_nil
  null_if_nil_self = rw (==_refl s.nil)

  visit_end : (n fuel : ℕ) → visit (suc n) fuel s (some 0) ≡ []
  unfolding visit
  visit_end n fuel = refl

  visit_on :
      (n fuel x : ℕ)
      → x ≢ 0
      → visit (suc n) fuel s (some x) ≡ x ∷ visit n fuel s (node_getnext fuel s x)
  unfolding visit
  visit_on n fuel x ne = rw (ne→== x 0 ne, visit)

  getnext-successor :
      (fuel x z : ℕ)
      → x ≢ 0
      → successor fuel s x ≡ some z
      → node_getnext fuel s x ≡ some (null_if_nil s z)
  unfolding node_getnext
  getnext-successor fuel x z ne e = rw (ne→== x 0 ne, e)

  visit-Follow :
      (n fuel : ℕ) (xs : List ℕ)
      → length xs < n
      → Follow s fuel xs s.nil
      → All (λ x. x ≢ s.nil) xs
      → All (λ x. x ≢ 0) xs
      → visit n fuel s (some (null_if_nil s (head_or xs s.nil))) ≡ xs
  visit-Follow zero fuel xs h f p q = absurd (omega arith)
  visit-Follow (suc n) fuel [] h f p q = rw null_if_nil_self (visit_end n fuel)
  visit-Follow (suc n) fuel (x ∷ xs) h f p q = rw (null_if_nil_other x p.0) (
      visit_on n fuel x q.0
      ∙ ap (λ r. x ∷ visit n fuel s r) (getnext-successor fuel x (head_or xs s.nil) q.0 f.0)
      ∙ ap (λ ys. x ∷ ys) (visit-Follow n fuel xs (omega arith) f.1 p.1 q.1))

  getfirst_empty : (fuel : ℕ) → s.root ≡ s.nil → node_getfirst fuel s ≡ some (null_if_nil s s.root)
  unfolding node_getfirst
  getfirst_empty fuel e =
      let same : (s.root == s.nil) ≡ true = rw e (==_refl s.nil) in
      ap (λ b. Option.map (null_if_nil s) (if b then some s.root else leftmost fuel s s.root)) same

  getfirst_some :
      (fuel z : ℕ)
      → s.root ≢ s.nil
      → leftmost fuel s s.root ≡ some z
      → node_getfirst fuel s ≡ some (null_if_nil s z)
  unfolding node_getfirst
  getfirst_some fuel z ne e = rw (ne→== s.root s.nil ne, e)

  getfirst-inorder :
      (fuel : ℕ) (t : Tree)
      → count t ≤ fuel
      → Rep s s.nil s.root t
      → node_getfirst fuel s ≡ some (null_if_nil s (head_or (inorder t) s.nil))
  unfolding inorder
  getfirst-inorder fuel leaf h t = getfirst_empty fuel t ∙ ap (λ x. some (null_if_nil s x)) t
  getfirst-inorder fuel (branch l a r) h t =
      getfirst_some fuel (head_or (inorder (branch l a r)) s.nil)
        (Rep-branch_ne_nil s s.nil s.root a l r t)
        (leftmost-inorder s fuel s.nil s.root a s.nil l r h t)

  -- On a tree of distinct nodes, none of them null, the loop from `_std_rbtree_getfirst` by
  -- `_std_rbtree_getnext` visits every node once, in order, and ends; each call ends with more fuel
  -- than nodes.
  pub visit_tree_all :
      (rounds fuel : ℕ) (t : Tree)
      → IsTree s t
      → count t < fuel
      → length (inorder t) < rounds
      → visit rounds fuel s (node_getfirst fuel s) ≡ inorder t
  visit_tree_all rounds fuel t i h k =
      let top : climb 1 s s.root s.nil ≡ some s.nil =
        climb_stop s 0 s.root s.nil (rw (==_refl s.nil)) in
      ap (visit rounds fuel s) (getfirst-inorder fuel t (omega arith) i.rep)
      ∙ visit-Follow rounds fuel (inorder t) k
          (subtree-Follow s fuel 1 s.nil s.root s.nil t (omega arith) i.rep i.distinct top)
          (inorder_ne_nil s s.nil s.root t i.rep) i.not_null

  rwalk_nil : (fuel x : ℕ) → x ≡ s.nil → rwalk (suc fuel) s x ≡ some []
  unfolding rwalk
  rwalk_nil fuel x e = let same : (x == s.nil) ≡ true = rw e (==_refl s.nil) in rw (same, rwalk)

  rwalk_node :
      (fuel x : ℕ) (before after : List ℕ)
      → x ≢ s.nil
      → rwalk fuel s (s.left x) ≡ some before
      → rwalk fuel s (s.right x) ≡ some after
      → rwalk (suc fuel) s x ≡ some (before ++ (s.item x ∷ after))
  unfolding rwalk Option.bind
  rwalk_node fuel x before after ne e f = rw (ne→== x s.nil ne, e, f, rwalk)

  rwalk-inorder :
      (fuel par p : ℕ) (t : Tree)
      → count t < fuel
      → Rep s par p t
      → rwalk fuel s p ≡ some (map s.item (inorder t))
  unfolding inorder count
  rwalk-inorder zero par p t h rep = absurd (omega arith)
  rwalk-inorder (suc fuel) par p leaf h rep = rwalk_nil fuel p rep
  rwalk-inorder (suc fuel) par p (branch l a r) h rep =
      rw (rep.0, map-append s.item (inorder l) (a ∷ inorder r))
        (rwalk_node fuel a (map s.item (inorder l)) (map s.item (inorder r)) rep.1
          (rwalk-inorder fuel a (s.left a) l (omega arith) rep.3)
          (rwalk-inorder fuel a (s.right a) r (omega arith) rep.4))

  -- The recursive `std_rbtree_rwalk` ends, and calls back with the data of the nodes that the loop by
  -- `_std_rbtree_getnext` visits, in the same order.
  pub std_rbtree_rwalk-visit :
      (rounds fuel : ℕ) (t : Tree)
      → IsTree s t
      → count t < fuel
      → length (inorder t) < rounds
      → std_rbtree_rwalk fuel s ≡ some (map s.item (visit rounds fuel s (node_getfirst fuel s)))
  unfolding std_rbtree_rwalk
  std_rbtree_rwalk-visit rounds fuel t i h k =
      rwalk-inorder fuel s.nil s.root t h i.rep
      ∙ ap (λ xs. some (map s.item xs)) (sym (visit_tree_all rounds fuel t i h k))
