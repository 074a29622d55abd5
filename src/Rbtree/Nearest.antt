-- ===== src/Rbtree/Nearest.antt =====
-- `_std_rbtree_getexactornext` of src/std_rbtree.c: the node at a key or the next one.
use mathlib.Core.Option
use sonic_common_utils.Base.{
  ℕ, zero, suc, ◌+◌, ◌<◌, ◌≤◌, ◌≡◌, ◌≢◌, refl, ap, ◌∙◌, subst, inl, inr, true, false, Option, some,
  [], ◌∷◌, ◌++◌, arith, ◌==◌, ==_refl, ==→eq, ne→==, if◌then◌else◌, Bool-cases,
}
use sonic_common_utils.Base.Int.{ℤ, is_neg, is_zero}
use sonic_common_utils.Base.Distinct.{Distinct, Distinct-right}
use sonic_common_utils.Rbtree.{Table, climb, search_next, null_if_nil, node_getexactornext}
use sonic_common_utils.Rbtree.Shape.{
  Tree, leaf, branch, inorder, count, Rep, IsTree, inorder_ne_nil, Distinct-left, Rep-branch_ne_nil,
}
use sonic_common_utils.Rbtree.Order.{climb_stop, climb_more, from_left, from_right}
use sonic_common_utils.Rbtree.Search.{
  IsCompare, not_zero_of_neg, Ordered, Ordered-left, Ordered-right,
}
use sonic_common_utils.Rbtree.Answers.{
  Nearest, Nearest-left, Nearest-right, Above-front, Nearest-null,
}

branch_ne_leaf : {l r : Tree} {a : ℕ} → branch l a r ≢ leaf
branch_ne_leaf e = subst IsBranch e tt
  where
    IsBranch : Tree → Type 0
    IsBranch leaf = ⊥
    IsBranch (branch l a r) = Unit

module _ (cmp : ℕ → ℕ → ℤ) (s : Table) where
  module _ (laws : IsCompare cmp) (key steps : ℕ) where
    next_equal :
        (fuel x : ℕ)
        → x ≢ s.nil
        → is_zero (cmp key (s.item x)) ≡ true
        → search_next (suc fuel) steps cmp s key x ≡ some x
    unfolding search_next
    next_equal fuel x ne e = rw (ne→== x s.nil ne, e, search_next)

    -- The search in a child, where the answer is `z` if there is none.
    child : (fuel z p : ℕ) → Option ℕ
    unfolding search_next
    child fuel z p = if p == s.nil then some z else search_next fuel steps cmp s key p

    child_nil : (fuel z p : ℕ) → p ≡ s.nil → child fuel z p ≡ some z
    unfolding child
    child_nil fuel z p e = let same : (p == s.nil) ≡ true = rw e (==_refl s.nil) in rw same

    child_node : (fuel z p : ℕ) → p ≢ s.nil → child fuel z p ≡ search_next fuel steps cmp s key p
    unfolding child
    child_node fuel z p ne = rw (ne→== p s.nil ne)

    next_left :
        (fuel x : ℕ)
        → x ≢ s.nil
        → is_neg (cmp key (s.item x)) ≡ true
        → search_next (suc fuel) steps cmp s key x ≡ child fuel x (s.left x)
    unfolding search_next child
    next_left fuel x ne e =
        let other = not_zero_of_neg (cmp key (s.item x)) e in
        elim (Bool-cases (s.left x == s.nil)) [
          | inl q ↦ rw (ne→== x s.nil ne, other, e, q, search_next)
          | inr q ↦ rw (ne→== x s.nil ne, other, e, q, search_next)
        ]

    next_right :
        (fuel x z : ℕ)
        → x ≢ s.nil
        → is_zero (cmp key (s.item x)) ≡ false
        → is_neg (cmp key (s.item x)) ≡ false
        → climb steps s x (s.parent x) ≡ some z
        → search_next (suc fuel) steps cmp s key x ≡ child fuel z (s.right x)
    unfolding search_next child
    next_right fuel x z ne e n c = elim (Bool-cases (s.right x == s.nil)) [
      | inl q ↦ rw (ne→== x s.nil ne, e, n, q, search_next) c
      | inr q ↦ rw (ne→== x s.nil ne, e, n, q, search_next)
    ]

    left_climb :
        (a : ℕ) (l r : Tree)
        → Rep s a (s.left a) l
        → Rep s a (s.right a) r
        → Distinct (inorder l ++ (a ∷ inorder r))
        → l ≢ leaf
        → climb 1 s (s.left a) a ≡ some a
    left_climb a leaf r hl hr d ne = absurd (ne refl)
    left_climb a (branch ll b lr) r hl hr d ne = from_left s a b ll lr r hl hr d

    -- The search in a subtree that the node `z` follows.
    child-Nearest :
        (fuel m par p z : ℕ) (t : Tree)
        → count t < fuel
        → m + count t ≤ steps
        → Rep s par p t
        → Distinct (inorder t)
        → Ordered cmp s (inorder t)
        → (t ≢ leaf → climb m s p par ≡ some z)
        → (x : ℕ) × (child fuel z p ≡ some x) × Nearest cmp s z key (inorder t) x
    unfolding inorder count
    child-Nearest zero m par p z t h k rep d o e = absurd (omega arith)
    child-Nearest (suc fuel) m par p z leaf h k rep d o e =
        (z, child_nil (suc fuel) z p rep, ([], [], inr (refl, tt, tt, refl)))
    child-Nearest (suc fuel) m par p z (branch l a r) h k rep d o e =
        let start = child_node (suc fuel) z p (Rep-branch_ne_nil s par p a l r rep) in
        let up : climb m s a (s.parent a) ≡ some z = rw (rep.2, ← rep.0) (e branch_ne_leaf) in
        let here = ap (λ q. search_next (suc fuel) steps cmp s key q) rep.0 in
        elim (Bool-cases (is_zero (cmp key (s.item a)))) [
          | inl w ↦
              (a, start ∙ here ∙ next_equal fuel a rep.1 w, (inorder l, inorder r, inl (refl, w)))
          | inr w ↦ elim (Bool-cases (is_neg (cmp key (s.item a)))) [
            | inl n ↦
                let (x, f, b) =
                  child-Nearest fuel 1 a (s.left a) a l (omega arith) (omega arith) rep.3
                    (Distinct-left (inorder l) (a ∷ inorder r) d)
                    (Ordered-left cmp s (inorder l) (a ∷ inorder r) o)
                    (left_climb a l r rep.3 rep.4 d) in
                (
                  x,
                  start ∙ here ∙ next_left fuel a rep.1 n ∙ f,
                  Nearest-left cmp s laws key a x z (inorder l) (inorder r) n
                      (Ordered-right cmp s (inorder l) (a ∷ inorder r) o) b,
                )
            | inr n ↦
                let (x, f, b) =
                  child-Nearest fuel (suc m) a (s.right a) z r (omega arith) (omega arith) rep.4
                    (Distinct-right (inorder l) (a ∷ inorder r) d).1
                    (Ordered-right cmp s (inorder l) (a ∷ inorder r) o).1
                    (λ q. from_right s m a z rep.1 up) in
                let c = climb_more s m steps a (s.parent a) z (omega arith) up in
                (
                  x,
                  start ∙ here ∙ next_right fuel a z rep.1 w n c ∙ f,
                  Nearest-right cmp s laws key a x z (inorder l) (inorder r)
                      (Above-front cmp s laws key a (inorder l) (inorder r) w n o) b,
                )
          ]
        ]

    root_child :
        (fuel : ℕ) → search_next (suc fuel) steps cmp s key s.root ≡ child (suc fuel) s.nil s.root
    unfolding search_next child
    root_child fuel = elim (Bool-cases (s.root == s.nil)) [
      | inl q ↦ rw (q, search_next) (ap some (==→eq s.root s.nil q))
      | inr q ↦ rw q
    ]

  getexactornext_of :
      (fuel key r : ℕ)
      → search_next fuel fuel cmp s key s.root ≡ some r
      → node_getexactornext fuel cmp s key ≡ some (null_if_nil s r)
  unfolding node_getexactornext
  getexactornext_of fuel key r e = ap (Option.map (null_if_nil s)) e

  -- On a tree whose data are in order, with a compare function that orders them and more fuel than
  -- nodes, `_std_rbtree_getexactornext` ends, and returns a node that is equal to the key, or else
  -- the first node above it, with every node in front below the key, or null if all are below.
  pub node_getexactornext-Nearest :
      (laws : IsCompare cmp) (key fuel : ℕ) (t : Tree)
      → IsTree s t
      → Ordered cmp s (inorder t)
      → count t < fuel
      → (x : ℕ) × (node_getexactornext fuel cmp s key ≡ some x) × Nearest cmp s 0 key (inorder t) x
  node_getexactornext-Nearest laws key zero t i o h = absurd (omega arith)
  node_getexactornext-Nearest laws key (suc fuel) t i o h =
      let top : climb 1 s s.root s.nil ≡ some s.nil =
        climb_stop s 0 s.root s.nil (rw (==_refl s.nil)) in
      let (r, e, b) =
        child-Nearest laws key (suc fuel) (suc fuel) 1 s.nil s.root s.nil t h (omega arith) i.rep
          i.distinct o (λ q. top) in
      (
        null_if_nil s r,
        getexactornext_of (suc fuel) key r (root_child laws key (suc fuel) fuel ∙ e),
        Nearest-null cmp s laws key (inorder t) r (inorder_ne_nil s s.nil s.root t i.rep) b,
      )
