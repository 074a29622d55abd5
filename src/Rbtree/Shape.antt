-- ===== src/Rbtree/Shape.antt =====
-- The tree that the pointers of src/std_rbtree.c stand for.
use sonic_common_utils.Base.{
  ℕ, suc, ◌+◌, ◌≡◌, ◌≢◌, sym, ◌∙◌, List, [], ◌∷◌, ◌++◌, All, ltb, if◌then◌else◌, ◌≤◌, arith,
}
use sonic_common_utils.Base.Distinct.{NotIn, Distinct, All-append, All-at, All-right, All-left}
use sonic_common_utils.Rbtree.{Table}

-- A binary tree of addresses.
pub data Tree : Type 0 where
  leaf : Tree
  branch : Tree → ℕ → Tree → Tree

unfoldable pub inorder : Tree → List ℕ
inorder leaf = []
inorder (branch l a r) = inorder l ++ (a ∷ inorder r)

unfoldable pub count : Tree → ℕ
count leaf = 0
count (branch l a r) = count l + suc (count r)

abbrev pub deeper : (a b : ℕ) → ℕ
deeper a b = if ltb a b then b else a

-- The nodes on the longest way down.
unfoldable pub depth : Tree → ℕ
depth leaf = 0
depth (branch l a r) = suc (deeper (depth l) (depth r))

pub depth_le_count : (t : Tree) → depth t ≤ count t
unfolding depth count
depth_le_count leaf = omega arith
depth_le_count (branch l a r) = let i = depth_le_count l in let j = depth_le_count r in ground arith

-- The pointers from `p` on, whose parent is `par`, stand for the tree.
abbrev pub Rep : Table → (par p : ℕ) → Tree → Type 0
Rep s par p leaf = p ≡ s.nil
Rep s par p (branch l a r) =
    (p ≡ a) × (a ≢ s.nil) × (s.parent a ≡ par) × Rep s a (s.left a) l × Rep s a (s.right a) r

-- A table whose nodes are the tree: each address once, and none of them null.
pub record IsTree (s : Table) (t : Tree) : Type 0 where
  pub rep : Rep s s.nil s.root t
  pub distinct : Distinct (inorder t)
  pub not_null : All (λ x. x ≢ 0) (inorder t)

pub Distinct-left : (xs ys : List ℕ) → Distinct (xs ++ ys) → Distinct xs
Distinct-left [] ys d = tt
Distinct-left (x ∷ xs) ys d = (All-left (λ y. y ≢ x) xs ys d.0, Distinct-left xs ys d.1)

-- An element of the front is none of the back.
pub Distinct-across : (xs ys : List ℕ) → Distinct (xs ++ ys) → All (λ x. NotIn x ys) xs
Distinct-across [] ys d = tt
Distinct-across (x ∷ xs) ys d = (All-right (λ y. y ≢ x) xs ys d.0, Distinct-across xs ys d.1)

module _ (s : Table) where
  pub Rep-branch_ne_nil : (par p a : ℕ) (l r : Tree) → Rep s par p (branch l a r) → p ≢ s.nil
  Rep-branch_ne_nil par p a l r h e = h.1 (sym h.0 ∙ e)

  -- The two children of a node are different, unless both are missing.
  pub children_ne :
      (a b : ℕ) (ll lr r : Tree)
      → Rep s a (s.left a) (branch ll b lr)
      → Rep s a (s.right a) r
      → Distinct (inorder (branch ll b lr) ++ (a ∷ inorder r))
      → s.left a ≢ s.right a
  unfolding inorder
  children_ne a b ll lr leaf hl hr d e = Rep-branch_ne_nil a (s.left a) b ll lr hl (e ∙ hr)
  children_ne a b ll lr (branch rl c rr) hl hr d e =
      let across =
        Distinct-across (inorder ll ++ (b ∷ inorder lr)) (a ∷ (inorder rl ++ (c ∷ inorder rr))) d in
      let not_b =
        All-at (λ x. NotIn x (a ∷ (inorder rl ++ (c ∷ inorder rr)))) b (inorder ll) (inorder lr)
          across in
      All-at (λ x. x ≢ b) c (inorder rl) (inorder rr) not_b.1 (sym hr.0 ∙ sym e ∙ hl.0)

  -- No node of the tree is the table's own node.
  pub inorder_ne_nil : (par p : ℕ) (t : Tree) → Rep s par p t → All (λ x. x ≢ s.nil) (inorder t)
  unfolding inorder
  inorder_ne_nil par p leaf h = tt
  inorder_ne_nil par p (branch l a r) h =
      All-append (λ x. x ≢ s.nil) (inorder l) (a ∷ inorder r) (inorder_ne_nil a (s.left a) l h.3)
        (h.1, inorder_ne_nil a (s.right a) r h.4)
