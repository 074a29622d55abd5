-- ===== src/Rbtree/Apart.antt =====
-- Nodes in different parts of the tree of src/std_rbtree.c are different.
use sonic_common_utils.Base.{
  ℕ, ◌≤◌, ◌≡◌, ◌≢◌, sym, ◌∙◌, subst, inl, inr, [], ◌∷◌, arith, ◌==◌, ltb, ==→eq, Bool-cases,
}
use sonic_common_utils.Rbtree.{Table}
use sonic_common_utils.Rbtree.Shape.{Tree, leaf, branch}
use sonic_common_utils.Rbtree.Zipper.{
  Trail, at_near, at_far, occurs, occurs_along, parent_of, hits, hits_self, Stands, Above,
}

-- An address that stands in a part is none that does not.
pub ne_of_zero : (f : ℕ → ℕ) (q r : ℕ) → 1 ≤ f q → f r ≡ 0 → q ≢ r
ne_of_zero f q r i z e = let j = subst (λ n. 1 ≤ f n) e i in absurd (omega arith)

module _ (near far : Table → ℕ → ℕ) (s : Table) where
  pub Stands-not_nil :
      (par p q : ℕ) (t : Tree) → Stands near far s par p t → 1 ≤ occurs q t → q ≢ s.nil
  unfolding occurs
  Stands-not_nil par p q leaf h i = absurd (omega arith)
  Stands-not_nil par p q (branch l a r) h i = elim (Bool-cases (a == q)) [
    | inl e ↦ λ n. h.1 (==→eq a q e ∙ n)
    | inr e ↦ elim (Bool-cases (ltb 0 (occurs q l))) [
      | inl w ↦ Stands-not_nil a (near s a) q l h.3 (ground arith)
      | inr w ↦ Stands-not_nil a (far s a) q r h.4 (ground arith)
    ]
  ]

  pub Above-not_nil :
      (p q : ℕ) (path : Trail) → Above near far s p path → 1 ≤ occurs_along q path → q ≢ s.nil
  unfolding occurs_along
  Above-not_nil p q [] h i = absurd (omega arith)
  Above-not_nil p q (at_near a o ∷ path) h i = elim (Bool-cases (a == q)) [
    | inl e ↦ λ n. h.1 (==→eq a q e ∙ n)
    | inr e ↦ elim (Bool-cases (ltb 0 (occurs q o))) [
      | inl w ↦ Stands-not_nil a (far s a) q o h.3 (ground arith)
      | inr w ↦ Above-not_nil a q path h.4 (ground arith)
    ]
  ]
  Above-not_nil p q (at_far a o ∷ path) h i = elim (Bool-cases (a == q)) [
    | inl e ↦ λ n. h.1 (==→eq a q e ∙ n)
    | inr e ↦ elim (Bool-cases (ltb 0 (occurs q o))) [
      | inl w ↦ Stands-not_nil a (near s a) q o h.3 (ground arith)
      | inr w ↦ Above-not_nil a q path h.4 (ground arith)
    ]
  ]

  -- The root of a subtree is no node outside of it.
  pub root_apart :
      (par p q : ℕ) (t : Tree) → Stands near far s par p t → q ≢ s.nil → occurs q t ≡ 0 → p ≢ q
  unfolding occurs
  root_apart par p q leaf h n z e = n (sym e ∙ h)
  root_apart par p q (branch l a r) h n z e =
      let one : hits q a ≡ 1 = rw (sym h.0 ∙ e) (hits_self q) in absurd (omega (arith, one, z))

  pub root_occurs : (par p : ℕ) (t : Tree) → Stands near far s par p t → p ≢ s.nil → 1 ≤ occurs p t
  unfolding occurs
  root_occurs par p leaf h n = absurd (n h)
  root_occurs par p (branch l a r) h n =
      let one : hits p a ≡ 1 = rw h.0 (hits_self a) in omega (arith, one)

  pub parent_apart :
      (q : ℕ) (path : Trail) → q ≢ s.nil → occurs_along q path ≡ 0 → q ≢ parent_of s.nil path
  unfolding occurs_along
  parent_apart q [] n z e = n e
  parent_apart q (at_near a o ∷ path) n z e =
      let one : hits q a ≡ 1 = rw e (hits_self a) in absurd (omega (arith, one, z))
  parent_apart q (at_far a o ∷ path) n z e =
      let one : hits q a ≡ 1 = rw e (hits_self a) in absurd (omega (arith, one, z))
