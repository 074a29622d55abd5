-- ===== src/Rbtree/Whole.antt =====
-- The whole tree of src/std_rbtree.c as the place at its root.
use sonic_common_utils.Base.{
  ℕ, ◌+◌, ◌≤◌, ◌≡◌, refl, sym, inl, inr, List, [], ◌∷◌, ◌++◌, arith, ◌==◌, ==→eq, ne→==, Bool-cases,
}
use sonic_common_utils.Base.Distinct.{Distinct, NotIn}
use sonic_common_utils.Rbtree.{Table}
use sonic_common_utils.Rbtree.Rotation.{left_of, right_of}
use sonic_common_utils.Rbtree.Shape.{Tree, leaf, branch, inorder, Rep}
use sonic_common_utils.Rbtree.Zipper.{hits, hits_self, occurs, Stands}

module _ (s : Table) where
  pub Rep-Stands : (par p : ℕ) (t : Tree) → Rep s par p t → Stands left_of right_of s par p t
  Rep-Stands par p leaf h = h
  Rep-Stands par p (branch l a r) h =
      (h.0, h.1, h.2, Rep-Stands a (s.left a) l h.3, Rep-Stands a (s.right a) r h.4)

  pub Stands-Rep : (par p : ℕ) (t : Tree) → Stands left_of right_of s par p t → Rep s par p t
  Stands-Rep par p leaf h = h
  Stands-Rep par p (branch l a r) h =
      (h.0, h.1, h.2, Stands-Rep a (s.left a) l h.3, Stands-Rep a (s.right a) r h.4)

-- How often an address stands in a list.
unfoldable pub times : ℕ → List ℕ → ℕ
times q [] = 0
times q (x ∷ xs) = hits q x + times q xs

times-append : (q : ℕ) (xs ys : List ℕ) → times q (xs ++ ys) ≡ times q xs + times q ys
unfolding times
times-append q [] ys = omega arith
times-append q (x ∷ xs) ys = let e = times-append q xs ys in rw e (omega arith)

pub times-inorder : (q : ℕ) (t : Tree) → times q (inorder t) ≡ occurs q t
unfolding times inorder occurs
times-inorder q leaf = refl
times-inorder q (branch l a r) =
    rw (times-append q (inorder l) (a ∷ inorder r), times-inorder q l, times-inorder q r)
      (omega arith)

pub NotIn-times : (q : ℕ) (xs : List ℕ) → NotIn q xs → times q xs ≡ 0
unfolding times
NotIn-times q [] n = refl
NotIn-times q (x ∷ xs) n = let e = NotIn-times q xs n.1 in rw (ne→== x q n.0) (omega arith)

times-NotIn : (q : ℕ) (xs : List ℕ) → times q xs ≡ 0 → NotIn q xs
unfolding times
times-NotIn q [] e = tt
times-NotIn q (x ∷ xs) e = (
  (λ f. let one : hits q x ≡ 1 = rw f (hits_self q) in absurd (omega (arith, one, e))),
  times-NotIn q xs (omega arith),
)

pub Distinct-times : (q : ℕ) (xs : List ℕ) → Distinct xs → times q xs ≤ 1
unfolding times
Distinct-times q [] d = omega arith
Distinct-times q (x ∷ xs) d = elim (Bool-cases (x == q)) [
  | inl e ↦
      let none : times q xs ≡ 0 = rw (sym (==→eq x q e)) (NotIn-times x xs d.0) in
      rw (e, none) (omega arith)
  | inr e ↦ let h = Distinct-times q xs d.1 in rw e (omega arith)
]

pub times-Distinct : (xs : List ℕ) → ((q : ℕ) → times q xs ≤ 1) → Distinct xs
unfolding times
times-Distinct [] h = tt
times-Distinct (x ∷ xs) h = (
  times-NotIn x xs (let o = rw (hits_self x) at (h x) in omega arith),
  times-Distinct xs (λ q. let o = h q in omega arith),
)
