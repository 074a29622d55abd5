-- ===== src/Rbtree/Place.antt =====
-- Places in the tree of src/std_rbtree.c under rotations and changes of colour, for either side.
use mathlib.Core.List.{append_assoc}
use sonic_common_utils.Base.{ℕ, ◌≡◌, refl, sym, ap, ◌∙◌, subst, [], ◌∷◌, ◌++◌, arith}
use sonic_common_utils.Rbtree.{Table}
use sonic_common_utils.Rbtree.Shape.{Tree, leaf, branch, inorder}
use sonic_common_utils.Rbtree.Zipper.{
  Trail, at_near, at_far, occurs, occurs_along, Once, parent_of, Stands, Above,
}

-- The subtree `t` hangs at a place, with the node `p`.
pub record Place (near far : Table → ℕ → ℕ) (s : Table) (p : ℕ) (t : Tree) (path : Trail)
    : Type 0 where
  pub stands : Stands near far s (parent_of s.nil path) p t
  pub above : Above near far s p path
  pub once : Once t path

-- The mirror image.
unfoldable pub flip : Tree → Tree
flip leaf = leaf
flip (branch l a r) = branch (flip r) a (flip l)

unfoldable pub flip_path : Trail → Trail
flip_path [] = []
flip_path (at_near a o ∷ path) = at_far a (flip o) ∷ flip_path path
flip_path (at_far a o ∷ path) = at_near a (flip o) ∷ flip_path path

pub flip-flip : (t : Tree) → flip (flip t) ≡ t
unfolding flip
flip-flip leaf = refl
flip-flip (branch l a r) = rw (flip-flip l, flip-flip r) refl

-- The same nodes in the same order, in both images.
abbrev pub SameOrder : Tree → Tree → Type 0
SameOrder t t' = (inorder t ≡ inorder t') × (inorder (flip t) ≡ inorder (flip t'))

pub SameOrder-turn :
    (A B C : Tree) (x y : ℕ) → SameOrder (branch A x (branch B y C)) (branch (branch A x B) y C)
unfolding inorder flip
SameOrder-turn A B C x y = (
  sym (append_assoc (inorder A) (x ∷ inorder B) (y ∷ inorder C)),
  append_assoc (inorder (flip C)) (y ∷ inorder (flip B)) (x ∷ inorder (flip A)),
)

pub SameOrder-trans : (t u v : Tree) → SameOrder t u → SameOrder u v → SameOrder t v
SameOrder-trans t u v e f = (e.0 ∙ f.0, e.1 ∙ f.1)

pub SameOrder-under :
    (a : ℕ) (o t u : Tree) → SameOrder t u → SameOrder (branch t a o) (branch u a o)
unfolding inorder flip
SameOrder-under a o t u e =
    (ap (λ xs. xs ++ (a ∷ inorder o)) e.0, ap (λ xs. inorder (flip o) ++ (a ∷ xs)) e.1)

pub occurs-flip : (q : ℕ) (t : Tree) → occurs q (flip t) ≡ occurs q t
unfolding occurs flip
occurs-flip q leaf = refl
occurs-flip q (branch l a r) = rw (occurs-flip q l, occurs-flip q r) (omega arith)

pub occurs_along-flip :
    (q : ℕ) (path : Trail) → occurs_along q (flip_path path) ≡ occurs_along q path
unfolding occurs_along flip_path
occurs_along-flip q [] = refl
occurs_along-flip q (at_near a o ∷ path) = rw (occurs-flip q o, occurs_along-flip q path) refl
occurs_along-flip q (at_far a o ∷ path) = rw (occurs-flip q o, occurs_along-flip q path) refl

module _ (near far : Table → ℕ → ℕ) (s : Table) where
  Stands-flip :
      (par p : ℕ) (t : Tree) → Stands near far s par p t → Stands far near s par p (flip t)
  unfolding flip
  Stands-flip par p leaf h = h
  Stands-flip par p (branch l a r) h =
      (h.0, h.1, h.2, Stands-flip a (far s a) r h.4, Stands-flip a (near s a) l h.3)

  Stands-unflip :
      (par p : ℕ) (t : Tree) → Stands far near s par p (flip t) → Stands near far s par p t
  unfolding flip
  Stands-unflip par p leaf h = h
  Stands-unflip par p (branch l a r) h =
      (h.0, h.1, h.2, Stands-unflip a (near s a) l h.4, Stands-unflip a (far s a) r h.3)

  pub parent_of-flip : (path : Trail) → parent_of s.nil (flip_path path) ≡ parent_of s.nil path
  unfolding flip_path
  parent_of-flip [] = refl
  parent_of-flip (at_near a o ∷ path) = refl
  parent_of-flip (at_far a o ∷ path) = refl

  Above-flip :
      (p : ℕ) (path : Trail) → Above near far s p path → Above far near s p (flip_path path)
  unfolding flip_path
  Above-flip p [] h = h
  Above-flip p (at_near a o ∷ path) h = (
    h.0,
    h.1,
    h.2 ∙ sym (parent_of-flip path),
    Stands-flip a (far s a) o h.3,
    Above-flip a path h.4,
  )
  Above-flip p (at_far a o ∷ path) h = (
    h.0,
    h.1,
    h.2 ∙ sym (parent_of-flip path),
    Stands-flip a (near s a) o h.3,
    Above-flip a path h.4,
  )

  Above-unflip :
      (p : ℕ) (path : Trail) → Above far near s p (flip_path path) → Above near far s p path
  unfolding flip_path
  Above-unflip p [] h = h
  Above-unflip p (at_near a o ∷ path) h = (
    h.0,
    h.1,
    h.2 ∙ parent_of-flip path,
    Stands-unflip a (far s a) o h.3,
    Above-unflip a path h.4,
  )
  Above-unflip p (at_far a o ∷ path) h = (
    h.0,
    h.1,
    h.2 ∙ parent_of-flip path,
    Stands-unflip a (near s a) o h.3,
    Above-unflip a path h.4,
  )

  pub Place-flip :
      (p : ℕ) (t : Tree) (path : Trail)
      → Place near far s p t path
      → Place far near s p (flip t) (flip_path path)
  Place-flip p t path h = record {
    stands = rw (parent_of-flip path) (Stands-flip (parent_of s.nil path) p t h.stands);
    above = Above-flip p path h.above;
    once = λ q. rw (occurs-flip q t, occurs_along-flip q path) (h.once q);
  }

  pub Place-unflip :
      (p : ℕ) (t : Tree) (path : Trail)
      → Place far near s p (flip t) (flip_path path)
      → Place near far s p t path
  Place-unflip p t path h = record {
    stands =
        Stands-unflip (parent_of s.nil path) p t
          (subst (λ a. Stands far near s a p (flip t)) (parent_of-flip path) h.stands);
    above = Above-unflip p path h.above;
    once = λ q.
        let o = h.once q in
        let e = occurs-flip q t in let f = occurs_along-flip q path in omega (arith, o, e, f);
  }
