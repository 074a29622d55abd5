-- ===== src/Rbtree/Order.antt =====
-- `_std_rbtree_getfirst` and `_std_rbtree_getnext` of src/std_rbtree.c visit the tree in order.
use mathlib.Core.Option
use sonic_common_utils.Base.{
  ℕ, zero, suc, ◌+◌, ◌≤◌, ◌≡◌, ◌≢◌, refl, sym, ap, ◌∙◌, true, false, ◌&&◌, not, none, some, List,
  [], ◌∷◌, ◌++◌, arith, ◌==◌, ==_refl, ne→==, Bool-cases, inl, inr,
}
use sonic_common_utils.Base.Distinct.{Distinct, Distinct-right}
use sonic_common_utils.Rbtree.{Table, leftmost, climb, successor}
use sonic_common_utils.Rbtree.Shape.{
  Tree, leaf, branch, inorder, count, Rep, Distinct-left, children_ne, Rep-branch_ne_nil,
}

-- The first of a list, or what follows the list.
abbrev pub head_or : List ℕ → ℕ → ℕ
head_or [] z = z
head_or (x ∷ xs) z = x

pub head_or-append : (xs ys : List ℕ) (y z : ℕ) → head_or (xs ++ (y ∷ ys)) z ≡ head_or xs y
head_or-append [] ys y z = refl
head_or-append (x ∷ xs) ys y z = refl

module _ (s : Table) where
  pub climb_stop :
      (fuel x y : ℕ)
      → (not (y == s.nil) && x == s.right y) ≡ false
      → climb (suc fuel) s x y ≡ some y
  unfolding climb
  climb_stop fuel x y e = rw (e, climb)

  climb_up :
      (fuel x y : ℕ)
      → (not (y == s.nil) && x == s.right y) ≡ true
      → climb (suc fuel) s x y ≡ climb fuel s y (s.parent y)
  unfolding climb
  climb_up fuel x y e = rw (e, climb)

  climb_empty : (x y : ℕ) → climb zero s x y ≡ none
  unfolding climb
  climb_empty x y = refl

  -- More fuel does not change where the climb ends.
  pub climb_more : (m n x y z : ℕ) → m ≤ n → climb m s x y ≡ some z → climb n s x y ≡ some z
  climb_more zero n x y z h e = absurd (Option.none-ne-some z (sym (climb_empty x y) ∙ e))
  climb_more (suc m) zero x y z h e = absurd (omega arith)
  climb_more (suc m) (suc n) x y z h e = elim (Bool-cases (not (y == s.nil) && x == s.right y)) [
    | inl up ↦
        climb_up n x y up
        ∙ climb_more m n y (s.parent y) z (omega arith) (sym (climb_up m x y up) ∙ e)
    | inr stop ↦ climb_stop n x y stop ∙ sym (climb_stop m x y stop) ∙ e
  ]

  leftmost_stop : (fuel x : ℕ) → (s.left x == s.nil) ≡ true → leftmost (suc fuel) s x ≡ some x
  unfolding leftmost
  leftmost_stop fuel x e = rw (e, leftmost)

  leftmost_down :
      (fuel x : ℕ)
      → (s.left x == s.nil) ≡ false
      → leftmost (suc fuel) s x ≡ leftmost fuel s (s.left x)
  unfolding leftmost
  leftmost_down fuel x e = rw (e, leftmost)

  -- The walk to the left ends at the first node of a tree that is not empty.
  pub leftmost-inorder :
      (fuel par p a z : ℕ) (l r : Tree)
      → count (branch l a r) ≤ fuel
      → Rep s par p (branch l a r)
      → leftmost fuel s p ≡ some (head_or (inorder (branch l a r)) z)
  unfolding inorder count
  leftmost-inorder zero par p a z l r h t = absurd (omega arith)
  leftmost-inorder (suc fuel) par p a z leaf r h t =
      rw t.0 (leftmost_stop fuel a (rw t.3 (==_refl s.nil)))
  leftmost-inorder (suc fuel) par p a z (branch ll b lr) r h t =
      let child = t.3 in
      rw (t.0, head_or-append (inorder (branch ll b lr)) (inorder r) a z)
        (leftmost_down fuel a
            (ne→== (s.left a) s.nil (Rep-branch_ne_nil s a (s.left a) b ll lr child))
          ∙ leftmost-inorder fuel a (s.left a) b a ll lr (omega arith) child)

  successor_up :
      (fuel x : ℕ) → (s.right x == s.nil) ≡ true → successor fuel s x ≡ climb fuel s x (s.parent x)
  unfolding successor
  successor_up fuel x e = rw e

  successor_down :
      (fuel x : ℕ) → (s.right x == s.nil) ≡ false → successor fuel s x ≡ leftmost fuel s (s.right x)
  unfolding successor
  successor_down fuel x e = rw e

  -- Each node of the list leads to the one behind it, and the last one to `z`.
  abbrev pub Follow : ℕ → List ℕ → ℕ → Type 0
  Follow fuel [] z = Unit
  Follow fuel (x ∷ xs) z = (successor fuel s x ≡ some (head_or xs z)) × Follow fuel xs z

  Follow-append :
      (fuel : ℕ) (xs : List ℕ) (y : ℕ) (ys : List ℕ) (z : ℕ)
      → Follow fuel xs y
      → Follow fuel (y ∷ ys) z
      → Follow fuel (xs ++ (y ∷ ys)) z
  Follow-append fuel [] y ys z f g = g
  Follow-append fuel (x ∷ xs) y ys z f g =
      (f.0 ∙ ap some (sym (head_or-append xs ys y z)), Follow-append fuel xs y ys z f.1 g)

  -- From a left child the climb stops at the parent, and from a right one it goes on.
  pub from_left :
      (a b : ℕ) (ll lr r : Tree)
      → Rep s a (s.left a) (branch ll b lr)
      → Rep s a (s.right a) r
      → Distinct (inorder (branch ll b lr) ++ (a ∷ inorder r))
      → climb 1 s (s.left a) a ≡ some a
  from_left a b ll lr r hl hr d =
      let other = ne→== (s.left a) (s.right a) (children_ne s a b ll lr r hl hr d) in
      climb_stop 0 (s.left a) a (rw other (ground arith))

  pub from_right :
      (m a z : ℕ)
      → a ≢ s.nil
      → climb m s a (s.parent a) ≡ some z
      → climb (suc m) s (s.right a) a ≡ some z
  from_right m a z ne e = climb_up m (s.right a) a (rw (ne→== a s.nil ne, ==_refl (s.right a))) ∙ e

  -- The successor of a node whose right subtree is `r`.
  successor-right :
      (fuel m a z : ℕ) (r : Tree)
      → m + count r ≤ fuel
      → Rep s a (s.right a) r
      → climb m s a (s.parent a) ≡ some z
      → successor fuel s a ≡ some (head_or (inorder r) z)
  unfolding inorder count
  successor-right fuel m a z leaf h t e =
      successor_up fuel a (rw t (==_refl s.nil))
      ∙ climb_more m fuel a (s.parent a) z (omega arith) e
  successor-right fuel m a z (branch l c r) h t e =
      successor_down fuel a (ne→== (s.right a) s.nil (Rep-branch_ne_nil s a (s.right a) c l r t))
      ∙ leftmost-inorder fuel a (s.right a) c z l r (omega arith) t

  -- All nodes of a subtree are followed in order, and then by where the climb from it ends.
  pub subtree-Follow :
      (fuel m par p z : ℕ) (t : Tree)
      → m + count t ≤ fuel
      → Rep s par p t
      → Distinct (inorder t)
      → climb m s p par ≡ some z
      → Follow fuel (inorder t) z
  unfolding inorder count
  subtree-Follow fuel m par p z leaf h t d e = tt
  subtree-Follow fuel m par p z (branch leaf a r) h t d e =
      let up : climb m s a (s.parent a) ≡ some z = rw (t.2, ← t.0) e in
      (
        successor-right fuel m a z r (omega arith) t.4 up,
        subtree-Follow fuel (suc m) a (s.right a) z r (omega arith) t.4 d.1
            (from_right m a z t.1 up),
      )
  subtree-Follow fuel m par p z (branch (branch ll b lr) a r) h t d e =
      let up : climb m s a (s.parent a) ≡ some z = rw (t.2, ← t.0) e in
      let l = branch ll b lr in
      Follow-append fuel (inorder l) a (inorder r) z
        (subtree-Follow fuel 1 a (s.left a) a (branch ll b lr) (omega arith) t.3
          (Distinct-left (inorder l) (a ∷ inorder r) d) (from_left a b ll lr r t.3 t.4 d))
        (
          successor-right fuel m a z r (omega arith) t.4 up,
          subtree-Follow fuel (suc m) a (s.right a) z r (omega arith) t.4
              (Distinct-right (inorder l) (a ∷ inorder r) d).1 (from_right m a z t.1 up),
        )
