-- ===== src/Rbtree/Insertion/Round.antt =====
-- One round of `std_rbtree_balanceoninsert` of src/std_rbtree.c, for either side.
use sonic_common_utils.Base.{
  ℕ, suc, ◌≤◌, ◌≡◌, refl, Bool, true, false, ◌&&◌, not, ◌∷◌, arith, ◌==◌, if◌then◌else◌, put,
}
use sonic_common_utils.Rbtree.{Table, set_red}
use sonic_common_utils.Rbtree.Insertion.Rules.{Climbing, Settling}
use sonic_common_utils.Rbtree.Insertion.{balance_under_left, balance_under_right}
use sonic_common_utils.Rbtree.Shape.{Tree, branch}
use sonic_common_utils.Rbtree.Zipper.{Frame, Trail, at_near, at_far, occurs, occurs_along}
use sonic_common_utils.Rbtree.Place.{Place, SameOrder}
use sonic_common_utils.Rbtree.Sides.{Sides, left_side, right_side}

-- A tree with the step above it.
abbrev pub graft : Frame → Tree → Tree
graft (at_near a o) t = branch t a o
graft (at_far a o) t = branch o a t

module _ (near far : Table → ℕ → ℕ) (s : Table) where
  -- One step up.
  pub Place-up_near :
      (a p : ℕ) (t o : Tree) (path : Trail)
      → Place near far s p t (at_near a o ∷ path)
      → Place near far s a (branch t a o) path
  unfolding occurs occurs_along
  Place-up_near a p t o path h = record {
    stands = (refl, h.above.1, h.above.2, rw h.above.0 h.stands, h.above.3);
    above = h.above.4;
    once = λ q. let w = h.once q in omega arith;
  }

  pub Place-up_far :
      (a p : ℕ) (t o : Tree) (path : Trail)
      → Place near far s p t (at_far a o ∷ path)
      → Place near far s a (branch o a t) path
  unfolding occurs occurs_along
  Place-up_far a p t o path h = record {
    stands = (refl, h.above.1, h.above.2, h.above.3, rw h.above.0 h.stands);
    above = h.above.4;
    once = λ q. let w = h.once q in omega arith;
  }

module _ (d : Sides) where
  -- `balance_under_left` and `balance_under_right`, where the near side is the one named.
  abbrev pub uncle_red : Table → ℕ → Bool
  uncle_red s g = not (d.far s g == s.nil) && s.red (d.far s g)

  abbrev pub raised : Table → (p g : ℕ) → Table
  raised s p g = set_red (set_red (set_red s p false) (d.far s g) false) g true

  abbrev pub settled : Table → (p g : ℕ) → Table
  settled s p g = d.turn_near (set_red (set_red s p false) g true) g

  unfoldable pub balance_under : Table → ℕ → Table × ℕ
  unfolding put
  balance_under s x =
      let y = d.far s (s.parent (s.parent x)) in
      if not (y == s.nil) && s.red y
      then (let s1 = set_red (set_red s (s.parent x) false) y false in
          (set_red s1 (s1.parent (s1.parent x)) true, s1.parent (s1.parent x)))
      else (let inner = x == d.far s (s.parent x) in
          let x1 = if inner then s.parent x else x in
          let s1 = if inner then d.turn_far s x1 else s in
          let s2 = set_red s1 (s1.parent x1) false in
          let s3 = set_red s2 (s2.parent (s2.parent x1)) true in
          (d.turn_near s3 (s3.parent (s3.parent x1)), x1))

  module _ (s : Table) (x p g : ℕ) (up : s.parent x ≡ p) (upper : s.parent p ≡ g) where
    pub under_raised : uncle_red s g ≡ true → balance_under s x ≡ (raised s p g, g)
    unfolding balance_under
    under_raised e = rw (up, upper, e)

    pub under_outer :
        uncle_red s g ≡ false → (x == d.far s p) ≡ false → balance_under s x ≡ (settled s p g, x)
    unfolding balance_under
    under_outer e f = rw (up, upper, e, f, up, upper)

    pub under_inner :
        uncle_red s g ≡ false
        → (x == d.far s p) ≡ true
        → (d.turn_far s p).parent p ≡ x
        → (d.turn_far s p).parent x ≡ g
        → balance_under s x ≡ (settled (d.turn_far s p) x g, p)
    unfolding balance_under
    under_inner e f u w = rw (up, upper, e, f, u, w)

  -- The outcome of a round that ends the loop: a subtree with the same nodes in order hangs at the
  -- place of the grandparent's tree `G`, and the parent of the next node is black. Where the rules of
  -- the colours are kept below and above as `K` says, they are kept in the end.
  pub record Settled (K : ℕ → Type 0) (s : Table) (G : Tree) (path : Trail) (r : Table × ℕ)
      : Type 0 where
    pub node : ℕ
    pub tree : Tree
    pub place : Place d.near d.far r.0 node tree path
    pub order : SameOrder G tree
    pub parent_black : r.0.red (r.0.parent r.1) ≡ false
    pub item : r.0.item ≡ s.item
    pub nil : r.0.nil ≡ s.nil
    pub rules : (n : ℕ) → K n → Settling r.0.red (suc n) tree path

  -- The outcome of a round that goes on at the grandparent `g`.
  pub record Raised (K : ℕ → Type 0) (s : Table) (g : ℕ) (G : Tree) (path : Trail) (r : Table × ℕ)
      : Type 0 where
    pub place : Place d.near d.far r.0 g G path
    pub next : r.1 ≡ g
    pub colours : (q : ℕ) → 1 ≤ occurs_along q path → r.0.red q ≡ s.red q
    pub item : r.0.item ≡ s.item
    pub nil : r.0.nil ≡ s.nil
    pub rules : (n : ℕ) → K n → Climbing r.0.red (suc n) G path

pub under_left : (s : Table) (x : ℕ) → balance_under left_side s x ≡ balance_under_left s x
unfolding balance_under balance_under_left
under_left s x = refl

pub under_right : (s : Table) (x : ℕ) → balance_under right_side s x ≡ balance_under_right s x
unfolding balance_under balance_under_right
under_right s x = refl
