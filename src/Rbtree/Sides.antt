-- ===== src/Rbtree/Sides.antt =====
-- The two sides that the mirrored halves of src/std_rbtree.c exchange: an interface that the left and
-- the right side both fill, and what rotations and colours do to a place, for either.
use sonic_common_utils.Base.{ℕ, ◌≡◌, refl, Bool, arith}
use sonic_common_utils.Rbtree.{Table, set_red, std_rbtree_rotateleft, std_rbtree_rotateright}
use sonic_common_utils.Rbtree.Shape.{Tree, branch}
use sonic_common_utils.Rbtree.Zipper.{Trail, occurs, parent_of, Stands-frame, Above-frame}
use sonic_common_utils.Rbtree.Rotation.{
  Turnable, Turned, left_of, right_of, rotateleft-Turned, rotateright-Turned,
}
use sonic_common_utils.Rbtree.Turn.{turnable, turned-Stands, turned-Above}
use sonic_common_utils.Rbtree.Place.{Place, flip, flip_path, Place-flip, Place-unflip}

pub record Sides : Type 0 where
  pub near : Table → ℕ → ℕ
  pub far : Table → ℕ → ℕ
  -- The rotations that bring the far child up, and the near one.
  pub turn_far : Table → ℕ → Table
  pub turn_near : Table → ℕ → Table
  pub turned_far :
      (s : Table) (x y b up : ℕ)
      → Turnable s near far x y b up
      → Turned s (turn_far s x) near far x y b up
  pub turned_near :
      (s : Table) (x y b up : ℕ)
      → Turnable s far near x y b up
      → Turned s (turn_near s x) far near x y b up
  pub near_red : (s : Table) (q : ℕ) (c : Bool) (p : ℕ) → near (set_red s q c) p ≡ near s p
  pub far_red : (s : Table) (q : ℕ) (c : Bool) (p : ℕ) → far (set_red s q c) p ≡ far s p
  pub red_far : (s : Table) (x : ℕ) → (turn_far s x).red ≡ s.red
  pub red_near : (s : Table) (x : ℕ) → (turn_near s x).red ≡ s.red
  pub item_far : (s : Table) (x : ℕ) → (turn_far s x).item ≡ s.item
  pub item_near : (s : Table) (x : ℕ) → (turn_near s x).item ≡ s.item
  pub nil_far : (s : Table) (x : ℕ) → (turn_far s x).nil ≡ s.nil
  pub nil_near : (s : Table) (x : ℕ) → (turn_near s x).nil ≡ s.nil

pub red_rotateleft :
    (s : Table) (x : ℕ)
    → ((std_rbtree_rotateleft s x).red ≡ s.red)
      × ((std_rbtree_rotateleft s x).item ≡ s.item)
      × ((std_rbtree_rotateleft s x).nil ≡ s.nil)
unfolding std_rbtree_rotateleft
red_rotateleft s x = ground arith

pub red_rotateright :
    (s : Table) (x : ℕ)
    → ((std_rbtree_rotateright s x).red ≡ s.red)
      × ((std_rbtree_rotateright s x).item ≡ s.item)
      × ((std_rbtree_rotateright s x).nil ≡ s.nil)
unfolding std_rbtree_rotateright
red_rotateright s x = ground arith

abbrev pub left_side : Sides
left_side = record {
  near = left_of;
  far = right_of;
  turn_far = std_rbtree_rotateleft;
  turn_near = std_rbtree_rotateright;
  turned_far = rotateleft-Turned;
  turned_near = rotateright-Turned;
  near_red = λ s q c p. refl;
  far_red = λ s q c p. refl;
  red_far = λ s x. (red_rotateleft s x).0;
  red_near = λ s x. (red_rotateright s x).0;
  item_far = λ s x. (red_rotateleft s x).1;
  nil_far = λ s x. (red_rotateleft s x).2;
  item_near = λ s x. (red_rotateright s x).1;
  nil_near = λ s x. (red_rotateright s x).2;
}

abbrev pub right_side : Sides
right_side = record {
  near = right_of;
  far = left_of;
  turn_far = std_rbtree_rotateright;
  turn_near = std_rbtree_rotateleft;
  turned_far = rotateright-Turned;
  turned_near = rotateleft-Turned;
  near_red = λ s q c p. refl;
  far_red = λ s q c p. refl;
  red_far = λ s x. (red_rotateright s x).0;
  red_near = λ s x. (red_rotateleft s x).0;
  item_far = λ s x. (red_rotateright s x).1;
  nil_far = λ s x. (red_rotateright s x).2;
  item_near = λ s x. (red_rotateleft s x).1;
  nil_near = λ s x. (red_rotateleft s x).2;
}

turn-Place :
    (near far : Table → ℕ → ℕ) (s s' : Table) (x y : ℕ) (A B C : Tree) (path : Trail)
    → Place near far s x (branch A x (branch B y C)) path
    → Turned s s' near far x y (near s y) (parent_of s.nil path)
    → Place near far s' y (branch (branch A x B) y C) path
unfolding occurs
turn-Place near far s s' x y A B C path h t = record {
  stands = turned-Stands near far s x y A B C path h.stands h.once s' t;
  above = turned-Above near far s x y A B C path h.stands h.once s' t h.above;
  once = λ q. let o = h.once q in omega arith;
}

module _ (d : Sides) (s : Table) where
  pub turn_far-Place :
      (x y : ℕ) (A B C : Tree) (path : Trail)
      → Place d.near d.far s x (branch A x (branch B y C)) path
      → Place d.near d.far (d.turn_far s x) y (branch (branch A x B) y C) path
  turn_far-Place x y A B C path h = turn-Place d.near d.far s (d.turn_far s x) x y A B C path h (
      d.turned_far s x y (d.near s y) (parent_of s.nil path)
        (turnable d.near d.far s x y A B C path h.stands h.once))

  pub turn_near-Place :
      (x y : ℕ) (A B C : Tree) (path : Trail)
      → Place d.near d.far s x (branch (branch A y B) x C) path
      → Place d.near d.far (d.turn_near s x) y (branch A y (branch B x C)) path
  unfolding flip
  turn_near-Place x y A B C path h =
      let f = Place-flip d.near d.far s x (branch (branch A y B) x C) path h in
      Place-unflip d.near d.far (d.turn_near s x) y (branch A y (branch B x C)) path (
        turn-Place d.far d.near s (d.turn_near s x) x y (flip C) (flip B) (flip A) (flip_path path)
          f
          (d.turned_near s x y (d.far s y) (parent_of s.nil (flip_path path)) (
            turnable d.far d.near s x y (flip C) (flip B) (flip A) (flip_path path) f.stands
              f.once)))

  -- Colours are no part of the shape.
  pub set_red-Place :
      (q : ℕ) (c : Bool) (p : ℕ) (t : Tree) (path : Trail)
      → Place d.near d.far s p t path
      → Place d.near d.far (set_red s q c) p t path
  set_red-Place q c p t path h = record {
    stands =
        Stands-frame d.near d.far s (set_red s q c) refl (parent_of s.nil path) p t
          (λ a i. (d.near_red s q c a, d.far_red s q c a, refl)) h.stands;
    above =
        Above-frame d.near d.far s (set_red s q c) refl p path refl
          (λ a i. (d.near_red s q c a, d.far_red s q c a, refl)) h.above;
    once = h.once;
  }
