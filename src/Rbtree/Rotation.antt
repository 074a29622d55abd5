-- ===== src/Rbtree/Rotation.antt =====
-- What the rotations of src/std_rbtree.c write.
use sonic_common_utils.Base.{ℕ, ◌≡◌, ◌≢◌, arith, put}
use sonic_common_utils.Rbtree.{Table, std_rbtree_rotateleft, std_rbtree_rotateright}

-- The node `x`, its child `y` on the far side, the child `b` of `y` on the near side, and the parent
-- `up` of `x`, before a rotation.
pub record Turnable (s : Table) (near far : Table → ℕ → ℕ) (x y b up : ℕ) : Type 0 where
  pub far_x : far s x ≡ y
  pub near_y : near s y ≡ b
  pub parent_x : s.parent x ≡ up
  pub x_y : x ≢ y
  pub x_up : x ≢ up
  pub y_up : y ≢ up
  pub b_x : b ≢ x
  pub b_y : b ≢ y
  pub b_up : b ≢ s.nil → b ≢ up
  pub x_nil : x ≢ s.nil
  pub y_nil : y ≢ s.nil

-- The tables before and after.
pub record Turned (s s' : Table) (near far : Table → ℕ → ℕ) (x y b up : ℕ) : Type 0 where
  pub nil : s'.nil ≡ s.nil
  pub near_x : near s' x ≡ near s x
  pub far_x : far s' x ≡ b
  pub near_y : near s' y ≡ x
  pub far_y : far s' y ≡ far s y
  pub parent_x : s'.parent x ≡ y
  pub parent_y : s'.parent y ≡ up
  pub parent_b : b ≢ s.nil → s'.parent b ≡ x
  pub root : up ≡ s.nil → s'.root ≡ y
  pub root_kept : up ≢ s.nil → s'.root ≡ s.root
  pub near_up : up ≢ s.nil → near s up ≡ x → (near s' up ≡ y) × (far s' up ≡ far s up)
  pub far_up : up ≢ s.nil → near s up ≢ x → (far s' up ≡ y) × (near s' up ≡ near s up)
  pub children : (q : ℕ) → q ≢ x → q ≢ y → q ≢ up → (near s' q ≡ near s q) × (far s' q ≡ far s q)
  pub parents : (q : ℕ) → q ≢ x → q ≢ y → q ≢ b → s'.parent q ≡ s.parent q

abbrev pub left_of : Table → ℕ → ℕ
left_of s = s.left

abbrev pub right_of : Table → ℕ → ℕ
right_of s = s.right

module _ (s : Table) (x y b up : ℕ) where
  pub rotateleft-Turned :
      Turnable s left_of right_of x y b up
      → Turned s (std_rbtree_rotateleft s x) left_of right_of x y b up
  unfolding std_rbtree_rotateleft put
  rotateleft-Turned t = record {
    nil = ground arith;
    near_x = ground arith;
    far_x = ground arith;
    near_y = ground arith;
    far_y = ground arith;
    parent_x = ground arith;
    parent_y = ground arith;
    parent_b = ground arith;
    root = ground arith;
    root_kept = ground arith;
    near_up = ground arith;
    far_up = ground arith;
    children = ground arith;
    parents = ground arith;
  }

  pub rotateright-Turned :
      Turnable s right_of left_of x y b up
      → Turned s (std_rbtree_rotateright s x) right_of left_of x y b up
  unfolding std_rbtree_rotateright put
  rotateright-Turned t = record {
    nil = ground arith;
    near_x = ground arith;
    far_x = ground arith;
    near_y = ground arith;
    far_y = ground arith;
    parent_x = ground arith;
    parent_y = ground arith;
    parent_b = ground arith;
    root = ground arith;
    root_kept = ground arith;
    near_up = ground arith;
    far_up = ground arith;
    children = ground arith;
    parents = ground arith;
  }
