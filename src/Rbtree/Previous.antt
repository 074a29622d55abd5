-- ===== src/Rbtree/Previous.antt =====
-- `_std_rbtree_getexactorprev` of src/std_rbtree.c: the node at a key or the one before it.
use mathlib.Core.Option
use sonic_common_utils.Base.{ℕ, zero, suc, true, false, ◌&&◌, not, Option, none, some, ◌==◌}
use sonic_common_utils.Base.Int.{ℤ, is_neg, is_zero}
use sonic_common_utils.Rbtree.{Table, null_if_nil, item_or_null}

-- The loop of `_std_rbtree_getexactorprev`, with the climb inside it.
pub climb_left : ℕ → Table → (x y : ℕ) → Option ℕ
climb_left zero s x y = none
climb_left (suc fuel) s x y = elim (not (y == s.nil) && x == s.left y) [
  | true ↦ climb_left fuel s y (s.parent y)
  | false ↦ some y
]

pub search_prev : (fuel steps : ℕ) → (ℕ → ℕ → ℤ) → Table → (key x : ℕ) → Option ℕ
unfolding climb_left
search_prev zero steps cmp s key x = none
search_prev (suc fuel) steps cmp s key x = elim (x == s.nil) [
  | true ↦ some x
  | false ↦ elim (is_zero (cmp key (s.item x))) [
    | true ↦ some x
    | false ↦ elim (is_neg (cmp key (s.item x))) [
      | true ↦ elim (s.left x == s.nil) [
        | true ↦ climb_left steps s x (s.parent x)
        | false ↦ search_prev fuel steps cmp s key (s.left x)
      ]
      | false ↦ elim (s.right x == s.nil) [
        | true ↦ some x
        | false ↦ search_prev fuel steps cmp s key (s.right x)
      ]
    ]
  ]
]

-- `_std_rbtree_getexactorprev`
pub node_getexactorprev : ℕ → (ℕ → ℕ → ℤ) → Table → ℕ → Option ℕ
unfolding search_prev null_if_nil
node_getexactorprev fuel cmp s key =
    Option.map (null_if_nil s) (search_prev fuel fuel cmp s key s.root)

unfoldable pub std_rbtree_getexactorprev : ℕ → (ℕ → ℕ → ℤ) → Table → ℕ → Option ℕ
unfolding node_getexactorprev
std_rbtree_getexactorprev fuel cmp s key =
    Option.map (item_or_null s) (node_getexactorprev fuel cmp s key)
