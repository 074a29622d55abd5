-- ===== src/Rbtree/Insertion.antt =====
-- Insertion into the red-black tree of src/std_rbtree.c.
-- In the source the two halves of the loop of `std_rbtree_balanceoninsert` are mirror images.
pub mod Rules
pub mod Painted
pub mod Round
pub mod Uncle
pub mod Loop
pub mod Ending
pub mod Descent
pub mod Hanging
pub mod Inserted
pub mod Repeated
use mathlib.Core.Option
use sonic_common_utils.Base.{
  ℕ, zero, suc, ◌+◌, ◌%◌, ◌^◌, Bool, true, false, ◌&&◌, not, Option, none, some, if◌then◌else◌,
  ◌==◌, put,
}
use sonic_common_utils.Base.Int.{ℤ, is_neg}
use sonic_common_utils.Rbtree.{
  Table, set_left, set_right, set_parent, set_red, std_rbtree_rotateleft, std_rbtree_rotateright,
}

-- One round of the loop, for a node whose parent is a left child; the next node comes with it.
pub balance_under_left : Table → ℕ → Table × ℕ
unfolding put std_rbtree_rotateleft std_rbtree_rotateright
balance_under_left s x =
    let y = s.right (s.parent (s.parent x)) in
    if not (y == s.nil) && s.red y
    then (let s1 = set_red (set_red s (s.parent x) false) y false in
        (set_red s1 (s1.parent (s1.parent x)) true, s1.parent (s1.parent x)))
    else (let inner = x == s.right (s.parent x) in
        let x1 = if inner then s.parent x else x in
        let s1 = if inner then std_rbtree_rotateleft s x1 else s in
        let s2 = set_red s1 (s1.parent x1) false in
        let s3 = set_red s2 (s2.parent (s2.parent x1)) true in
        (std_rbtree_rotateright s3 (s3.parent (s3.parent x1)), x1))

-- The same for a node whose parent is a right child.
pub balance_under_right : Table → ℕ → Table × ℕ
unfolding put std_rbtree_rotateleft std_rbtree_rotateright
balance_under_right s x =
    let y = s.left (s.parent (s.parent x)) in
    if not (y == s.nil) && s.red y
    then (let s1 = set_red (set_red s (s.parent x) false) y false in
        (set_red s1 (s1.parent (s1.parent x)) true, s1.parent (s1.parent x)))
    else (let inner = x == s.left (s.parent x) in
        let x1 = if inner then s.parent x else x in
        let s1 = if inner then std_rbtree_rotateright s x1 else s in
        let s2 = set_red s1 (s1.parent x1) false in
        let s3 = set_red s2 (s2.parent (s2.parent x1)) true in
        (std_rbtree_rotateleft s3 (s3.parent (s3.parent x1)), x1))

-- One round, of either kind.
pub balance_round : Table → ℕ → Table × ℕ
unfolding balance_under_left balance_under_right
balance_round s x =
    if s.parent x == s.left (s.parent (s.parent x))
    then balance_under_left s x
    else balance_under_right s x

-- The loop from `x` on, and the write that follows it.
pub balance_loop : ℕ → Table → ℕ → Option Table
unfolding put balance_round
balance_loop zero s x = none
balance_loop (suc fuel) s x = elim (not (x == s.root) && s.red (s.parent x)) [
  | true ↦ balance_loop fuel (balance_round s x).0 (balance_round s x).1
  | false ↦ some (set_red s s.root false)
]

pub std_rbtree_balanceoninsert : ℕ → Table → ℕ → Option Table
unfolding put balance_loop
std_rbtree_balanceoninsert fuel s x = balance_loop fuel (set_red s x true) x

-- The loop that goes down to the place for the data of `z`, from the node `x` with the parent `y`; it
-- returns the parent of the place.
pub place_under : ℕ → (ℕ → ℕ → ℤ) → Table → (z y x : ℕ) → Option ℕ
place_under zero cmp s z y x = none
place_under (suc fuel) cmp s z y x = elim (x == s.nil) [
  | true ↦ some y
  | false ↦ elim (is_neg (cmp (s.item z) (s.item x))) [
    | true ↦ place_under fuel cmp s z x (s.left x)
    | false ↦ place_under fuel cmp s z x (s.right x)
  ]
]

-- The writes that hang `z` under `y`.
pub hang : (ℕ → ℕ → ℤ) → Table → (z y : ℕ) → Table
unfolding put
hang cmp s z y =
    let s1 = set_right (set_left (set_parent s z y) z s.nil) z s.nil in
    if y == s.nil
    then record s1 { root = z }
    else (if is_neg (cmp (s1.item z) (s1.item y)) then set_left s1 y z else set_right s1 y z)

abbrev pub count_insert : Table → Table
count_insert t = record t {
  numinserts = (t.numinserts + 1) % 2 ^ 64;
  numinodes = (t.numinodes + 1) % 2 ^ 64;
}

-- `_std_rbtree_insert`, which returns `z`; the counters are 64-bit.
pub node_insert : ℕ → (ℕ → ℕ → ℤ) → Table → ℕ → Option Table
unfolding place_under hang std_rbtree_balanceoninsert Option.bind
node_insert fuel cmp s z =
    Option.bind (place_under fuel cmp s z s.nil s.root)
      λ y. Option.map count_insert (std_rbtree_balanceoninsert fuel (hang cmp s z y) z)

-- `std_rbtree_insert` of the data `item`, where `rbtt_malloc` returns `z`: the table, and whether the result is
-- `STD_ERR_OK`. Since `_std_rbtree_insert` returns its argument, the branch that frees is not taken.
unfoldable pub std_rbtree_insert : ℕ → (ℕ → ℕ → ℤ) → Table → (z item : ℕ) → Option (Table × Bool)
unfolding put node_insert
std_rbtree_insert fuel cmp s z item =
    if z == 0
    then some (s, false)
    else Option.map (λ t. (t, true))
        (node_insert fuel cmp
          (record s { item = put s.item z item; nummallocs = (s.nummallocs + 1) % 2 ^ 64 }) z)
