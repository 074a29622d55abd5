-- ===== src/Rbtree/Removal.antt =====
-- Removal from the red-black tree of src/std_rbtree.c.
use mathlib.Core.Option
use sonic_common_utils.Base.{
  ℕ, zero, suc, ◌+◌, ◌-◌, ◌%◌, ◌^◌, true, false, ◌&&◌, ◌||◌, not, Option, none, some, if◌then◌else◌,
  ◌==◌, put,
}
use sonic_common_utils.Base.Int.{ℤ}
use sonic_common_utils.Rbtree.{
  Table, set_left, set_right, set_parent, set_red, std_rbtree_rotateleft, std_rbtree_rotateright,
  node_getnext, node_getexact,
}

-- `w`, the sibling on the right, is made black by a turn if it is red.
pub blacken_right : Table → ℕ → Table
unfolding put std_rbtree_rotateleft
blacken_right s x =
    let w = s.right (s.parent x) in
    if s.red w
    then std_rbtree_rotateleft (set_red (set_red s w false) (s.parent x) true) (s.parent x)
    else s

-- The rest of a round where the sibling on the right is not the table's own node: the next node
-- comes with the table.
pub lift_right : Table → ℕ → Table × ℕ
unfolding put std_rbtree_rotateleft std_rbtree_rotateright
lift_right s x =
    let w = s.right (s.parent x) in
    if not (s.red (s.left w)) && not (s.red (s.right w))
    then (set_red s w true, s.parent x)
    else (let s1 =
          if not (s.red (s.right w))
          then std_rbtree_rotateright (set_red (set_red s (s.left w) false) w true) w
          else s in
        let v = if not (s.red (s.right w)) then s1.right (s1.parent x) else w in
        let s2 = set_red (set_red s1 v (s1.red (s1.parent x))) (s1.parent x) false in
        let s3 = std_rbtree_rotateleft (set_red s2 (s2.right v) false) (s2.parent x) in
        (s3, s3.root))

-- The mirror images of the two.
pub blacken_left : Table → ℕ → Table
unfolding put std_rbtree_rotateright
blacken_left s x =
    let w = s.left (s.parent x) in
    if s.red w
    then std_rbtree_rotateright (set_red (set_red s w false) (s.parent x) true) (s.parent x)
    else s

pub lift_left : Table → ℕ → Table × ℕ
unfolding put std_rbtree_rotateleft std_rbtree_rotateright
lift_left s x =
    let w = s.left (s.parent x) in
    if not (s.red (s.left w)) && not (s.red (s.right w))
    then (set_red s w true, s.parent x)
    else (let s1 =
          if not (s.red (s.left w))
          then std_rbtree_rotateleft (set_red (set_red s (s.right w) false) w true) w
          else s in
        let v = if not (s.red (s.left w)) then s1.left (s1.parent x) else w in
        let s2 = set_red (set_red s1 v (s1.red (s1.parent x))) (s1.parent x) false in
        let s3 = std_rbtree_rotateright (set_red s2 (s2.left v) false) (s2.parent x) in
        (s3, s3.root))

-- The loop of `std_rbtree_balanceonremove`, which `break` leaves too, and the write that follows it.
pub lift_loop : ℕ → Table → ℕ → Option Table
unfolding put blacken_right lift_right blacken_left lift_left
lift_loop zero s x = none
lift_loop (suc fuel) s x = elim (not (x == s.root) && not (s.red x)) [
  | false ↦ some (set_red s x false)
  | true ↦ elim (x == s.left (s.parent x)) [
    | true ↦
        let s1 = blacken_right s x in
        elim (s1.right (s1.parent x) == s1.nil) [
          | true ↦ some (set_red s1 x false)
          | false ↦ lift_loop fuel (lift_right s1 x).0 (lift_right s1 x).1
        ]
    | false ↦
        let s1 = blacken_left s x in
        elim (s1.left (s1.parent x) == s1.nil) [
          | true ↦ some (set_red s1 x false)
          | false ↦ lift_loop fuel (lift_left s1 x).0 (lift_left s1 x).1
        ]
  ]
]

pub std_rbtree_balanceonremove : ℕ → Table → ℕ → Option Table
unfolding lift_loop
std_rbtree_balanceonremove fuel s x = lift_loop fuel s x

-- Taking `y`, which has one child at most, out of the chain of its parent: the table and the child.
pub unhang : Table → ℕ → Table × ℕ
unfolding put
unhang s y =
    let x = if s.left y == s.nil then s.right y else s.left y in
    let s1 = set_parent s x (s.parent y) in
    let up = s1.parent y in
    (
      if up == s1.nil
          then record s1 { root = x }
          else (if y == s1.left up then set_left s1 up x else set_right s1 up x),
      x,
    )

-- `y` takes the place of `z`.
pub take_place : Table → (y z : ℕ) → Table
unfolding put
take_place s y z =
    let s1 = if s.root == z then record s { root = y } else s in
    let s2 = set_parent s1 y (s1.parent z) in
    let s3 = set_right (set_left s2 y (s2.left z)) y (s2.right z) in
    let s4 = set_red s3 y (s3.red z) in
    let up = s4.parent y in
    let s5 =
      if up == s4.nil
      then s4
      else (if s4.left up == z then set_left s4 up y else set_right s4 up y) in
    let s6 = if s5.left y == s5.nil then s5 else set_parent s5 (s5.left y) y in
    if s6.right y == s6.nil then s6 else set_parent s6 (s6.right y) y

-- What follows the balancing in `_std_rbtree_remove`.
pub finish_remove : Table → (y z : ℕ) → Table
unfolding put take_place
finish_remove s y z =
    let s1 = if y == z then s else take_place s y z in
    record (set_left (set_right (set_parent s1 z s1.nil) z s1.nil) z s1.nil) {
      numremoved = (s1.numremoved + 1) % 2 ^ 64;
      numinodes = (s1.numinodes + 2 ^ 64 - 1) % 2 ^ 64;
    }

-- `_std_rbtree_remove`
pub node_remove : ℕ → Table → ℕ → Option Table
unfolding node_getnext unhang std_rbtree_balanceonremove finish_remove Option.bind
node_remove fuel s z =
    Option.bind (if s.left z == s.nil || s.right z == s.nil then some z else node_getnext fuel s z)
      λ y.
        let (s1, x) = unhang s y in
        Option.map (λ t. finish_remove t y z)
          (if s1.red y then some s1 else std_rbtree_balanceonremove fuel s1 x)

-- `std_rbtree_remove` of the data `key`: the table, and the data of the node removed, or null. What
-- `rbtt_free` does with the node is not seen by the table.
unfoldable pub std_rbtree_remove : ℕ → (ℕ → ℕ → ℤ) → Table → ℕ → Option (Table × ℕ)
unfolding node_getexact node_remove Option.bind
std_rbtree_remove fuel cmp s key = Option.bind (node_getexact fuel cmp s key) λ x.
    if x == 0
    then some (s, 0)
    else Option.map (λ t. (record t { numfrees = (t.numfrees + 1) % 2 ^ 64 }, t.item x))
        (node_remove fuel s x)
