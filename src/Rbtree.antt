-- ===== src/Rbtree.antt =====
-- src/std_rbtree.c and sonic/std_rbtree.h: a red-black tree of the caller's data, by pointers.
-- A node is an address and 0 is the null pointer; the fields of all nodes are functions of the
-- address. `nil` is the address of the table's own node, which stands for a missing child and for the
-- parent of the root. The compare function of the table is a parameter, on two data pointers.
-- A loop runs on fuel, and `none` is a loop that does not end within it.
pub mod Shape
pub mod Order
pub mod Answers
pub mod Nearest
pub mod Search
pub mod Visit
pub mod Rotation
pub mod Zipper
pub mod Apart
pub mod Turn
pub mod Whole
pub mod Place
pub mod Sides
pub mod Colours
pub mod Heights
pub mod Previous
pub mod Insertion
pub mod Removal
pub mod Walking
mod Tests
mod Runs
use mathlib.Core.Option
use sonic_common_utils.Base.{
  ℕ, zero, suc, Bool, true, false, ◌&&◌, not, Option, none, some, List, [], ◌∷◌, ◌++◌,
  if◌then◌else◌, ◌==◌, put,
}
use sonic_common_utils.Base.Int.{ℤ, is_neg, is_zero}

-- `std_rbtree_table` and the nodes that it leads to.
pub record Table : Type 0 where
  pub nil : ℕ
  pub root : ℕ
  pub left : ℕ → ℕ
  pub right : ℕ → ℕ
  pub parent : ℕ → ℕ
  pub item : ℕ → ℕ
  pub red : ℕ → Bool
  pub numinodes : ℕ
  pub numinserts : ℕ
  pub numremoved : ℕ
  pub nummallocs : ℕ
  pub numfrees : ℕ

abbrev pub set_left : Table → ℕ → ℕ → Table
set_left s p q = record s { left = put s.left p q }

abbrev pub set_right : Table → ℕ → ℕ → Table
set_right s p q = record s { right = put s.right p q }

abbrev pub set_red : Table → ℕ → Bool → Table
set_red s p b = record s { red = put s.red p b }

abbrev pub set_parent : Table → ℕ → ℕ → Table
set_parent s p q = record s { parent = put s.parent p q }

-- The table that `std_rbtree_create` leaves at a block whose own node is at `nil`; the fields of all
-- other memory are those of `s`.
pub std_rbtree_create : (nil : ℕ) → Table → Table
unfolding put
std_rbtree_create nil s = record s {
  nil = nil;
  root = nil;
  left = put s.left nil nil;
  right = put s.right nil nil;
  parent = put s.parent nil nil;
  red = put s.red nil false;
  numinodes = 0;
  numinserts = 0;
  numremoved = 0;
  nummallocs = 0;
  numfrees = 0;
}

pub std_rbtree_rotateleft : Table → ℕ → Table
unfolding put
std_rbtree_rotateleft s x =
    let y = s.right x in
    let s1 = set_right s x (s.left y) in
    let s2 = if s1.left y == s.nil then s1 else set_parent s1 (s1.left y) x in
    let s3 = set_parent s2 y (s2.parent x) in
    let up = s3.parent x in
    let s4 =
      if up == s.nil
      then record s3 { root = y }
      else (if x == s3.left up then set_left s3 up y else set_right s3 up y) in
    let s5 = set_left s4 y x in set_parent s5 x y

pub std_rbtree_rotateright : Table → ℕ → Table
unfolding put
std_rbtree_rotateright s x =
    let y = s.left x in
    let s1 = set_left s x (s.right y) in
    let s2 = if s1.right y == s.nil then s1 else set_parent s1 (s1.right y) x in
    let s3 = set_parent s2 y (s2.parent x) in
    let up = s3.parent x in
    let s4 =
      if up == s.nil
      then record s3 { root = y }
      else (if x == s3.right up then set_right s3 up y else set_left s3 up y) in
    let s5 = set_right s4 y x in set_parent s5 x y

-- `if (x == NIL(rbtt)) return (std_rbtree_node *)0; else return x;`
pub null_if_nil : Table → ℕ → ℕ
null_if_nil s x = if x == s.nil then 0 else x

-- `while (x->rbt_left != NIL(rbtt)) x = x->rbt_left;`
pub leftmost : ℕ → Table → ℕ → Option ℕ
leftmost zero s x = none
leftmost (suc fuel) s x = elim (s.left x == s.nil) [
  | true ↦ some x
  | false ↦ leftmost fuel s (s.left x)
]

-- `while (y != NIL(rbtt) && x == y->rbt_right) { x = y; y = x->rbt_parent; }`
pub climb : ℕ → Table → (x y : ℕ) → Option ℕ
climb zero s x y = none
climb (suc fuel) s x y = elim (not (y == s.nil) && x == s.right y) [
  | true ↦ climb fuel s y (s.parent y)
  | false ↦ some y
]

-- `_std_rbtree_getfirst`
pub node_getfirst : ℕ → Table → Option ℕ
unfolding leftmost null_if_nil
node_getfirst fuel s =
    Option.map (null_if_nil s) (if s.root == s.nil then some s.root else leftmost fuel s s.root)

-- `_std_rbtree_getnext`, but for its test of a null pointer.
pub successor : ℕ → Table → ℕ → Option ℕ
unfolding climb leftmost
successor fuel s x =
    if s.right x == s.nil then climb fuel s x (s.parent x) else leftmost fuel s (s.right x)

-- `_std_rbtree_getnext`
pub node_getnext : ℕ → Table → ℕ → Option ℕ
unfolding successor null_if_nil
node_getnext fuel s x = if x == 0 then some 0 else Option.map (null_if_nil s) (successor fuel s x)

-- The loop of `_std_rbtree_getexact`.
pub search : ℕ → (ℕ → ℕ → ℤ) → Table → (key x : ℕ) → Option ℕ
search zero cmp s key x = none
search (suc fuel) cmp s key x = elim (x == s.nil) [
  | true ↦ some x
  | false ↦ elim (is_zero (cmp key (s.item x))) [
    | true ↦ some x
    | false ↦ elim (is_neg (cmp key (s.item x))) [
      | true ↦ search fuel cmp s key (s.left x)
      | false ↦ search fuel cmp s key (s.right x)
    ]
  ]
]

-- `_std_rbtree_getexact`
pub node_getexact : ℕ → (ℕ → ℕ → ℤ) → Table → ℕ → Option ℕ
unfolding search null_if_nil
node_getexact fuel cmp s key = Option.map (null_if_nil s) (search fuel cmp s key s.root)

-- `if (x) return x->rbt_data; else return (void *)0;`
abbrev pub item_or_null : Table → ℕ → ℕ
item_or_null s x = if x == 0 then 0 else s.item x

-- The loop of `_std_rbtree_getexactornext`; `steps` is the fuel of the climb inside it.
pub search_next : (fuel steps : ℕ) → (ℕ → ℕ → ℤ) → Table → (key x : ℕ) → Option ℕ
unfolding climb
search_next zero steps cmp s key x = none
search_next (suc fuel) steps cmp s key x = elim (x == s.nil) [
  | true ↦ some x
  | false ↦ elim (is_zero (cmp key (s.item x))) [
    | true ↦ some x
    | false ↦ elim (is_neg (cmp key (s.item x))) [
      | true ↦ elim (s.left x == s.nil) [
        | true ↦ some x
        | false ↦ search_next fuel steps cmp s key (s.left x)
      ]
      | false ↦ elim (s.right x == s.nil) [
        | true ↦ climb steps s x (s.parent x)
        | false ↦ search_next fuel steps cmp s key (s.right x)
      ]
    ]
  ]
]

-- `_std_rbtree_getexactornext`
pub node_getexactornext : ℕ → (ℕ → ℕ → ℤ) → Table → ℕ → Option ℕ
unfolding search_next null_if_nil
node_getexactornext fuel cmp s key =
    Option.map (null_if_nil s) (search_next fuel fuel cmp s key s.root)

-- The data that `_std_rbtree_rwalk` calls back with, in the order of the calls; what a call returns is
-- ignored. The fuel bounds the depth of the recursion.
pub rwalk : ℕ → Table → ℕ → Option (List ℕ)
unfolding Option.bind
rwalk zero s x = none
rwalk (suc fuel) s x = elim (x == s.nil) [
  | true ↦ some []
  | false ↦
      Option.bind (rwalk fuel s (s.left x))
        λ before. Option.map (λ after. before ++ (s.item x ∷ after)) (rwalk fuel s (s.right x))
]

pub std_rbtree_rwalk : ℕ → Table → Option (List ℕ)
unfolding rwalk
std_rbtree_rwalk fuel s = rwalk fuel s s.root

pub std_rbtree_getfirst : ℕ → Table → Option ℕ
unfolding node_getfirst
std_rbtree_getfirst fuel s = Option.map (item_or_null s) (node_getfirst fuel s)

pub std_rbtree_getexact : ℕ → (ℕ → ℕ → ℤ) → Table → ℕ → Option ℕ
unfolding node_getexact
std_rbtree_getexact fuel cmp s key = Option.map (item_or_null s) (node_getexact fuel cmp s key)

pub std_rbtree_getexactornext : ℕ → (ℕ → ℕ → ℤ) → Table → ℕ → Option ℕ
unfolding node_getexactornext
std_rbtree_getexactornext fuel cmp s key =
    Option.map (item_or_null s) (node_getexactornext fuel cmp s key)

-- `std_rbtree_getnext` of the data `key`.
pub std_rbtree_getnext : ℕ → (ℕ → ℕ → ℤ) → Table → ℕ → Option ℕ
unfolding node_getexact node_getnext node_getexactornext Option.bind
std_rbtree_getnext fuel cmp s key =
    if key == 0
    then some 0
    else Option.bind (node_getexact fuel cmp s key) λ x.
      Option.map (item_or_null s)
        (if x == 0 then node_getexactornext fuel cmp s key else node_getnext fuel s x)
