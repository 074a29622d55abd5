-- ===== src/Rbtree/Tests.antt =====
-- The tree of src/std_rbtree.c on concrete nodes: `nil` at 1, and the nodes 4, 5, 6 with the data 40,
-- 50, 60.
use sonic_common_utils.Base.{
  ℕ, ◌≡◌, refl, true, false, some, [], ◌∷◌, ◌*◌, ◌<◌, ◌+◌, ◌^◌, length, map, arith, ltb, ◌==◌,
  if◌then◌else◌, put,
}
use sonic_common_utils.Base.Int.{ℤ, is_neg}
use sonic_common_utils.Rbtree.{
  Table, std_rbtree_rwalk, std_rbtree_rotateleft, std_rbtree_rotateright, node_getfirst,
  node_getnext, std_rbtree_getnext, std_rbtree_getexactornext, node_getexact, node_getexactornext,
  std_rbtree_getexact,
}
use sonic_common_utils.Rbtree.Heights.{getexact_logarithmic-Answer}
use sonic_common_utils.Rbtree.Insertion.Repeated.{Valid}
use sonic_common_utils.Rbtree.Shape.{Tree, leaf, branch, inorder, count, IsTree}
use sonic_common_utils.Rbtree.Visit.{visit, visit_tree_all, std_rbtree_rwalk-visit}
use sonic_common_utils.Rbtree.Answers.{Nearest}
use sonic_common_utils.Rbtree.Nearest.{node_getexactornext-Nearest}
use sonic_common_utils.Rbtree.Insertion.{node_insert}
use sonic_common_utils.Rbtree.Insertion.Inserted.{Inserted, node_insert-Inserted}
use sonic_common_utils.Rbtree.Search.{IsCompare, Ordered, Answer, node_getexact-Answer}

abbrev by_value : ℕ → ℕ → ℤ
by_value a b = if ltb a b then ℤ.negsuc 0 else if a == b then ℤ.pos 0 else ℤ.pos 1

by_value-IsCompare : IsCompare by_value
by_value-IsCompare = record {
  opposite = λ a b e f. ground arith;
  equal = λ a b e. ground arith;
  between = λ a b c e f. ground arith;
}

-- 5 is the root, 4 its left and 6 its right child.
abbrev table : Table
table = record {
  nil = 1;
  root = 5;
  left = put (λ p. 1) 5 4;
  right = put (λ p. 1) 5 6;
  parent = put (put (λ p. 1) 4 5) 6 5;
  item = λ p. p * 10;
  red = put (put (λ p. false) 4 true) 6 true;
  numinodes = 3;
  numinserts = 3;
  numremoved = 0;
  nummallocs = 3;
  numfrees = 0;
}

abbrev tree : Tree
tree = branch (branch leaf 4 leaf) 5 (branch leaf 6 leaf)

table-IsTree : IsTree table tree
unfolding put inorder
table-IsTree = record {
  rep = (
    refl,
    omega arith,
    refl,
    (refl, omega arith, refl, refl, refl),
    (refl, omega arith, refl, refl, refl),
  );
  distinct = omega arith;
  not_null = omega arith;
}

small : count tree < 4
unfolding count
small = omega arith

rounds_enough : length (inorder tree) < 4
unfolding inorder
rounds_enough = omega arith

visit_tree_all_example : visit 4 4 table (node_getfirst 4 table) ≡ inorder tree
visit_tree_all_example = visit_tree_all table 4 4 tree table-IsTree small rounds_enough

std_rbtree_rwalk-visit_example :
    std_rbtree_rwalk 4 table ≡ some (map table.item (visit 4 4 table (node_getfirst 4 table)))
std_rbtree_rwalk-visit_example =
    std_rbtree_rwalk-visit table 4 4 tree table-IsTree small rounds_enough

in_order : Ordered by_value table (inorder tree)
unfolding inorder
in_order = ((refl, (refl, tt)), ((refl, tt), (tt, tt)))

node_getexact-Answer_example :
    (x : ℕ) × (node_getexact 4 by_value table 60 ≡ some x)
    × Answer by_value table 0 60 (inorder tree) x
node_getexact-Answer_example =
    node_getexact-Answer by_value table by_value-IsCompare 60 4 tree table-IsTree in_order small

node_getexactornext-Nearest_example :
    (x : ℕ) × (node_getexactornext 4 by_value table 45 ≡ some x)
    × Nearest by_value table 0 45 (inorder tree) x
node_getexactornext-Nearest_example =
    node_getexactornext-Nearest by_value table by_value-IsCompare 45 4 tree table-IsTree in_order
      small

next_above : node_getexactornext 4 by_value table 45 ≡ some 5
unfolding node_getexactornext put
next_above = refl

none_above : node_getexactornext 4 by_value table 65 ≡ some 0
unfolding node_getexactornext put
none_above = refl

found : std_rbtree_getexact 4 by_value table 60 ≡ some 60
unfolding std_rbtree_getexact put
found = refl

next_of_found : std_rbtree_getnext 4 by_value table 50 ≡ some 60
unfolding std_rbtree_getnext put
next_of_found = refl

next_of_missing : std_rbtree_getnext 4 by_value table 45 ≡ some 50
unfolding std_rbtree_getnext put
next_of_missing = refl

at_or_above : std_rbtree_getexactornext 4 by_value table 41 ≡ some 50
unfolding std_rbtree_getexactornext put
at_or_above = refl

not_found : std_rbtree_getexact 4 by_value table 55 ≡ some 0
unfolding std_rbtree_getexact put
not_found = refl

-- A rotation keeps the nodes in order, and the opposite one takes it back.
rotated : let s = std_rbtree_rotateleft table 5 in visit 4 4 s (node_getfirst 4 s) ≡ 4 ∷ 5 ∷ 6 ∷ []
unfolding std_rbtree_rotateleft visit node_getfirst node_getnext put
rotated = refl

rotated_root : (std_rbtree_rotateleft table 5).root ≡ 6
unfolding std_rbtree_rotateleft
rotated_root = refl

rotated_back : (std_rbtree_rotateright (std_rbtree_rotateleft table 5) 6).root ≡ 5
unfolding std_rbtree_rotateleft std_rbtree_rotateright
rotated_back = refl

-- The node 7 has the data 70.
node_insert-Inserted_example : Inserted by_value table 7 tree (node_insert 4 by_value table 7)
unfolding inorder put
node_insert-Inserted_example =
    node_insert-Inserted by_value table 7 4 by_value-IsCompare tree table-IsTree in_order refl
      (omega arith) (omega arith) (omega arith) small

by_value_asym : (a b : ℕ) → is_neg (by_value a b) ≡ true → is_neg (by_value b a) ≡ false
by_value_asym a b h = ground arith

table-Valid : Valid by_value by_value-IsCompare by_value_asym table tree
unfolding put inorder
table-Valid = record {
  shape = table-IsTree;
  ordered = in_order;
  root_black = refl;
  rules = (
    1,
    (
      0,
      refl,
      (λ e. absurd (cc)),
      (0, refl, (λ e. (refl, refl)), refl, refl),
      (0, refl, (λ e. (refl, refl)), refl, refl),
    ),
  );
}

rounds_logarithmic : (count tree + 1) * (count tree + 1) < 2 ^ 5
unfolding count
rounds_logarithmic = omega arith

getexact_logarithmic-Answer_example :
    (x : ℕ) × (node_getexact 5 by_value table 60 ≡ some x)
    × Answer by_value table 0 60 (inorder tree) x
getexact_logarithmic-Answer_example =
    getexact_logarithmic-Answer by_value by_value-IsCompare by_value_asym table tree 5 60
      table-Valid rounds_logarithmic
