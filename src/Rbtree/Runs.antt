-- ===== src/Rbtree/Runs.antt =====
-- Insertions into the tree of src/std_rbtree.c, removals from it and walks through it.
use mathlib.Core.Option
use sonic_common_utils.Base.{
  arith, ℕ, ◌+◌, ◌≡◌, refl, Bool, true, false, Option, some, List, [], ◌∷◌, ◌++◌, ltb, ◌==◌,
  if◌then◌else◌, put,
}
use sonic_common_utils.Base.Int.{ℤ, is_neg}
use sonic_common_utils.Rbtree.{
  Table, std_rbtree_create, std_rbtree_rwalk, std_rbtree_rotateleft, std_rbtree_rotateright,
  node_getexact, node_getnext,
}
use sonic_common_utils.Rbtree.Previous.{std_rbtree_getexactorprev}
use sonic_common_utils.Rbtree.Insertion.{std_rbtree_insert}
use sonic_common_utils.Rbtree.Insertion.Repeated.{
  insert_nodes, insert_each, Valid, insert_nodes-Valid,
}
use sonic_common_utils.Rbtree.Insertion.Descent.{insert}
use sonic_common_utils.Rbtree.Search.{IsCompare}
use sonic_common_utils.Rbtree.Shape.{Tree, leaf, inorder}
use sonic_common_utils.Rbtree.Removal.{std_rbtree_remove}
use sonic_common_utils.Rbtree.Walking.{std_rbtree_walk}

abbrev by_value : ℕ → ℕ → ℤ
by_value a b = if ltb a b then ℤ.negsuc 0 else if a == b then ℤ.pos 0 else ℤ.pos 1

by_value-IsCompare : IsCompare by_value
by_value-IsCompare = record {
  opposite = λ a b e f. ground arith;
  equal = λ a b e. ground arith;
  between = λ a b c e f. ground arith;
}

by_value_asym : (a b : ℕ) → is_neg (by_value a b) ≡ true → is_neg (by_value b a) ≡ false
by_value_asym a b h = ground arith

abbrev nothing : Table
nothing = record {
  nil = 0;
  root = 0;
  left = λ p. 0;
  right = λ p. 0;
  parent = λ p. 0;
  item = λ p. 0;
  red = λ p. false;
  numinodes = 0;
  numinserts = 0;
  numremoved = 0;
  nummallocs = 0;
  numfrees = 0;
}

-- The data are put in one after the other, into nodes from `z` on.
abbrev insert_all : Table → ℕ → List ℕ → Option Table
insert_all s z [] = some s
insert_all s z (x ∷ xs) =
    Option.bind (std_rbtree_insert 20 by_value s z x) λ r. insert_all r.0 (z + 1) xs

abbrev remove_all : Table → List ℕ → Option Table
remove_all s [] = some s
remove_all s (x ∷ xs) = Option.bind (std_rbtree_remove 20 by_value s x) λ r. remove_all r.0 xs

abbrev empty : Table
empty = std_rbtree_create 1 nothing

-- The nodes 2, 3 and 4 with the data 70, 30 and 50.
abbrev three : Table
three = record empty { item = put (put (put (λ p. 0) 2 70) 3 30) 4 50 }

three-Valid : Valid by_value by_value-IsCompare by_value_asym three leaf
unfolding std_rbtree_create put inorder
three-Valid = record {
  shape = record { rep = refl; distinct = tt; not_null = tt };
  ordered = tt;
  root_black = refl;
  rules = (0, refl);
}

abbrev note : List ℕ → ℕ → List ℕ × Bool
note seen x = (seen ++ (x ∷ []), false)

abbrev filled : Option Table
filled = insert_all empty 2 (7 ∷ 3 ∷ 5 ∷ 1 ∷ 2 ∷ 6 ∷ 4 ∷ [])

in_order : Option.bind filled (std_rbtree_rwalk 20) ≡ some (1 ∷ 2 ∷ 3 ∷ 4 ∷ 5 ∷ 6 ∷ 7 ∷ [])
unfolding std_rbtree_create std_rbtree_insert std_rbtree_rwalk put Option.bind std_rbtree_rotateleft
    std_rbtree_rotateright
in_order = refl

counted : Option.map {B = ℕ × ℕ} (λ s. (s.numinodes, s.nummallocs)) filled ≡ some (7, 7)
unfolding std_rbtree_create std_rbtree_insert put Option.bind std_rbtree_rotateleft
    std_rbtree_rotateright
counted = refl

some_removed :
    Option.bind
      (Option.bind filled (λ s. remove_all s (5 ∷ 1 ∷ 9 ∷ 7 ∷ 3 ∷ [])))
      (std_rbtree_rwalk 20)
    ≡ some (2 ∷ 4 ∷ 6 ∷ [])
unfolding std_rbtree_create std_rbtree_insert std_rbtree_remove std_rbtree_rwalk put Option.bind
    std_rbtree_rotateleft std_rbtree_rotateright node_getexact node_getnext
some_removed = refl

walked :
    Option.bind filled (λ s. std_rbtree_walk (some note) false s 40 by_value [] 3 3)
    ≡ some (4 ∷ 5 ∷ 6 ∷ [], 6)
unfolding std_rbtree_create std_rbtree_insert std_rbtree_walk put Option.bind std_rbtree_rotateleft
    std_rbtree_rotateright
walked = refl

walked_all :
    Option.bind filled (λ s. std_rbtree_walk (some note) false s 40 by_value [] 0 0)
    ≡ some (1 ∷ 2 ∷ 3 ∷ 4 ∷ 5 ∷ 6 ∷ 7 ∷ [], 0)
unfolding std_rbtree_create std_rbtree_insert std_rbtree_walk put Option.bind std_rbtree_rotateleft
    std_rbtree_rotateright
walked_all = refl

preorder :
    Option.bind filled (λ s. std_rbtree_walk (some note) true s 40 by_value [] 0 0)
    ≡ some (5 ∷ 2 ∷ 1 ∷ 3 ∷ 4 ∷ 7 ∷ 6 ∷ [], 0)
unfolding std_rbtree_create std_rbtree_insert std_rbtree_walk put Option.bind std_rbtree_rotateleft
    std_rbtree_rotateright
preorder = refl

below : Option.bind filled (λ s. std_rbtree_getexactorprev 20 by_value s 9) ≡ some 7
unfolding std_rbtree_create std_rbtree_insert std_rbtree_getexactorprev put Option.bind
    std_rbtree_rotateleft std_rbtree_rotateright
below = refl

insert_nodes-Valid_example :
    (s' : Table) × (t' : Tree) × (insert_nodes by_value by_value-IsCompare by_value_asym 4 three
        (2 ∷ 3 ∷ 4 ∷ [])
      ≡ some s')
    × Valid by_value by_value-IsCompare by_value_asym s' t'
    × (inorder t' ≡ insert_each by_value by_value-IsCompare by_value_asym three (2 ∷ 3 ∷ 4 ∷ []) [])
    × (s'.item ≡ three.item)
unfolding inorder std_rbtree_create
insert_nodes-Valid_example =
    insert_nodes-Valid by_value by_value-IsCompare by_value_asym 4 (2 ∷ 3 ∷ 4 ∷ []) three leaf
      three-Valid (omega arith) (omega arith)

in_turn :
    insert_each by_value by_value-IsCompare by_value_asym three (2 ∷ 3 ∷ 4 ∷ []) [] ≡ 3 ∷ 4 ∷ 2 ∷ []
unfolding insert_each insert put
in_turn = refl
