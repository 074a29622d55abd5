-- ===== src/Rbtree/Insertion/Inserted.antt =====
-- `_std_rbtree_insert` of src/std_rbtree.c inserts into a list of nodes in order.
use mathlib.Core.Option
use sonic_common_utils.Base.{
  ℕ, ◌<◌, ◌≡◌, ◌≢◌, refl, sym, ap, ◌∙◌, subst, inl, inr, true, false, Option, some, List, [], ◌∷◌,
  All, arith, Bool-cases, put, put_ne, put_self, ◌≤◌,
}
use sonic_common_utils.Base.Int.{ℤ}
use sonic_common_utils.Base.Distinct.{NotIn}
use sonic_common_utils.Rbtree.{Table, set_red}
use sonic_common_utils.Rbtree.Search.{IsCompare, Ordered}
use sonic_common_utils.Rbtree.Insertion.{
  place_under, hang, balance_loop, std_rbtree_balanceoninsert, node_insert, count_insert,
}
use sonic_common_utils.Rbtree.Insertion.Loop.{RootBlack, RootBlack-kept}
use sonic_common_utils.Rbtree.Insertion.Ending.{At, Ended, loop-Ended}
use sonic_common_utils.Rbtree.Insertion.Descent.{insert, before, BlackAt, Found, descend}
use sonic_common_utils.Rbtree.Insertion.Hanging.{hang-At, hang-kept}
use sonic_common_utils.Rbtree.Shape.{Tree, leaf, branch, inorder, count, IsTree}
use sonic_common_utils.Rbtree.Apart.{ne_of_zero, parent_apart}
use sonic_common_utils.Rbtree.Colours.{Ruled, Balanced, Around-kept}
use sonic_common_utils.Rbtree.Whole.{
  Rep-Stands, Stands-Rep, times-inorder, NotIn-times, Distinct-times, times-Distinct,
}
use sonic_common_utils.Rbtree.Zipper.{Trail, Stands-frame, occurs, occurs_along, parent_of}
use sonic_common_utils.Rbtree.Rotation.{left_of, right_of}
use sonic_common_utils.Rbtree.Sides.{left_side, set_red-Place}

IsTree-At : (s : Table) (t : Tree) → IsTree s t → At s s.root t []
unfolding occurs_along
IsTree-At s t h = record {
  stands = Rep-Stands s s.nil s.root t h.rep;
  above = refl;
  once = λ q.
      let o = Distinct-times q (inorder t) h.distinct in let e = times-inorder q t in omega arith;
}

At-IsTree : (s : Table) (t : Tree) → At s s.root t [] → All (λ x. x ≢ 0) (inorder t) → IsTree s t
unfolding occurs_along
At-IsTree s t h n = record {
  rep = Stands-Rep s s.nil s.root t h.stands;
  distinct =
      times-Distinct (inorder t)
        (λ q. let o = h.once q in let e = times-inorder q t in omega arith);
  not_null = n;
}

-- The counters are no part of the tree.
count_insert-IsTree : (s : Table) (t : Tree) → IsTree s t → IsTree (count_insert s) t
count_insert-IsTree s t h = record {
  rep = Stands-Rep (count_insert s) s.nil s.root t (
      Stands-frame left_of right_of s (count_insert s) refl s.nil s.root t
        (λ q i. (refl, refl, refl)) (Rep-Stands s s.nil s.root t h.rep));
  distinct = h.distinct;
  not_null = h.not_null;
}

All-insert :
    (cmp : ℕ → ℕ → ℤ) (s : Table) (z : ℕ) (xs : List ℕ)
    → z ≢ 0
    → All (λ x. x ≢ 0) xs
    → All (λ x. x ≢ 0) (insert cmp s z xs)
unfolding insert
All-insert cmp s z [] n h = (n, tt)
All-insert cmp s z (x ∷ xs) n h = elim (Bool-cases (before cmp s z x)) [
  | inl e ↦ rw e (n, h)
  | inr e ↦ rw e (h.0, All-insert cmp s z xs n h.1)
]

RootBlack-new :
    (cmp : ℕ → ℕ → ℤ) (s : Table) (z : ℕ) (way : Trail)
    → BlackAt cmp s z s.nil way
    → RootBlack s.red way
RootBlack-new cmp s z [] h = tt
RootBlack-new cmp s z (f ∷ way) h = h

-- The table after an insertion: its nodes in order are those of before with `z` put in.
pub record Inserted (cmp : ℕ → ℕ → ℤ) (s : Table) (z : ℕ) (t : Tree) (o : Option Table)
    : Type 0 where
  pub table : Table
  pub tree : Tree
  pub ends : o ≡ some table
  pub shape : IsTree table tree
  pub order : inorder tree ≡ insert cmp s z (inorder t)
  pub root_black : table.red table.root ≡ false
  pub item : table.item ≡ s.item
  pub nil : table.nil ≡ s.nil
  pub rules : Ruled s.red t → Ruled table.red tree

pub bind_at {ℓ κ} :
    {A : Type ℓ} {B : Type κ} (o : Option A) (k : A → Option B) (a : A) (r : Option B)
    → o ≡ some a
    → k a ≡ r
    → Option.bind o k ≡ r
unfolding Option.bind
bind_at o k a r e f = ap (λ q. Option.bind q k) e ∙ f

balanced_by :
    (fuel : ℕ) (s : Table) (x : ℕ)
    → std_rbtree_balanceoninsert fuel s x ≡ balance_loop fuel (set_red s x true) x
unfolding std_rbtree_balanceoninsert
balanced_by fuel s x = refl

module _ (cmp : ℕ → ℕ → ℤ) (s : Table) (z fuel : ℕ) where
  insert_at :
      (y : ℕ) (o : Table)
      → place_under fuel cmp s z s.nil s.root ≡ some y
      → balance_loop fuel (set_red (hang cmp s z y) z true) z ≡ some o
      → node_insert fuel cmp s z ≡ some (count_insert o)
  unfolding node_insert
  insert_at y o e f =
      bind_at (place_under fuel cmp s z s.nil s.root)
        (λ y. Option.map count_insert (std_rbtree_balanceoninsert fuel (hang cmp s z y) z)) y
        (some (count_insert o)) e
        (ap (Option.map count_insert) (balanced_by fuel (hang cmp s z y) z ∙ f))

  -- From the place that the descent finds.
  Found-Ended :
      (t : Tree)
      → count t < fuel
      → z ≢ s.nil
      → occurs z t ≡ 0
      → (f : Found cmp s z fuel s.root t [])
      → Ended
          (λ m. Balanced s.red m t)
          s
          f.tree
          (balance_loop fuel (set_red (hang cmp s z (parent_of s.nil f.way)) z true) z)
  unfolding occurs_along put
  Found-Ended t n ne new f =
      let y = parent_of s.nil f.way in
      let none : occurs_along z f.way ≡ 0 = let w = f.free z in omega (arith, w, new) in
      let kept = hang-kept cmp s z y (parent_apart left_of right_of s z f.way ne none) in
      let s' = set_red (hang cmp s z y) z true in
      let placed =
        set_red-Place left_side (hang cmp s z y) z true z (branch leaf z leaf) f.way
          (hang-At cmp s z f.way ne none f.place f.sided) in
      let kept_along : (q : ℕ) → 1 ≤ occurs_along q f.way → s'.red q ≡ s.red q = λ q i.
        put_ne (hang cmp s z y).red z true q
          (λ e. ne_of_zero (λ n. occurs_along n f.way) q z i none (sym e))
        ∙ ap (λ g. g q) kept.0 in
      let black =
        RootBlack-kept s.red s'.red f.way kept_along (RootBlack-new cmp s z f.way f.black) in
      let w = loop-Ended fuel s' z leaf leaf f.way placed black (let k = f.short in omega arith) in
      record {
        table = w.table;
        tree = w.tree;
        ends = w.ends;
        whole = w.whole;
        order = w.order ∙ ap inorder f.plugged;
        item = w.item ∙ kept.1;
        nil = w.nil ∙ kept.2;
        root_black = w.root_black;
        rules = λ m k.
            let up = Around-kept s.red s'.red 0 f.way kept_along (f.rules m k (λ e. refl) tt) in
            w.rules 0 (
              (0, rw (put_self (hang cmp s z y).red z true) refl, (λ e. (refl, refl)), refl, refl),
              put_self (hang cmp s z y).red z true,
              up,
            );
      }

  -- If the data of the tree are in order for a compare function that orders them, the root is black,
  -- and `z` is a node of its own with its data set, then with more fuel than nodes
  -- `_std_rbtree_insert` ends. Its table is a tree again: the nodes in order are those of before with
  -- `z` in front of the first that its data are below, the data are kept, and the root is black.
  pub node_insert-Inserted :
      (laws : IsCompare cmp) (t : Tree)
      → IsTree s t
      → Ordered cmp s (inorder t)
      → s.red s.root ≡ false
      → z ≢ 0
      → z ≢ s.nil
      → NotIn z (inorder t)
      → count t < fuel
      → Inserted cmp s z t (node_insert fuel cmp s z)
  node_insert-Inserted laws t i o black nz ne new n =
      let none : occurs z t ≡ 0 = sym (times-inorder z t) ∙ NotIn-times z (inorder t) new in
      let f = descend cmp s z laws fuel s.root t [] n (IsTree-At s t i) o tt black in
      let w = Found-Ended t n ne none f in
      let order = w.order ∙ f.order in
      let filled =
        subst (All (λ x. x ≢ 0)) (sym order) (All-insert cmp s z (inorder t) nz i.not_null) in
      record {
        table = count_insert w.table;
        tree = w.tree;
        ends = insert_at (parent_of s.nil f.way) w.table f.ends w.ends;
        shape = count_insert-IsTree w.table w.tree (At-IsTree w.table w.tree w.whole filled);
        order = order;
        root_black = w.root_black;
        item = w.item;
        nil = w.nil;
        rules = λ (m, k). w.rules m k;
      }
