-- ===== src/Rbtree/Insertion/Repeated.antt =====
-- Insertions into the tree of src/std_rbtree.c, one after the other.
use mathlib.Core.Option
use sonic_common_utils.Base.{
  ℕ, suc, ◌+◌, ◌<◌, ◌≡◌, ◌≢◌, refl, sym, ap, ◌∙◌, subst, inl, inr, true, false, Option, some, List,
  [], ◌∷◌, All, length, length-append, arith, Bool-cases,
}
use sonic_common_utils.Base.Int.{ℤ, is_neg}
use sonic_common_utils.Base.Distinct.{NotIn, All-mono}
use sonic_common_utils.Rbtree.{Table}
use sonic_common_utils.Rbtree.Search.{IsCompare, Ordered}
use sonic_common_utils.Rbtree.Colours.{Ruled}
use sonic_common_utils.Rbtree.Insertion.{node_insert}
use sonic_common_utils.Rbtree.Insertion.Descent.{insert, before}
use sonic_common_utils.Rbtree.Insertion.Inserted.{Inserted, node_insert-Inserted, bind_at}
use sonic_common_utils.Rbtree.Shape.{Tree, leaf, branch, inorder, count, IsTree}

module _ (cmp : ℕ → ℕ → ℤ) (laws : IsCompare cmp)
    (asym : (a b : ℕ) → is_neg (cmp a b) ≡ true → is_neg (cmp b a) ≡ false) where
  abbrev NotBelow : Table → ℕ → ℕ → Type 0
  NotBelow s x y = is_neg (cmp (s.item y) (s.item x)) ≡ false

  All-insert_new :
      (P : ℕ → Type 0) (s : Table) (z : ℕ) (xs : List ℕ)
      → P z
      → All P xs
      → All P (insert cmp s z xs)
  unfolding insert
  All-insert_new P s z [] p h = (p, tt)
  All-insert_new P s z (x ∷ xs) p h = elim (Bool-cases (before cmp s z x)) [
    | inl e ↦ rw e (p, h)
    | inr e ↦ rw e (h.0, All-insert_new P s z xs p h.1)
  ]

  -- What is not below a node above the new data is not below them.
  behind_new :
      (s : Table) (z x : ℕ) (xs : List ℕ)
      → before cmp s z x ≡ true
      → All (NotBelow s x) xs
      → All (NotBelow s z) xs
  behind_new s z x xs e h =
      All-mono _ _ xs
        (λ y n. elim (Bool-cases (is_neg (cmp (s.item z) (s.item y)))) [
          | inl w ↦ asym (s.item z) (s.item y) w
          | inr w ↦ let below = laws.between (s.item z) (s.item x) (s.item y) e w in absurd (cc)
        ])
        h

  -- Data in order stay in order.
  pub insert-Ordered :
      (s : Table) (z : ℕ) (xs : List ℕ) → Ordered cmp s xs → Ordered cmp s (insert cmp s z xs)
  unfolding insert
  insert-Ordered s z [] o = (tt, tt)
  insert-Ordered s z (x ∷ xs) o = elim (Bool-cases (before cmp s z x)) [
    | inl e ↦ rw e ((asym (s.item z) (s.item x) e, behind_new s z x xs e o.0), o)
    | inr e ↦ rw e (All-insert_new (NotBelow s x) s z xs e o.0, insert-Ordered s z xs o.1)
  ]

  length-insert : (s : Table) (z : ℕ) (xs : List ℕ) → length (insert cmp s z xs) ≡ suc (length xs)
  unfolding insert
  length-insert s z [] = refl
  length-insert s z (x ∷ xs) = elim (Bool-cases (before cmp s z x)) [
    | inl e ↦ rw e refl
    | inr e ↦ rw e (ap suc (length-insert s z xs))
  ]

  module _ (s s' : Table) (same : s'.item ≡ s.item) where
    insert-same : (z : ℕ) (xs : List ℕ) → insert cmp s' z xs ≡ insert cmp s z xs
    unfolding insert
    insert-same z [] = refl
    insert-same z (x ∷ xs) =
        let e : before cmp s' z x ≡ before cmp s z x = ap (λ f. is_neg (cmp (f z) (f x))) same in
        rw (e, insert-same z xs) refl

    Ordered-same : (xs : List ℕ) → Ordered cmp s xs → Ordered cmp s' xs
    Ordered-same [] o = tt
    Ordered-same (x ∷ xs) o = (
      All-mono _ _ xs (λ y h. ap (λ f. is_neg (cmp (f y) (f x))) same ∙ h) o.0,
      Ordered-same xs o.1,
    )

  -- The nodes are inserted one after the other, and their reference.
  unfoldable pub insert_nodes : ℕ → Table → List ℕ → Option Table
  insert_nodes fuel s [] = some s
  insert_nodes fuel s (z ∷ zs) =
      Option.bind (node_insert fuel cmp s z) λ s'. insert_nodes fuel s' zs

  unfoldable pub insert_each : Table → List ℕ → List ℕ → List ℕ
  insert_each s [] xs = xs
  insert_each s (z ∷ zs) xs = insert_each s zs (insert cmp s z xs)

  -- The invariant of insertion.
  pub record Valid (s : Table) (t : Tree) : Type 0 where
    pub shape : IsTree s t
    pub ordered : Ordered cmp s (inorder t)
    pub root_black : s.red s.root ≡ false
    pub rules : Ruled s.red t

  -- Nodes that can be inserted: not null, not the table's own node, distinct and not in the tree.
  abbrev pub New : Table → List ℕ → List ℕ → Type 0
  New s xs [] = Unit
  New s xs (z ∷ zs) = (z ≢ 0) × (z ≢ s.nil) × NotIn z xs × NotIn z zs × New s xs zs

  Inserted-Valid :
      (s : Table) (z : ℕ) (t : Tree) (o : Option Table)
      → Ordered cmp s (inorder t)
      → Ruled s.red t
      → (w : Inserted cmp s z t o) → Valid w.table w.tree
  Inserted-Valid s z t o h k w = record {
    shape = w.shape;
    ordered =
        Ordered-same s w.table w.item (inorder w.tree)
          (subst (Ordered cmp s) (sym w.order) (insert-Ordered s z (inorder t) h));
    root_black = w.root_black;
    rules = w.rules k;
  }

  New-after :
      (s s' : Table) (z : ℕ) (xs zs : List ℕ)
      → s'.nil ≡ s.nil
      → NotIn z zs
      → New s xs zs
      → New s' (insert cmp s z xs) zs
  New-after s s' z xs [] own n h = tt
  New-after s s' z xs (y ∷ zs) own n h = (
    h.0,
    (λ e. h.1 (e ∙ own)),
    All-insert_new (λ x. x ≢ y) s z xs (λ e. n.0 (sym e)) h.2,
    h.3,
    New-after s s' z xs zs own n.1 h.4,
  )

  insert_each-same :
      (s s' : Table) (zs xs : List ℕ)
      → s'.item ≡ s.item
      → insert_each s' zs xs ≡ insert_each s zs xs
  unfolding insert_each
  insert_each-same s s' [] xs e = refl
  insert_each-same s s' (z ∷ zs) xs e =
      ap (insert_each s' zs) (insert-same s s' e z xs)
      ∙ insert_each-same s s' zs (insert cmp s z xs) e

  each_nil : (s : Table) (xs : List ℕ) → xs ≡ insert_each s [] xs
  unfolding insert_each
  each_nil s xs = refl

  each_step :
      (s s' : Table) (z : ℕ) (zs xs ys : List ℕ)
      → s'.item ≡ s.item
      → ys ≡ insert cmp s z xs
      → insert_each s' zs ys ≡ insert_each s (z ∷ zs) xs
  unfolding insert_each
  each_step s s' z zs xs ys e f =
      ap (insert_each s' zs) f ∙ insert_each-same s s' zs (insert cmp s z xs) e

  nodes_nil : (fuel : ℕ) (s : Table) → insert_nodes fuel s [] ≡ some s
  unfolding insert_nodes
  nodes_nil fuel s = refl

  nodes_step :
      (fuel : ℕ) (s s' s'' : Table) (z : ℕ) (zs : List ℕ)
      → node_insert fuel cmp s z ≡ some s'
      → insert_nodes fuel s' zs ≡ some s''
      → insert_nodes fuel s (z ∷ zs) ≡ some s''
  unfolding insert_nodes
  nodes_step fuel s s' s'' z zs e f =
      bind_at (node_insert fuel cmp s z) (λ t. insert_nodes fuel t zs) s' (some s'') e f

  count_length : (t : Tree) → count t ≡ length (inorder t)
  unfolding count inorder
  count_length leaf = refl
  count_length (branch l a r) =
      rw (length-append (inorder l) (a ∷ inorder r), count_length l, count_length r) refl

  -- For an asymmetric compare function that orders the data, insertions of new nodes into a valid
  -- table, one after the other, with more fuel than nodes in the end, all end. The table is valid
  -- again: a tree with its data in order and a black root, in which no red node has a red child and
  -- every way down meets the same number of black nodes. Its nodes are those of the insertions into
  -- the list of nodes, and the data are kept.
  pub insert_nodes-Valid :
      (fuel : ℕ) (zs : List ℕ) (s : Table) (t : Tree)
      → Valid s t
      → New s (inorder t) zs
      → length (inorder t) + length zs < fuel
      → (s' : Table) × (t' : Tree) × (insert_nodes fuel s zs ≡ some s')
        × Valid s' t'
        × (inorder t' ≡ insert_each s zs (inorder t))
        × (s'.item ≡ s.item)
  insert_nodes-Valid fuel [] s t v n h = (s, t, nodes_nil fuel s, v, each_nil s (inorder t), refl)
  insert_nodes-Valid fuel (z ∷ zs) s t v n h =
      let enough : count t < fuel = let c = count_length t in omega (arith, c, h) in
      let w =
        node_insert-Inserted cmp s z fuel laws t v.shape v.ordered v.root_black n.0 n.1 n.2
          enough in
      let new : New w.table (inorder w.tree) zs =
        subst (λ xs. New w.table xs zs) (sym w.order)
          (New-after s w.table z (inorder t) zs w.nil n.3 n.4) in
      let room : length (inorder w.tree) + length zs < fuel =
        let e = ap length w.order ∙ length-insert s z (inorder t) in omega (arith, e, h) in
      let (s', t', e, v', o, i) =
        insert_nodes-Valid fuel zs w.table w.tree
          (Inserted-Valid s z t (node_insert fuel cmp s z) v.ordered v.rules w) new room in
      (
        s',
        t',
        nodes_step fuel s w.table s' z zs w.ends e,
        v',
        o ∙ each_step s w.table z zs (inorder t) (inorder w.tree) w.item w.order,
        i ∙ w.item,
      )
