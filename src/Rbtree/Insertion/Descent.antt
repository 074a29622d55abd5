-- ===== src/Rbtree/Insertion/Descent.antt =====
-- The way down to the place of a new node in src/std_rbtree.c.
use sonic_common_utils.Base.{
  ℕ, zero, suc, ◌+◌, ◌<◌, ◌≤◌, ◌≡◌, ◌≢◌, refl, sym, ap, ◌∙◌, subst, inl, inr, Bool, true, false,
  some, List, [], ◌∷◌, ◌++◌, All, length, arith, ◌==◌, ==_refl, ne→==, Bool-cases, if◌then◌else◌,
}
use sonic_common_utils.Base.Int.{ℤ, is_neg}
use sonic_common_utils.Base.Distinct.{All-mono}
use sonic_common_utils.Rbtree.{Table}
use sonic_common_utils.Rbtree.Search.{IsCompare, Ordered, Ordered-at, Ordered-left, Ordered-right}
use sonic_common_utils.Rbtree.Insertion.{place_under}
use sonic_common_utils.Rbtree.Colours.{Balanced, top_red, head_red, Around}
use sonic_common_utils.Rbtree.Insertion.Loop.{RootBlack}
use sonic_common_utils.Rbtree.Insertion.Ending.{At}
use sonic_common_utils.Rbtree.Shape.{Tree, leaf, branch, inorder, count}
use sonic_common_utils.Rbtree.Zipper.{
  Above, Frame, Trail, at_near, at_far, occurs, occurs_along, parent_of, plug, node_of,
}
use sonic_common_utils.Rbtree.Rotation.{left_of, right_of}

module _ (cmp : ℕ → ℕ → ℤ) (s : Table) (z : ℕ) where
  abbrev pub before : ℕ → Bool
  before a = is_neg (cmp (s.item z) (s.item a))

  -- The reference: a list with `z` put in front of the first node that its data are below.
  unfoldable pub insert : List ℕ → List ℕ
  insert [] = z ∷ []
  insert (x ∷ xs) = if before x then z ∷ x ∷ xs else x ∷ insert xs

  insert-left :
      (xs : List ℕ) (a : ℕ) (ys : List ℕ)
      → before a ≡ true
      → insert (xs ++ (a ∷ ys)) ≡ insert xs ++ (a ∷ ys)
  unfolding insert
  insert-left [] a ys e = rw e refl
  insert-left (x ∷ xs) a ys e = elim (Bool-cases (before x)) [
    | inl w ↦ rw w refl
    | inr w ↦ rw w (ap (λ zs. x ∷ zs) (insert-left xs a ys e))
  ]

  insert-right :
      (xs : List ℕ) (a : ℕ) (ys : List ℕ)
      → All (λ x. before x ≡ false) xs
      → before a ≡ false
      → insert (xs ++ (a ∷ ys)) ≡ xs ++ (a ∷ insert ys)
  unfolding insert
  insert-right [] a ys h e = rw e refl
  insert-right (x ∷ xs) a ys h e = rw h.0 (ap (λ zs. x ∷ zs) (insert-right xs a ys h.1 e))

  -- The side of the last step is the one that the comparison names.
  abbrev pub Sided : Trail → Type 0
  Sided [] = Unit
  Sided (at_near a o ∷ path) = before a ≡ true
  Sided (at_far a o ∷ path) = before a ≡ false

  -- The root is black, where `p` stands at the place.
  abbrev pub BlackAt : ℕ → Trail → Type 0
  BlackAt p [] = s.red p ≡ false
  BlackAt p (f ∷ path) = RootBlack s.red (f ∷ path)

  BlackAt-step :
      (p : ℕ) (f : Frame) (path : Trail)
      → p ≡ node_of f
      → BlackAt p path
      → RootBlack s.red (f ∷ path)
  BlackAt-step p f [] e h = ap s.red (sym e) ∙ h
  BlackAt-step p f (g ∷ path) e h = h

  -- The place that the descent finds, and the tree that it makes of the one it started at.
  pub record Found (fuel : ℕ) (x : ℕ) (t : Tree) (path : Trail) : Type 0 where
    pub way : Trail
    pub tree : Tree
    pub ends : place_under fuel cmp s z (parent_of s.nil path) x ≡ some (parent_of s.nil way)
    pub place : At s s.nil leaf way
    pub sided : Sided way
    pub black : BlackAt s.nil way
    pub short : length way ≤ length path + count t
    pub order : inorder tree ≡ insert (inorder t)
    pub plugged : plug (branch leaf z leaf) way ≡ plug tree path
    pub free : (q : ℕ) → occurs_along q way ≡ occurs q t + occurs_along q path
    pub rules :
        (m : ℕ)
        → Balanced s.red m t
        → (top_red s.red t ≡ true → head_red s.red path ≡ false)
        → Around s.red m path
        → Around s.red 0 way

  module _ (fuel a y : ℕ) (ne : a ≢ s.nil) where
    down_left :
        before a ≡ true → place_under (suc fuel) cmp s z y a ≡ place_under fuel cmp s z a (s.left a)
    unfolding place_under
    down_left e = rw (ne→== a s.nil ne, e, place_under)

    down_right :
        before a ≡ false
        → place_under (suc fuel) cmp s z y a ≡ place_under fuel cmp s z a (s.right a)
    unfolding place_under
    down_right e = rw (ne→== a s.nil ne, e, place_under)

  down_end : (fuel x y : ℕ) → x ≡ s.nil → place_under (suc fuel) cmp s z y x ≡ some y
  unfolding place_under
  down_end fuel x y e =
      let own : (x == s.nil) ≡ true = rw e (==_refl s.nil) in rw (own, place_under)

  -- What stands in front of a node that is not above the new data is not above them.
  front_not_before :
      (laws : IsCompare cmp) (a : ℕ) (xs ys : List ℕ)
      → Ordered cmp s (xs ++ (a ∷ ys))
      → before a ≡ false
      → All (λ x. before x ≡ false) xs
  front_not_before laws a xs ys o e =
      All-mono _ _ xs
        (λ y h. elim (Bool-cases (before y)) [
          | inl w ↦ let above = laws.between (s.item z) (s.item y) (s.item a) w e in absurd (cc)
          | inr w ↦ w
        ])
        (Ordered-at cmp s xs ys a o)

  black_over :
      (red : ℕ → Bool) (t : Tree) (a : ℕ)
      → (red a ≡ true → top_red red t ≡ false)
      → top_red red t ≡ true
      → red a ≡ false
  black_over red t a h e = elim (Bool-cases (red a)) [
    | inl w ↦ let f = h w in absurd (cc)
    | inr w ↦ w
  ]

  At-left :
      (x a : ℕ) (l r : Tree) (path : Trail)
      → At s x (branch l a r) path
      → At s (s.left a) l (at_near a r ∷ path)
  unfolding occurs occurs_along
  At-left x a l r path h = record {
    stands = h.stands.3;
    above = (
      refl,
      h.stands.1,
      h.stands.2,
      h.stands.4,
      subst (λ p. Above left_of right_of s p path) h.stands.0 h.above,
    );
    once = λ q. let o = h.once q in omega arith;
  }

  At-right :
      (x a : ℕ) (l r : Tree) (path : Trail)
      → At s x (branch l a r) path
      → At s (s.right a) r (at_far a l ∷ path)
  unfolding occurs occurs_along
  At-right x a l r path h = record {
    stands = h.stands.4;
    above = (
      refl,
      h.stands.1,
      h.stands.2,
      h.stands.3,
      subst (λ p. Above left_of right_of s p path) h.stands.0 h.above,
    );
    once = λ q. let o = h.once q in omega arith;
  }

  -- With more fuel than nodes, the descent from any place ends.
  pub descend :
      (laws : IsCompare cmp) (fuel x : ℕ) (t : Tree) (path : Trail)
      → count t < fuel
      → At s x t path
      → Ordered cmp s (inorder t)
      → Sided path
      → BlackAt x path
      → Found fuel x t path
  unfolding inorder count occurs occurs_along insert
  descend laws zero x t path n h o side black = absurd (omega arith)
  descend laws (suc fuel) x leaf path n h o side black = record {
    way = path;
    tree = branch leaf z leaf;
    ends = down_end fuel x (parent_of s.nil path) h.stands;
    place = record {
      stands = refl;
      above = subst (λ p. Above left_of right_of s p path) h.stands h.above;
      once = h.once;
    };
    sided = side;
    black = subst (λ p. BlackAt p path) h.stands black;
    short = omega arith;
    order = refl;
    plugged = refl;
    free = λ q. omega arith;
    rules = λ m k top up. subst (λ n. Around s.red n path) k up;
  }
  descend laws (suc fuel) x (branch l a r) path n h o side black =
      let here = ap (place_under (suc fuel) cmp s z (parent_of s.nil path)) h.stands.0 in
      elim (Bool-cases (before a)) [
        | inl e ↦
            let f =
              descend laws fuel (s.left a) l (at_near a r ∷ path) (omega arith)
                (At-left x a l r path h) (Ordered-left cmp s (inorder l) (a ∷ inorder r) o) e
                (BlackAt-step x (at_near a r) path h.stands.0 black) in
            record {
              way = f.way;
              tree = branch f.tree a r;
              ends = here ∙ down_left fuel a (parent_of s.nil path) h.stands.1 e ∙ f.ends;
              place = f.place;
              sided = f.sided;
              black = f.black;
              short = let w = f.short in omega arith;
              order =
                  ap (λ xs. xs ++ (a ∷ inorder r)) f.order
                  ∙ sym (insert-left (inorder l) a (inorder r) e);
              plugged = f.plugged;
              free = λ q. let w = f.free q in omega arith;
              rules = λ m k top up.
                  f.rules k.0 k.3 (black_over s.red l a (λ w. (k.2 w).0))
                    (k.4, (λ w. ((k.2 w).1, top w)), subst (λ n. Around s.red n path) k.1 up);
            }
        | inr e ↦
            let f =
              descend laws fuel (s.right a) r (at_far a l ∷ path) (omega arith)
                (At-right x a l r path h) (Ordered-right cmp s (inorder l) (a ∷ inorder r) o).1 e
                (BlackAt-step x (at_far a l) path h.stands.0 black) in
            record {
              way = f.way;
              tree = branch l a f.tree;
              ends = here ∙ down_right fuel a (parent_of s.nil path) h.stands.1 e ∙ f.ends;
              place = f.place;
              sided = f.sided;
              black = f.black;
              short = let w = f.short in omega arith;
              order =
                  ap (λ xs. inorder l ++ (a ∷ xs)) f.order
                  ∙ sym (
                      insert-right (inorder l) a (inorder r)
                        (front_not_before laws a (inorder l) (inorder r) o e) e);
              plugged = f.plugged;
              free = λ q. let w = f.free q in omega arith;
              rules = λ m k top up.
                  f.rules k.0 k.4 (black_over s.red r a (λ w. (k.2 w).1))
                    (k.3, (λ w. ((k.2 w).0, top w)), subst (λ n. Around s.red n path) k.1 up);
            }
      ]
