-- ===== src/Rbtree/Search.antt =====
-- `_std_rbtree_getexact` of src/std_rbtree.c: the search for a key.
use mathlib.Core.List.{append_assoc}
use sonic_common_utils.Base.{
  ℕ, zero, suc, ◌<◌, ◌≡◌, ◌≢◌, refl, sym, ap, ◌∙◌, subst, ◌⊎◌, inl, inr, true, false, some, List,
  [], ◌∷◌, ◌++◌, All, arith, ◌==◌, ==_refl, ne→==, Bool-cases,
}
use sonic_common_utils.Base.Int.{ℤ, pos, negsuc, is_neg, is_zero}
use sonic_common_utils.Base.Distinct.{All-append, All-left, All-mono, All-at}
use sonic_common_utils.Rbtree.{Table, search, null_if_nil, node_getexact}
use sonic_common_utils.Rbtree.Shape.{
  Tree, leaf, branch, inorder, count, depth, deeper, depth_le_count, Rep, IsTree, inorder_ne_nil,
}

-- What the search asks of `rbtt_compare`: the sign turns with the arguments, and an element that is
-- not above a lower one is below whatever the lower one is below.
pub record IsCompare (cmp : ℕ → ℕ → ℤ) : Type 0 where
  pub opposite :
      (a b : ℕ) → is_zero (cmp a b) ≡ false → is_neg (cmp a b) ≡ false → is_neg (cmp b a) ≡ true
  pub equal : (a b : ℕ) → is_zero (cmp a b) ≡ true → is_neg (cmp b a) ≡ false
  pub between :
      (a b c : ℕ) → is_neg (cmp a b) ≡ true → is_neg (cmp a c) ≡ false → is_neg (cmp c b) ≡ true

pub not_zero_of_neg : (z : ℤ) → is_neg z ≡ true → is_zero z ≡ false
not_zero_of_neg (pos zero) e = sym e
not_zero_of_neg (pos (suc n)) e = refl
not_zero_of_neg (negsuc n) e = refl

module _ (cmp : ℕ → ℕ → ℤ) (s : Table) where
  -- No node's data is below that of an earlier one.
  abbrev pub Ordered : List ℕ → Type 0
  Ordered [] = Unit
  Ordered (x ∷ xs) = All (λ y. is_neg (cmp (s.item y) (s.item x)) ≡ false) xs × Ordered xs

  abbrev pub Differs : ℕ → ℕ → Type 0
  Differs key y = is_zero (cmp key (s.item y)) ≡ false

  -- The answer of a search in a list of nodes: one of them that is equal to the key, or `missing`
  -- if none is.
  abbrev pub Answer : (missing key : ℕ) → List ℕ → ℕ → Type 0
  Answer missing key xs r =
      ((r ≡ missing) × All (Differs key) xs)
      ⊎ ((before : List ℕ) × (after : List ℕ) × (xs ≡ before ++ (r ∷ after))
          × (is_zero (cmp key (s.item r)) ≡ true))

  pub Ordered-left : (xs ys : List ℕ) → Ordered (xs ++ ys) → Ordered xs
  Ordered-left [] ys o = tt
  Ordered-left (x ∷ xs) ys o =
      (All-left (λ y. is_neg (cmp (s.item y) (s.item x)) ≡ false) xs ys o.0, Ordered-left xs ys o.1)

  pub Ordered-right : (xs ys : List ℕ) → Ordered (xs ++ ys) → Ordered ys
  Ordered-right [] ys o = o
  Ordered-right (x ∷ xs) ys o = Ordered-right xs ys o.1

  pub Ordered-at :
      (xs ys : List ℕ) (a : ℕ)
      → Ordered (xs ++ (a ∷ ys))
      → All (λ x. is_neg (cmp (s.item a) (s.item x)) ≡ false) xs
  Ordered-at [] ys a o = tt
  Ordered-at (x ∷ xs) ys a o =
      (All-at (λ y. is_neg (cmp (s.item y) (s.item x)) ≡ false) a xs ys o.0, Ordered-at xs ys a o.1)

  step_equal :
      (fuel key x : ℕ)
      → x ≢ s.nil
      → is_zero (cmp key (s.item x)) ≡ true
      → search (suc fuel) cmp s key x ≡ some x
  unfolding search
  step_equal fuel key x ne e = rw (ne→== x s.nil ne, e, search)

  step_left :
      (fuel key x : ℕ)
      → x ≢ s.nil
      → is_neg (cmp key (s.item x)) ≡ true
      → search (suc fuel) cmp s key x ≡ search fuel cmp s key (s.left x)
  unfolding search
  step_left fuel key x ne e =
      rw (ne→== x s.nil ne, not_zero_of_neg (cmp key (s.item x)) e, e, search)

  step_right :
      (fuel key x : ℕ)
      → x ≢ s.nil
      → is_zero (cmp key (s.item x)) ≡ false
      → is_neg (cmp key (s.item x)) ≡ false
      → search (suc fuel) cmp s key x ≡ search fuel cmp s key (s.right x)
  unfolding search
  step_right fuel key x ne e f = rw (ne→== x s.nil ne, e, f, search)

  step_nil : (fuel key x : ℕ) → x ≡ s.nil → search (suc fuel) cmp s key x ≡ some x
  unfolding search
  step_nil fuel key x e = let same : (x == s.nil) ≡ true = rw e (==_refl s.nil) in rw (same, search)

  module _ (laws : IsCompare cmp) (key : ℕ) where
    -- A key below `a` differs from all that follow `a`, and one above it from all in front.
    Differs-behind :
        (a y : ℕ)
        → is_neg (cmp key (s.item a)) ≡ true
        → is_neg (cmp (s.item y) (s.item a)) ≡ false
        → Differs key y
    Differs-behind a y e o = elim (Bool-cases (is_neg (cmp key (s.item y)))) [
      | inl n ↦ not_zero_of_neg (cmp key (s.item y)) n
      | inr n ↦ let below = laws.between key (s.item a) (s.item y) e n in cc
    ]

    Differs-before :
        (a y : ℕ)
        → is_zero (cmp key (s.item a)) ≡ false
        → is_neg (cmp key (s.item a)) ≡ false
        → is_neg (cmp (s.item a) (s.item y)) ≡ false
        → Differs key y
    Differs-before a y e f o = elim (Bool-cases (is_zero (cmp key (s.item y)))) [
      | inr n ↦ n
      | inl z ↦
          let above = laws.opposite key (s.item a) e f in
          let below = laws.between (s.item a) key (s.item y) above o in
          let level = laws.equal key (s.item y) z in cc
    ]

    shallower : (fuel a b : ℕ) → suc (deeper a b) < suc fuel → (a < fuel) × (b < fuel)
    shallower fuel a b h = (ground arith, ground arith)

    search-Answer :
        (fuel par p : ℕ) (t : Tree)
        → depth t < fuel
        → Rep s par p t
        → Ordered (inorder t)
        → (r : ℕ) × (search fuel cmp s key p ≡ some r) × Answer s.nil key (inorder t) r
    unfolding inorder depth
    search-Answer zero par p t h rep o = absurd (omega arith)
    search-Answer (suc fuel) par p leaf h rep o = (p, step_nil fuel key p rep, inl (rep, tt))
    search-Answer (suc fuel) par p (branch l a r) h rep o =
        elim (Bool-cases (is_zero (cmp key (s.item a)))) [
          | inl z ↦
              (a, rw rep.0 (step_equal fuel key a rep.1 z), inr (inorder l, inorder r, refl, z))
          | inr z ↦ elim (Bool-cases (is_neg (cmp key (s.item a)))) [
            | inl n ↦
                let (x, e, b) =
                  search-Answer fuel a (s.left a) l (shallower fuel (depth l) (depth r) h).0 rep.3
                    (Ordered-left (inorder l) (a ∷ inorder r) o) in
                (
                  x,
                  rw rep.0 (step_left fuel key a rep.1 n ∙ e),
                  elim b [
                    | inl (m, d) ↦ inl (
                      m,
                      All-append (Differs key) (inorder l) (a ∷ inorder r) d (
                        z,
                        All-mono _ _ (inorder r) (λ y q. Differs-behind a y n q)
                            (Ordered-right (inorder l) (a ∷ inorder r) o).0,
                      ),
                    )
                    | inr (before, after, q, w) ↦ inr (
                      before,
                      after ++ (a ∷ inorder r),
                      ap (λ xs. xs ++ (a ∷ inorder r)) q
                          ∙ append_assoc before (x ∷ after) (a ∷ inorder r),
                      w,
                    )
                  ],
                )
            | inr n ↦
                let (x, e, b) =
                  search-Answer fuel a (s.right a) r (shallower fuel (depth l) (depth r) h).1 rep.4
                    (Ordered-right (inorder l) (a ∷ inorder r) o).1 in
                (
                  x,
                  rw rep.0 (step_right fuel key a rep.1 z n ∙ e),
                  elim b [
                    | inl (m, d) ↦ inl (
                      m,
                      All-append (Differs key) (inorder l) (a ∷ inorder r)
                          (All-mono _ _ (inorder l) (λ y q. Differs-before a y z n q)
                            (Ordered-at (inorder l) (inorder r) a o))
                          (z, d),
                    )
                    | inr (before, after, q, w) ↦ inr (
                      inorder l ++ (a ∷ before),
                      after,
                      ap (λ xs. inorder l ++ (a ∷ xs)) q
                          ∙ sym (append_assoc (inorder l) (a ∷ before) (x ∷ after)),
                      w,
                    )
                  ],
                )
          ]
        ]

    getexact_missing :
        (fuel : ℕ)
        → search fuel cmp s key s.root ≡ some s.nil
        → node_getexact fuel cmp s key ≡ some 0
    unfolding node_getexact null_if_nil
    getexact_missing fuel e = rw (e, ==_refl s.nil)

    getexact_found :
        (fuel r : ℕ)
        → r ≢ s.nil
        → search fuel cmp s key s.root ≡ some r
        → node_getexact fuel cmp s key ≡ some r
    unfolding node_getexact null_if_nil
    getexact_found fuel r ne e = rw (e, ne→== r s.nil ne)

    -- On a tree whose data are in order, with more fuel than nodes on the longest way down.
    pub getexact_deep-Answer :
        (fuel : ℕ) (t : Tree)
        → IsTree s t
        → Ordered (inorder t)
        → depth t < fuel
        → (x : ℕ) × (node_getexact fuel cmp s key ≡ some x) × Answer 0 key (inorder t) x
    getexact_deep-Answer fuel t i o h =
        let (r, e, b) = search-Answer fuel s.nil s.root t h i.rep o in
        elim b [
          | inl (m, d) ↦ (0, getexact_missing fuel (e ∙ ap some m), inl (refl, d))
          | inr (before, after, q, w) ↦
              let ne =
                All-at (λ x. x ≢ s.nil) r before after
                  (subst (All (λ x. x ≢ s.nil)) q (inorder_ne_nil s s.nil s.root t i.rep)) in
              (r, getexact_found fuel r ne e, inr (before, after, q, w))
        ]

    -- On a tree whose data are in order, with a compare function that orders them and more fuel than
    -- nodes, `_std_rbtree_getexact` ends, and returns a node of the tree that is equal to the key, or
    -- null if no node is.
    pub node_getexact-Answer :
        (fuel : ℕ) (t : Tree)
        → IsTree s t
        → Ordered (inorder t)
        → count t < fuel
        → (x : ℕ) × (node_getexact fuel cmp s key ≡ some x) × Answer 0 key (inorder t) x
    node_getexact-Answer fuel t i o h =
        getexact_deep-Answer fuel t i o (let d = depth_le_count t in omega arith)
