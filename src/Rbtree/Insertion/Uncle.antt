-- ===== src/Rbtree/Insertion/Uncle.antt =====
-- The cases of a round of `std_rbtree_balanceoninsert` of src/std_rbtree.c, by the colour of the uncle.
use sonic_common_utils.Base.{
  ℕ, ◌≤◌, ◌≡◌, ◌≢◌, ◌⊎◌, refl, sym, ◌∙◌, inl, inr, true, false, ◌∷◌, arith, ◌==◌, ==_refl, ne→==,
  Bool-cases, put, suc, subst, ap,
}
use sonic_common_utils.Rbtree.{Table, set_red}
use sonic_common_utils.Rbtree.Shape.{Tree, leaf, branch}
use sonic_common_utils.Rbtree.Zipper.{
  Frame, Trail, at_near, at_far, occurs, occurs_along, hits, hits_self, node_of, Stands, Once,
}
use sonic_common_utils.Rbtree.Place.{
  Place, SameOrder, SameOrder-turn, SameOrder-trans, SameOrder-under,
}
use sonic_common_utils.Rbtree.Apart.{ne_of_zero, root_apart, root_occurs}
use sonic_common_utils.Rbtree.Sides.{Sides, turn_far-Place, turn_near-Place, set_red-Place}
use sonic_common_utils.Rbtree.Colours.{top_red}
use sonic_common_utils.Rbtree.Insertion.Rules.{Climbing, Settling}
use sonic_common_utils.Rbtree.Insertion.Painted.{
  outer_painted, inner_painted, raised_near_painted, raised_far_painted, paint3,
}
use sonic_common_utils.Rbtree.Insertion.Round.{
  graft, Place-up_near, Place-up_far, uncle_red, raised, settled, balance_under, under_raised,
  under_outer, under_inner, Settled, Raised,
}

module _ (d : Sides) where
  raised-Place :
      (s : Table) (p g : ℕ) (G : Tree) (path : Trail)
      → Place d.near d.far s g G path
      → Place d.near d.far (raised d s p g) g G path
  raised-Place s p g G path h =
      set_red-Place d (set_red (set_red s p false) (d.far s g) false) g true g G path (
        set_red-Place d (set_red s p false) (d.far s g) false g G path
          (set_red-Place d s p false g G path h))

  -- A rotation at the grandparent of a node that hangs at the near side of its parent.
  settled-Place :
      (s : Table) (p g : ℕ) (t o U : Tree) (path : Trail)
      → Place d.near d.far s g (branch (branch t p o) g U) path
      → Place d.near d.far (settled d s p g) p (branch t p (branch o g U)) path
  settled-Place s p g t o U path h =
      turn_near-Place d (set_red (set_red s p false) g true) g p t o U path (
        set_red-Place d (set_red s p false) g true g (branch (branch t p o) g U) path
          (set_red-Place d s p false g (branch (branch t p o) g U) path h))

  settled_red : (s : Table) (p g : ℕ) → g ≢ p → (settled d s p g).red p ≡ false
  unfolding put
  settled_red s p g ne =
      rw (d.red_near (set_red (set_red s p false) g true) g, ne→== g p ne, ==_refl p) refl

  SameOrder-back :
      (A B C : Tree) (x y : ℕ) → SameOrder (branch (branch A x B) y C) (branch A x (branch B y C))
  SameOrder-back A B C x y = let e = SameOrder-turn A B C x y in (sym e.0, sym e.1)

  node_ne :
      (t o U : Tree) (p g : ℕ) (path : Trail)
      → (s : Table) → Place d.near d.far s g (branch (branch t p o) g U) path
      → g ≢ p
  unfolding occurs
  node_ne t o U p g path s h e =
      let w = rw (hits_self g) at (h.once g) in
      let one : hits g p ≡ 1 = rw e (hits_self p) in absurd (omega (arith, one, w))

  -- The rules before a round, at a node with a red parent.
  abbrev pub Before : Table → ℕ → Tree → Frame → Frame → Trail → ℕ → Type 0
  Before s p t f f' path n = Climbing s.red n t (f ∷ f' ∷ path) × (s.red p ≡ true)

  -- The uncle is no red node.
  uncle_black :
      (s : Table) (g : ℕ) (U : Tree)
      → uncle_red d s g ≡ false
      → Stands d.near d.far s g (d.far s g) U
      → top_red s.red U ≡ false
  uncle_black s g leaf e h = refl
  uncle_black s g (branch l a r) e h = let ne = ne→== a s.nil h.1 in rw (h.0, ne) at e

  red_uncle : (s : Table) (g : ℕ) → uncle_red d s g ≡ true → s.red (d.far s g) ≡ true
  red_uncle s g e = ground arith

  -- It is one where the round goes up.
  raised_near :
      (s : Table) (n x p g : ℕ) (L R o U : Tree) (path : Trail)
      → uncle_red d s g ≡ true
      → Stands d.near d.far s g (d.far s g) U
      → Once (branch L x R) (at_near p o ∷ at_near g U ∷ path)
      → Before s p (branch L x R) (at_near p o) (at_near g U) path n
      → Climbing (raised d s p g).red (suc n) (branch (branch (branch L x R) p o) g U) path
  raised_near s n x p g L R o leaf path e u once k =
      let none : (d.far s g == s.nil) ≡ true = rw u (==_refl s.nil) in absurd (cc)
  raised_near s n x p g L R o (branch ul y ur) path e u once k =
      subst
        (λ z.
          Climbing (paint3 s.red p z g) (suc n)
            (branch (branch (branch L x R) p o) g (branch ul y ur)) path)
        (sym u.0)
        (raised_near_painted s.red n x p g y L R ul ur o path
          (subst (λ z. s.red z ≡ true) u.0 (red_uncle s g e)) once k.1 k.0)

  raised_far :
      (s : Table) (n x p g : ℕ) (L R o U : Tree) (path : Trail)
      → uncle_red d s g ≡ true
      → Stands d.near d.far s g (d.far s g) U
      → Once (branch L x R) (at_far p o ∷ at_near g U ∷ path)
      → Before s p (branch L x R) (at_far p o) (at_near g U) path n
      → Climbing (raised d s p g).red (suc n) (branch (branch o p (branch L x R)) g U) path
  raised_far s n x p g L R o leaf path e u once k =
      let none : (d.far s g == s.nil) ≡ true = rw u (==_refl s.nil) in absurd (cc)
  raised_far s n x p g L R o (branch ul y ur) path e u once k =
      subst
        (λ z.
          Climbing (paint3 s.red p z g) (suc n)
            (branch (branch o p (branch L x R)) g (branch ul y ur)) path)
        (sym u.0)
        (raised_far_painted s.red n x p g y L R ul ur o path
          (subst (λ z. s.red z ≡ true) u.0 (red_uncle s g e)) once k.1 k.0)

  -- The outer case.
  outer-Settled :
      (s : Table) (x p g : ℕ) (L R o U : Tree) (path : Trail)
      → uncle_red d s g ≡ false
      → Place d.near d.far s x (branch L x R) (at_near p o ∷ at_near g U ∷ path)
      → Settled d
          (Before s p (branch L x R) (at_near p o) (at_near g U) path)
          s
          (branch (branch (branch L x R) p o) g U)
          path
          (balance_under d s x)
  unfolding occurs occurs_along
  outer-Settled s x p g L R o U path e h =
      let t = branch L x R in
      let hp = Place-up_near d.near d.far s p x t o (at_near g U ∷ path) h in
      let hg = Place-up_near d.near d.far s g p (branch t p o) U path hp in
      let placed = settled-Place s p g t o U path hg in
      rw
        (under_outer d s x p g h.stands.2 h.above.2 e (
          let w = rw (hits_self x) at (h.once x) in
          ne→== x (d.far s p) (λ n.
            root_apart d.near d.far s p (d.far s p) x o h.above.3 h.stands.1 (omega arith)
              (sym n))))
        (record {
          node = p;
          tree = branch t p (branch o g U);
          place = placed;
          order = SameOrder-back t o U p g;
          parent_black = rw placed.stands.3.2 (settled_red s p g (node_ne t o U p g path s hg));
          item = d.item_near (set_red (set_red s p false) g true) g;
          nil = d.nil_near (set_red (set_red s p false) g true) g;
          rules = λ n k.
              subst (λ red. Settling red (suc n) (branch t p (branch o g U)) path)
                (sym (d.red_near (set_red (set_red s p false) g true) g))
                (outer_painted s.red n x p g L R o U path (uncle_black s g U e h.above.4.3) h.once
                  k.1 k.0);
        })

  -- The inner case.
  inner-Settled :
      (s : Table) (x p g : ℕ) (L R o U : Tree) (path : Trail)
      → uncle_red d s g ≡ false
      → Place d.near d.far s x (branch L x R) (at_far p o ∷ at_near g U ∷ path)
      → Settled d
          (Before s p (branch L x R) (at_far p o) (at_near g U) path)
          s
          (branch (branch o p (branch L x R)) g U)
          path
          (balance_under d s x)
  inner-Settled s x p g L R o U path e h =
      let hp = Place-up_far d.near d.far s p x (branch L x R) o (at_near g U ∷ path) h in
      let h1 = turn_far-Place d s p x o L R (at_near g U ∷ path) hp in
      let s1 = d.turn_far s p in
      let hg = Place-up_near d.near d.far s1 g x (branch (branch o p L) x R) U path h1 in
      let placed = settled-Place s1 x g (branch o p L) R U path hg in
      let at_far_side : (x == d.far s p) ≡ true = rw h.above.0 (==_refl x) in
      rw (under_inner d s x p g h.stands.2 h.above.2 e at_far_side h1.stands.3.2 h1.stands.2)
        (record {
          node = x;
          tree = branch (branch o p L) x (branch R g U);
          place = placed;
          order =
              SameOrder-trans _ _ _ (SameOrder-under g U _ _ (SameOrder-turn o L R p x))
                (SameOrder-back (branch o p L) R U x g);
          parent_black =
              rw placed.stands.3.2 (settled_red s1 x g (node_ne (branch o p L) R U x g path s1 hg));
          item = d.item_near (set_red (set_red s1 x false) g true) g ∙ d.item_far s p;
          nil = d.nil_near (set_red (set_red s1 x false) g true) g ∙ d.nil_far s p;
          rules = λ n k.
              subst (λ red. Settling red (suc n) (branch (branch o p L) x (branch R g U)) path)
                (sym (
                  d.red_near (set_red (set_red s1 x false) g true) g
                  ∙ ap (λ red. put (put red x false) g true) (d.red_far s p)))
                (inner_painted s.red n x p g L R o U path (uncle_black s g U e h.above.4.3) h.once
                  k.1 k.0);
        })

  -- The case of a red uncle.
  under-Raised :
      (K : ℕ → Type 0) (s : Table) (x p g : ℕ) (X U : Tree) (path : Trail)
      → ((n : ℕ) → K n → Climbing (raised d s p g).red (suc n) (branch X g U) path)
      → uncle_red d s g ≡ true
      → s.parent x ≡ p
      → s.parent p ≡ g
      → 1 ≤ occurs p X
      → Place d.near d.far s g (branch X g U) path
      → Raised d K s g (branch X g U) path (balance_under d s x)
  unfolding occurs put
  under-Raised K s x p g X U path rules e up upper i h =
      let y = d.far s g in
      let uncle : y ≢ s.nil =
        λ n. let own : (y == s.nil) ≡ true = rw n (==_refl s.nil) in absurd (cc) in
      let j = root_occurs d.near d.far s g y U h.stands.4 uncle in
      rw (under_raised d s x p g up upper e) (record {
        place = raised-Place s p g (branch X g U) path h;
        next = refl;
        colours = λ q k.
            let w = rw (hits_self g) at (h.once g) in
            let wp = h.once p in
            let wy = h.once y in
            let nev = ne_of_zero (λ z. occurs_along z path) in
            rw
              (
                ne→== g q (λ n. nev q g k (omega arith) (sym n)),
                ne→== y q (λ n. nev q y k (omega arith) (sym n)),
                ne→== p q (λ n. nev q p k (omega arith) (sym n)),
              )
              refl;
        item = refl;
        nil = refl;
        rules = rules;
      })

  -- One round, for a node whose parent is on the near side of the grandparent.
  pub under-outcome :
      (s : Table) (x g : ℕ) (L R U : Tree) (f : Frame) (path : Trail)
      → Place d.near d.far s x (branch L x R) (f ∷ at_near g U ∷ path)
      → Settled d
          (Before s (node_of f) (branch L x R) f (at_near g U) path)
          s
          (branch (graft f (branch L x R)) g U)
          path
          (balance_under d s x)
        ⊎ Raised d
            (Before s (node_of f) (branch L x R) f (at_near g U) path)
            s
            g
            (branch (graft f (branch L x R)) g U)
            path
            (balance_under d s x)
  unfolding occurs
  under-outcome s x g L R U (at_near p o) path h = elim (Bool-cases (uncle_red d s g)) [
    | inl e ↦ inr (
        under-Raised (Before s p (branch L x R) (at_near p o) (at_near g U) path) s x p g
          (branch (branch L x R) p o) U path
          (λ n k. raised_near s n x p g L R o U path e h.above.4.3 h.once k) e h.stands.2 h.above.2
          (rw (hits_self p) (omega arith))
          (Place-up_near d.near d.far s g p (branch (branch L x R) p o) U path
            (Place-up_near d.near d.far s p x (branch L x R) o (at_near g U ∷ path) h)))
    | inr e ↦ inl (outer-Settled s x p g L R o U path e h)
  ]
  under-outcome s x g L R U (at_far p o) path h = elim (Bool-cases (uncle_red d s g)) [
    | inl e ↦ inr (
        under-Raised (Before s p (branch L x R) (at_far p o) (at_near g U) path) s x p g
          (branch o p (branch L x R)) U path
          (λ n k. raised_far s n x p g L R o U path e h.above.4.3 h.once k) e h.stands.2 h.above.2
          (rw (hits_self p) (omega arith))
          (Place-up_near d.near d.far s g p (branch o p (branch L x R)) U path
            (Place-up_far d.near d.far s p x (branch L x R) o (at_near g U ∷ path) h)))
    | inr e ↦ inl (inner-Settled s x p g L R o U path e h)
  ]
