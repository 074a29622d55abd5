-- ===== src/Rbtree/Insertion/Painted.antt =====
-- The colours that a round of `std_rbtree_balanceoninsert` of src/std_rbtree.c writes keep the rules.
use sonic_common_utils.Base.{
  ℕ, suc, ◌≤◌, ◌≡◌, ◌≢◌, sym, ◌∙◌, Bool, true, false, ◌∷◌, arith, put, put_ne, put_self,
}
use sonic_common_utils.Rbtree.Colours.{top_red}
use sonic_common_utils.Rbtree.Insertion.Rules.{
  Climbing, Settling, outer_rules, inner_rules, raised_near_rules, raised_far_rules,
}
use sonic_common_utils.Rbtree.Shape.{Tree, branch}
use sonic_common_utils.Rbtree.Apart.{ne_of_zero}
use sonic_common_utils.Rbtree.Zipper.{
  Trail, at_near, at_far, occurs, occurs_along, hits, hits_self, Once,
}

abbrev pub paint2 : (ℕ → Bool) → (p g : ℕ) → ℕ → Bool
paint2 red p g = put (put red p false) g true

abbrev pub paint3 : (ℕ → Bool) → (p y g : ℕ) → ℕ → Bool
paint3 red p y g = put (put (put red p false) y false) g true

module _ (red : ℕ → Bool) (f : ℕ → ℕ) (p g : ℕ) (zp : f p ≡ 0) (zg : f g ≡ 0) where
  -- The colours are kept in a part without the two nodes.
  kept2 : (q : ℕ) → 1 ≤ f q → paint2 red p g q ≡ red q
  kept2 q i =
      put_ne (put red p false) g true q (λ w. ne_of_zero f q g i zg (sym w))
      ∙ put_ne red p false q (λ w. ne_of_zero f q p i zp (sym w))

  kept3 : (y : ℕ) → f y ≡ 0 → (q : ℕ) → 1 ≤ f q → paint3 red p y g q ≡ red q
  kept3 y zy q i =
      put_ne (put (put red p false) y false) g true q (λ w. ne_of_zero f q g i zg (sym w))
      ∙ put_ne (put red p false) y false q (λ w. ne_of_zero f q y i zy (sym w))
      ∙ put_ne red p false q (λ w. ne_of_zero f q p i zp (sym w))

not_hit : (q a : ℕ) → hits q a ≡ 0 → a ≢ q
not_hit q a z e = let one : hits q a ≡ 1 = rw e (hits_self q) in absurd (omega (arith, one, z))

module _ (red : ℕ → Bool) (n x p g : ℕ) (L R o U : Tree) (path : Trail)
    (uncle : top_red red U ≡ false) where
  pub outer_painted :
      Once (branch L x R) (at_near p o ∷ at_near g U ∷ path)
      → red p ≡ true
      → Climbing red n (branch L x R) (at_near p o ∷ at_near g U ∷ path)
      → Settling (paint2 red p g) (suc n) (branch (branch L x R) p (branch o g U)) path
  unfolding occurs occurs_along
  outer_painted once red_p k =
      let op = rw (hits_self p) at (once p) in
      let og = rw (hits_self g) at (once g) in
      outer_rules red (paint2 red p g) n x p g L R o U path
        (kept2 red (λ q. occurs q o) p g (omega arith) (omega arith))
        (kept2 red (λ q. occurs q U) p g (omega arith) (omega arith))
        (kept2 red (λ q. occurs_along q path) p g (omega arith) (omega arith)) red_p uncle
        (put_self (put red p false) g true)
        (kept2 red (λ q. occurs q (branch L x R)) p g (omega arith) (omega arith))
        (put_ne (put red p false) g true p (not_hit p g (omega arith)) ∙ put_self red p false) k

  pub inner_painted :
      Once (branch L x R) (at_far p o ∷ at_near g U ∷ path)
      → red p ≡ true
      → Climbing red n (branch L x R) (at_far p o ∷ at_near g U ∷ path)
      → Settling (paint2 red x g) (suc n) (branch (branch o p L) x (branch R g U)) path
  unfolding occurs occurs_along
  inner_painted once red_p k =
      let op = rw (hits_self p) at (once p) in
      let ox = rw (hits_self x) at (once x) in
      let og = rw (hits_self g) at (once g) in
      inner_rules red (paint2 red x g) n x p g L R o U path
        (kept2 red (λ q. occurs q o) x g (omega arith) (omega arith))
        (kept2 red (λ q. occurs q U) x g (omega arith) (omega arith))
        (kept2 red (λ q. occurs_along q path) x g (omega arith) (omega arith)) red_p uncle
        (put_self (put red x false) g true)
        (kept2 red (λ q. occurs q L) x g (omega arith) (omega arith))
        (kept2 red (λ q. occurs q R) x g (omega arith) (omega arith))
        (put_ne (put red x false) g true p (not_hit p g (omega arith))
          ∙ put_ne red x false p (not_hit p x (omega arith))
          ∙ red_p)
        (put_ne (put red x false) g true x (not_hit x g (omega arith)) ∙ put_self red x false) k

module _ (red : ℕ → Bool) (n x p g y : ℕ) (L R ul ur o : Tree) (path : Trail)
    (red_y : red y ≡ true) where
  pub raised_near_painted :
      Once (branch L x R) (at_near p o ∷ at_near g (branch ul y ur) ∷ path)
      → red p ≡ true
      → Climbing red n (branch L x R) (at_near p o ∷ at_near g (branch ul y ur) ∷ path)
      → Climbing
          (paint3 red p y g)
          (suc n)
          (branch (branch (branch L x R) p o) g (branch ul y ur))
          path
  unfolding occurs occurs_along
  raised_near_painted once red_p k =
      let op = rw (hits_self p) at (once p) in
      let og = rw (hits_self g) at (once g) in
      let oy = rw (hits_self y) at (once y) in
      raised_near_rules red (paint3 red p y g) n x p g y L R ul ur path
        (kept3 red (λ q. occurs q (branch L x R)) p g (omega arith) (omega arith) y (omega arith))
        (kept3 red (λ q. occurs q ul) p g (omega arith) (omega arith) y (omega arith))
        (kept3 red (λ q. occurs q ur) p g (omega arith) (omega arith) y (omega arith))
        (kept3 red (λ q. occurs_along q path) p g (omega arith) (omega arith) y (omega arith)) red_p
        red_y
        (put_ne (put (put red p false) y false) g true p (not_hit p g (omega arith))
          ∙ put_ne (put red p false) y false p (not_hit p y (omega arith))
          ∙ put_self red p false)
        (put_ne (put (put red p false) y false) g true y (not_hit y g (omega arith))
          ∙ put_self (put red p false) y false)
        (put_self (put (put red p false) y false) g true) o
        (kept3 red (λ q. occurs q o) p g (omega arith) (omega arith) y (omega arith)) k

  pub raised_far_painted :
      Once (branch L x R) (at_far p o ∷ at_near g (branch ul y ur) ∷ path)
      → red p ≡ true
      → Climbing red n (branch L x R) (at_far p o ∷ at_near g (branch ul y ur) ∷ path)
      → Climbing
          (paint3 red p y g)
          (suc n)
          (branch (branch o p (branch L x R)) g (branch ul y ur))
          path
  unfolding occurs occurs_along
  raised_far_painted once red_p k =
      let op = rw (hits_self p) at (once p) in
      let og = rw (hits_self g) at (once g) in
      let oy = rw (hits_self y) at (once y) in
      raised_far_rules red (paint3 red p y g) n x p g y L R ul ur path
        (kept3 red (λ q. occurs q (branch L x R)) p g (omega arith) (omega arith) y (omega arith))
        (kept3 red (λ q. occurs q ul) p g (omega arith) (omega arith) y (omega arith))
        (kept3 red (λ q. occurs q ur) p g (omega arith) (omega arith) y (omega arith))
        (kept3 red (λ q. occurs_along q path) p g (omega arith) (omega arith) y (omega arith)) red_p
        red_y
        (put_ne (put (put red p false) y false) g true p (not_hit p g (omega arith))
          ∙ put_ne (put red p false) y false p (not_hit p y (omega arith))
          ∙ put_self red p false)
        (put_ne (put (put red p false) y false) g true y (not_hit y g (omega arith))
          ∙ put_self (put red p false) y false)
        (put_self (put (put red p false) y false) g true) o
        (kept3 red (λ q. occurs q o) p g (omega arith) (omega arith) y (omega arith)) k
