-- ===== src/Rbtree/Insertion/Rules.antt =====
-- What a round of `std_rbtree_balanceoninsert` of src/std_rbtree.c does to the rules of the colours.
use sonic_common_utils.Base.{ℕ, suc, ◌+◌, ◌≤◌, ◌≡◌, ◌∙◌, subst, Bool, true, false, ◌∷◌, arith}
use sonic_common_utils.Rbtree.Colours.{
  weight, Balanced, top_red, Around, top_red-kept, Balanced-kept, Around-kept,
}
use sonic_common_utils.Rbtree.Shape.{Tree, branch}
use sonic_common_utils.Rbtree.Zipper.{Trail, at_near, at_far, occurs, occurs_along}

-- A red node stands at a place, with the rules kept in its tree and above it: only its parent may be
-- red too.
abbrev pub Climbing : (ℕ → Bool) → ℕ → Tree → Trail → Type 0
Climbing red n t path = Balanced red n t × (top_red red t ≡ true) × Around red n path

-- A tree with a black root stands at a place where the rules are kept.
abbrev pub Settling : (ℕ → Bool) → ℕ → Tree → Trail → Type 0
Settling red n t path = Balanced red n t × (top_red red t ≡ false) × Around red n path

-- The colours of a tree, or of a way, are as before.
abbrev pub Kept : (red red' : ℕ → Bool) → Tree → Type 0
Kept red red' t = (q : ℕ) → 1 ≤ occurs q t → red' q ≡ red q

abbrev pub KeptAlong : (red red' : ℕ → Bool) → Trail → Type 0
KeptAlong red red' path = (q : ℕ) → 1 ≤ occurs_along q path → red' q ≡ red q

module _ (red red' : ℕ → Bool) (n x p g : ℕ) (L R o U : Tree) (path : Trail)
    (far_kept : Kept red red' o) (uncle_kept : Kept red red' U)
    (path_kept : KeptAlong red red' path) (red_p : red p ≡ true) (uncle : top_red red U ≡ false)
    (red_g' : red' g ≡ true) where
  -- Under the parent, which is red.
  uncle_Balanced : Balanced red (n + weight (red p)) U → Balanced red' n U
  uncle_Balanced h =
      Balanced-kept red red' n U uncle_kept
        (subst (λ m. Balanced red m U) (rw red_p (omega arith)) h)

  path_Around :
      red g ≡ false
      → Around red (n + weight (red p) + weight (red g)) path
      → Around red' (suc n) path
  path_Around e h =
      Around-kept red red' (suc n) path path_kept
        (subst (λ m. Around red m path) (rw (red_p, e) (omega arith)) h)

  -- The outer case.
  pub outer_rules :
      Kept red red' (branch L x R)
      → red' p ≡ false
      → Climbing red n (branch L x R) (at_near p o ∷ at_near g U ∷ path)
      → Settling red' (suc n) (branch (branch L x R) p (branch o g U)) path
  outer_rules kept e h = (
    (
      n,
      rw e (omega arith),
      (λ w. absurd (cc)),
      Balanced-kept red red' n (branch L x R) kept h.0,
      (
        n,
        rw red_g' (omega arith),
        (λ w. (
          top_red-kept red red' o far_kept ∙ (h.2.1 red_p).0,
          top_red-kept red red' U uncle_kept ∙ uncle,
        )),
        Balanced-kept red red' n o far_kept h.2.0,
        uncle_Balanced h.2.2.0,
      ),
    ),
    e,
    path_Around (h.2.1 red_p).1 h.2.2.2,
  )

  -- The inner case.
  pub inner_rules :
      Kept red red' L
      → Kept red red' R
      → red' p ≡ true
      → red' x ≡ false
      → Climbing red n (branch L x R) (at_far p o ∷ at_near g U ∷ path)
      → Settling red' (suc n) (branch (branch o p L) x (branch R g U)) path
  inner_rules kept_l kept_r f e h =
      let top = h.0.2 h.1 in
      let m : h.0.0 ≡ n = let w = rw h.1 at h.0.1 in omega (arith, w) in
      (
        (
          n,
          rw e (omega arith),
          (λ w. absurd (cc)),
          (
            n,
            rw f (omega arith),
            (λ w. (
              top_red-kept red red' o far_kept ∙ (h.2.1 red_p).0,
              top_red-kept red red' L kept_l ∙ top.0,
            )),
            Balanced-kept red red' n o far_kept h.2.0,
            Balanced-kept red red' n L kept_l (subst (λ k. Balanced red k L) m h.0.3),
          ),
          (
            n,
            rw red_g' (omega arith),
            (λ w. (
              top_red-kept red red' R kept_r ∙ top.1,
              top_red-kept red red' U uncle_kept ∙ uncle,
            )),
            Balanced-kept red red' n R kept_r (subst (λ k. Balanced red k R) m h.0.4),
            uncle_Balanced h.2.2.0,
          ),
        ),
        e,
        path_Around (h.2.1 red_p).1 h.2.2.2,
      )

module _ (red red' : ℕ → Bool) (n x p g y : ℕ) (L R ul ur : Tree) (path : Trail)
    (kept : Kept red red' (branch L x R)) (kept_ul : Kept red red' ul) (kept_ur : Kept red red' ur)
    (path_kept : KeptAlong red red' path) (red_p : red p ≡ true) (red_y : red y ≡ true)
    (red_p' : red' p ≡ false) (red_y' : red' y ≡ false) (red_g' : red' g ≡ true) where
  -- The parent and the uncle turn black, and the grandparent red.
  grandparent_rules :
      (P : Tree)
      → Balanced red' (suc n) P
      → top_red red' P ≡ false
      → red g ≡ false
      → Balanced red n (branch ul y ur)
      → Around red (n + weight (red p) + weight (red g)) path
      → Climbing red' (suc n) (branch P g (branch ul y ur)) path
  grandparent_rules P b top black u up =
      let m : u.0 ≡ n = let w = rw red_y at u.1 in omega (arith, w) in
      (
        (
          suc n,
          rw red_g' (omega arith),
          (λ w. (top, red_y')),
          b,
          (
            n,
            rw red_y' (omega arith),
            (λ w. absurd (cc)),
            Balanced-kept red red' n ul kept_ul (subst (λ k. Balanced red k ul) m u.3),
            Balanced-kept red red' n ur kept_ur (subst (λ k. Balanced red k ur) m u.4),
          ),
        ),
        red_g',
        Around-kept red red' (suc n) path path_kept
            (subst (λ k. Around red k path) (rw (red_p, black) (omega arith)) up),
      )

  under_p : (t : Tree) → Balanced red (n + weight (red p)) t → Balanced red n t
  under_p t h = subst (λ k. Balanced red k t) (rw red_p (omega arith)) h

  pub raised_near_rules :
      (o : Tree)
      → Kept red red' o
      → Climbing red n (branch L x R) (at_near p o ∷ at_near g (branch ul y ur) ∷ path)
      → Climbing red' (suc n) (branch (branch (branch L x R) p o) g (branch ul y ur)) path
  raised_near_rules o kept_o h =
      grandparent_rules (branch (branch L x R) p o)
        (
          n,
          rw red_p' (omega arith),
          (λ w. absurd (cc)),
          Balanced-kept red red' n (branch L x R) kept h.0,
          Balanced-kept red red' n o kept_o h.2.0,
        )
        red_p' (h.2.1 red_p).1 (under_p (branch ul y ur) h.2.2.0) h.2.2.2

  pub raised_far_rules :
      (o : Tree)
      → Kept red red' o
      → Climbing red n (branch L x R) (at_far p o ∷ at_near g (branch ul y ur) ∷ path)
      → Climbing red' (suc n) (branch (branch o p (branch L x R)) g (branch ul y ur)) path
  raised_far_rules o kept_o h =
      grandparent_rules (branch o p (branch L x R))
        (
          n,
          rw red_p' (omega arith),
          (λ w. absurd (cc)),
          Balanced-kept red red' n o kept_o h.2.0,
          Balanced-kept red red' n (branch L x R) kept h.0,
        )
        red_p' (h.2.1 red_p).1 (under_p (branch ul y ur) h.2.2.0) h.2.2.2
