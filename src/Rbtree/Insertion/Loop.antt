-- ===== src/Rbtree/Insertion/Loop.antt =====
-- The loop of `std_rbtree_balanceoninsert` of src/std_rbtree.c ends, and keeps the nodes in order.
use sonic_common_utils.Base.{
  ℕ, suc, ◌≤◌, ◌≡◌, ◌≢◌, ◌⊎◌, sym, ap, ◌∙◌, subst, inl, inr, Bool, true, false, [], ◌∷◌, arith,
  ◌==◌, ==_refl, ne→==, if◌then◌else◌,
}
use sonic_common_utils.Rbtree.{Table}
use sonic_common_utils.Rbtree.Insertion.{balance_round, balance_under_left, balance_under_right}
use sonic_common_utils.Rbtree.Insertion.Uncle.{Before, under-outcome}
use sonic_common_utils.Rbtree.Insertion.Rules.{Climbing}
use sonic_common_utils.Rbtree.Colours.{
  Balanced-flip, Balanced-unflip, top_red-flip, Around-flip, Around-unflip,
}
use sonic_common_utils.Rbtree.Insertion.Round.{
  graft, balance_under, Settled, Raised, under_left, under_right, Place-up_near, Place-up_far,
}
use sonic_common_utils.Rbtree.Shape.{Tree, branch, inorder}
use sonic_common_utils.Rbtree.Apart.{root_apart}
use sonic_common_utils.Rbtree.Zipper.{
  Frame, Trail, at_near, at_far, occurs, occurs_along, hits_self, node_of,
}
use sonic_common_utils.Rbtree.Place.{
  Place, occurs_along-flip, flip, flip_path, flip-flip, Place-flip, Place-unflip,
}
use sonic_common_utils.Rbtree.Rotation.{left_of, right_of}
use sonic_common_utils.Rbtree.Sides.{left_side, right_side}

-- The root of the tree around a place is black, if the place is not the root.
abbrev pub RootBlack : (ℕ → Bool) → Trail → Type 0
RootBlack red [] = Unit
RootBlack red (f ∷ []) = red (node_of f) ≡ false
RootBlack red (f ∷ g ∷ path) = RootBlack red (g ∷ path)

pub RootBlack-behind :
    (red : ℕ → Bool) (f : Frame) (path : Trail) → RootBlack red (f ∷ path) → RootBlack red path
RootBlack-behind red f [] h = tt
RootBlack-behind red f (g ∷ path) h = h

module _ (red red' : ℕ → Bool) where
  pub RootBlack-kept :
      (path : Trail)
      → ((q : ℕ) → 1 ≤ occurs_along q path → red' q ≡ red q)
      → RootBlack red path
      → RootBlack red' path
  unfolding occurs_along
  RootBlack-kept [] same h = tt
  RootBlack-kept (at_near a o ∷ []) same h = same a (rw (hits_self a) (omega arith)) ∙ h
  RootBlack-kept (at_far a o ∷ []) same h = same a (rw (hits_self a) (omega arith)) ∙ h
  RootBlack-kept (at_near a o ∷ g ∷ path) same h =
      RootBlack-kept (g ∷ path) (λ q i. same q (omega arith)) h
  RootBlack-kept (at_far a o ∷ g ∷ path) same h =
      RootBlack-kept (g ∷ path) (λ q i. same q (omega arith)) h

-- The outcome on the right side, seen from the left.
Settled-flip :
    (K K' : ℕ → Type 0)
    → ((n : ℕ) → K n → K' n)
    → (s : Table) (G : Tree) (path : Trail) (r : Table × ℕ)
    → Settled right_side K' s (flip G) (flip_path path) r
    → Settled left_side K s G path r
Settled-flip K K' turn s G path r h = record {
  node = h.node;
  tree = flip h.tree;
  place = Place-unflip left_of right_of r.0 h.node (flip h.tree) path (
      subst (λ t. Place right_of left_of r.0 h.node t (flip_path path)) (sym (flip-flip h.tree))
        h.place);
  order =
      (sym (ap inorder (flip-flip G)) ∙ h.order.1, h.order.0 ∙ sym (ap inorder (flip-flip h.tree)));
  parent_black = h.parent_black;
  item = h.item;
  nil = h.nil;
  rules = λ n k.
      let w = h.rules n (turn n k) in
      (
        Balanced-flip r.0.red (suc n) h.tree w.0,
        top_red-flip r.0.red h.tree ∙ w.1,
        Around-unflip r.0.red (suc n) path w.2,
      );
}

Raised-flip :
    (K K' : ℕ → Type 0)
    → ((n : ℕ) → K n → K' n)
    → (s : Table) (g : ℕ) (G : Tree) (path : Trail) (r : Table × ℕ)
    → Raised right_side K' s g (flip G) (flip_path path) r
    → Raised left_side K s g G path r
Raised-flip K K' turn s g G path r h = record {
  place = Place-unflip left_of right_of r.0 g G path h.place;
  next = h.next;
  colours = λ q i. h.colours q (rw (occurs_along-flip q path) i);
  item = h.item;
  nil = h.nil;
  rules = λ n k.
      let w = h.rules n (turn n k) in
      (
        Balanced-unflip r.0.red (suc n) G w.0,
        sym (top_red-flip r.0.red G) ∙ w.1,
        Around-unflip r.0.red (suc n) path w.2,
      );
}

abbrev is_left : Table → ℕ → Bool
is_left s x = s.parent x == s.left (s.parent (s.parent x))

round_by :
    (s : Table) (x : ℕ) (b : Bool)
    → is_left s x ≡ b
    → balance_round s x ≡ (if b then balance_under_left s x else balance_under_right s x)
unfolding balance_round
round_by s x b e = ap (λ c. if c then balance_under_left s x else balance_under_right s x) e

round_left :
    (s : Table) (x p g : ℕ)
    → s.parent x ≡ p
    → s.parent p ≡ g
    → s.left g ≡ p
    → balance_round s x ≡ balance_under left_side s x
round_left s x p g up upper e =
    round_by s x true (rw (up, upper, e) (==_refl p)) ∙ sym (under_left s x)

round_right :
    (s : Table) (x p g : ℕ)
    → s.parent x ≡ p
    → s.parent p ≡ g
    → s.left g ≢ p
    → balance_round s x ≡ balance_under right_side s x
round_right s x p g up upper ne =
    round_by s x false (rw (up, upper) (ne→== p (s.left g) (λ e. ne (sym e))))
    ∙ sym (under_right s x)

-- One round at a node with a grandparent.
abbrev pub Outcome : (ℕ → Type 0) → Table → Frame → Tree → Trail → Table × ℕ → Type 0
Outcome K s f G path r = Settled left_side K s G path r ⊎ Raised left_side K s (node_of f) G path r

Outcome-flip :
    (K K' : ℕ → Type 0)
    → ((n : ℕ) → K n → K' n)
    → (s : Table) (g : ℕ) (G : Tree) (path : Trail) (r : Table × ℕ)
    → Settled right_side K' s (flip G) (flip_path path) r
      ⊎ Raised right_side K' s g (flip G) (flip_path path) r
    → Settled left_side K s G path r ⊎ Raised left_side K s g G path r
Outcome-flip K K' turn s g G path r (inl h) = inl (Settled-flip K K' turn s G path r h)
Outcome-flip K K' turn s g G path r (inr h) = inr (Raised-flip K K' turn s g G path r h)

Before-flip :
    (s : Table) (p : ℕ) (t : Tree) (f f' : Frame) (path : Trail) (n : ℕ)
    → Before left_side s p t f f' path n
    → Climbing s.red n (flip t) (flip_path (f ∷ f' ∷ path)) × (s.red p ≡ true)
Before-flip s p t f f' path n k = (
  (
    Balanced-flip s.red n t k.0.0,
    top_red-flip s.red t ∙ k.0.1,
    Around-flip s.red n (f ∷ f' ∷ path) k.0.2,
  ),
  k.1,
)

-- The parent is no left child where it is the right one.
not_left :
    (s : Table) (p g : ℕ) (t U : Tree) (path : Trail)
    → 1 ≤ occurs p t
    → Place left_of right_of s p t (at_far g U ∷ path)
    → p ≢ s.nil
    → s.left g ≢ p
unfolding occurs_along
not_left s p g t U path i h n =
    let w = h.once p in root_apart left_of right_of s g (s.left g) p U h.above.3 n (omega arith)

pub round-Outcome :
    (s : Table) (x : ℕ) (L R : Tree) (f f' : Frame) (path : Trail)
    → Place left_of right_of s x (branch L x R) (f ∷ f' ∷ path)
    → Outcome
        (Before left_side s (node_of f) (branch L x R) f f' path)
        s
        f'
        (graft f' (graft f (branch L x R)))
        path
        (balance_round s x)
unfolding flip flip_path occurs
round-Outcome s x L R (at_near p o) (at_near g U) path h =
    rw (round_left s x p g h.stands.2 h.above.2 h.above.4.0)
      (under-outcome left_side s x g L R U (at_near p o) path h)
round-Outcome s x L R (at_far p o) (at_near g U) path h =
    rw (round_left s x p g h.stands.2 h.above.2 h.above.4.0)
      (under-outcome left_side s x g L R U (at_far p o) path h)
round-Outcome s x L R (at_near p o) (at_far g U) path h =
    let t = branch L x R in
    let hp = Place-up_near left_of right_of s p x t o (at_far g U ∷ path) h in
    let ne = not_left s p g (branch t p o) U path (rw (hits_self p) (omega arith)) hp h.above.1 in
    rw (round_right s x p g h.stands.2 h.above.2 ne) (
      Outcome-flip (Before left_side s p t (at_near p o) (at_far g U) path)
        (Before right_side s p (flip t) (at_far p (flip o)) (at_near g (flip U)) (flip_path path))
        (Before-flip s p t (at_near p o) (at_far g U) path) s g (branch U g (branch t p o)) path
        (balance_under right_side s x)
        (under-outcome right_side s x g (flip R) (flip L) (flip U) (at_far p (flip o))
          (flip_path path) (Place-flip left_of right_of s x t (at_near p o ∷ at_far g U ∷ path) h)))
round-Outcome s x L R (at_far p o) (at_far g U) path h =
    let t = branch L x R in
    let hp = Place-up_far left_of right_of s p x t o (at_far g U ∷ path) h in
    let ne = not_left s p g (branch o p t) U path (rw (hits_self p) (omega arith)) hp h.above.1 in
    rw (round_right s x p g h.stands.2 h.above.2 ne) (
      Outcome-flip (Before left_side s p t (at_far p o) (at_far g U) path)
        (Before right_side s p (flip t) (at_near p (flip o)) (at_near g (flip U)) (flip_path path))
        (Before-flip s p t (at_far p o) (at_far g U) path) s g (branch U g (branch o p t)) path
        (balance_under right_side s x)
        (under-outcome right_side s x g (flip R) (flip L) (flip U) (at_near p (flip o))
          (flip_path path) (Place-flip left_of right_of s x t (at_far p o ∷ at_far g U ∷ path) h)))
