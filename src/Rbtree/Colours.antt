-- ===== src/Rbtree/Colours.antt =====
-- The rules of the colours of the tree of src/std_rbtree.c, on a whole tree and around a place in it.
use sonic_common_utils.Base.{
  ℕ, ◌+◌, ◌≤◌, ◌≡◌, refl, sym, ◌∙◌, subst, inl, inr, Bool, true, false, [], ◌∷◌, arith,
  if◌then◌else◌, Bool-cases,
}
use sonic_common_utils.Rbtree.Shape.{Tree, leaf, branch}
use sonic_common_utils.Rbtree.Zipper.{Trail, at_near, at_far, occurs, occurs_along, plug, hits_self}
use sonic_common_utils.Rbtree.Place.{flip, flip_path, flip-flip}

-- A black node counts, a red one does not.
abbrev pub weight : Bool → ℕ
weight b = if b then 0 else 1

abbrev pub top_red : (ℕ → Bool) → Tree → Bool
top_red red leaf = false
top_red red (branch l a r) = red a

-- Every way down meets `n` black nodes, and no red node has a red child.
abbrev pub Balanced : (ℕ → Bool) → ℕ → Tree → Type 0
Balanced red n leaf = n ≡ 0
Balanced red n (branch l a r) =
    (m : ℕ) × (n ≡ m + weight (red a))
    × (red a ≡ true → (top_red red l ≡ false) × (top_red red r ≡ false))
    × Balanced red m l
    × Balanced red m r

-- The rules are kept, for some number of black nodes.
abbrev pub Ruled : (ℕ → Bool) → Tree → Type 0
Ruled red t = (n : ℕ) × Balanced red n t

abbrev pub head_red : (ℕ → Bool) → Trail → Bool
head_red red [] = false
head_red red (at_near a o ∷ path) = red a
head_red red (at_far a o ∷ path) = red a

-- The rules above a place whose tree has `n` black nodes on every way down.
abbrev pub Around : (ℕ → Bool) → ℕ → Trail → Type 0
Around red n [] = Unit
Around red n (at_near a o ∷ path) =
    Balanced red n o
    × (red a ≡ true → (top_red red o ≡ false) × (head_red red path ≡ false))
    × Around red (n + weight (red a)) path
Around red n (at_far a o ∷ path) =
    Balanced red n o
    × (red a ≡ true → (top_red red o ≡ false) × (head_red red path ≡ false))
    × Around red (n + weight (red a)) path

module _ (red red' : ℕ → Bool) where
  pub top_red-kept :
      (t : Tree) → ((q : ℕ) → 1 ≤ occurs q t → red' q ≡ red q) → top_red red' t ≡ top_red red t
  unfolding occurs
  top_red-kept leaf same = refl
  top_red-kept (branch l a r) same = same a (rw (hits_self a) (omega arith))

  pub Balanced-kept :
      (n : ℕ) (t : Tree)
      → ((q : ℕ) → 1 ≤ occurs q t → red' q ≡ red q)
      → Balanced red n t
      → Balanced red' n t
  unfolding occurs
  Balanced-kept n leaf same h = h
  Balanced-kept n (branch l a r) same h =
      let here = same a (rw (hits_self a) (omega arith)) in
      let left = λ (q : ℕ) (i : 1 ≤ occurs q l). same q (omega arith) in
      let right = λ (q : ℕ) (i : 1 ≤ occurs q r). same q (omega arith) in
      (
        h.0,
        rw here h.1,
        (λ e.
            let w = h.2 (sym here ∙ e) in (top_red-kept l left ∙ w.0, top_red-kept r right ∙ w.1)),
        Balanced-kept h.0 l left h.3,
        Balanced-kept h.0 r right h.4,
      )

  head_red-kept :
      (path : Trail)
      → ((q : ℕ) → 1 ≤ occurs_along q path → red' q ≡ red q)
      → head_red red' path ≡ head_red red path
  unfolding occurs_along
  head_red-kept [] same = refl
  head_red-kept (at_near a o ∷ path) same = same a (rw (hits_self a) (omega arith))
  head_red-kept (at_far a o ∷ path) same = same a (rw (hits_self a) (omega arith))

  pub Around-kept :
      (n : ℕ) (path : Trail)
      → ((q : ℕ) → 1 ≤ occurs_along q path → red' q ≡ red q)
      → Around red n path
      → Around red' n path
  unfolding occurs_along
  Around-kept n [] same h = tt
  Around-kept n (at_near a o ∷ path) same h =
      let here = same a (rw (hits_self a) (omega arith)) in
      let side = λ (q : ℕ) (i : 1 ≤ occurs q o). same q (omega arith) in
      let up = λ (q : ℕ) (i : 1 ≤ occurs_along q path). same q (omega arith) in
      (
        Balanced-kept n o side h.0,
        (λ e.
            let w = h.1 (sym here ∙ e) in (top_red-kept o side ∙ w.0, head_red-kept path up ∙ w.1)),
        rw here (Around-kept (n + weight (red a)) path up h.2),
      )
  Around-kept n (at_far a o ∷ path) same h =
      let here = same a (rw (hits_self a) (omega arith)) in
      let side = λ (q : ℕ) (i : 1 ≤ occurs q o). same q (omega arith) in
      let up = λ (q : ℕ) (i : 1 ≤ occurs_along q path). same q (omega arith) in
      (
        Balanced-kept n o side h.0,
        (λ e.
            let w = h.1 (sym here ∙ e) in (top_red-kept o side ∙ w.0, head_red-kept path up ∙ w.1)),
        rw here (Around-kept (n + weight (red a)) path up h.2),
      )

module _ (red : ℕ → Bool) where
  -- In the mirror image.
  pub top_red-flip : (t : Tree) → top_red red (flip t) ≡ top_red red t
  unfolding flip
  top_red-flip leaf = refl
  top_red-flip (branch l a r) = refl

  pub Balanced-flip : (n : ℕ) (t : Tree) → Balanced red n t → Balanced red n (flip t)
  unfolding flip
  Balanced-flip n leaf h = h
  Balanced-flip n (branch l a r) h = (
    h.0,
    h.1,
    (λ e. let w = h.2 e in (top_red-flip r ∙ w.1, top_red-flip l ∙ w.0)),
    Balanced-flip h.0 r h.4,
    Balanced-flip h.0 l h.3,
  )

  pub head_red-flip : (path : Trail) → head_red red (flip_path path) ≡ head_red red path
  unfolding flip_path
  head_red-flip [] = refl
  head_red-flip (at_near a o ∷ path) = refl
  head_red-flip (at_far a o ∷ path) = refl

  pub Around-flip : (n : ℕ) (path : Trail) → Around red n path → Around red n (flip_path path)
  unfolding flip_path
  Around-flip n [] h = tt
  Around-flip n (at_near a o ∷ path) h = (
    Balanced-flip n o h.0,
    (λ e. let w = h.1 e in (top_red-flip o ∙ w.0, head_red-flip path ∙ w.1)),
    Around-flip (n + weight (red a)) path h.2,
  )
  Around-flip n (at_far a o ∷ path) h = (
    Balanced-flip n o h.0,
    (λ e. let w = h.1 e in (top_red-flip o ∙ w.0, head_red-flip path ∙ w.1)),
    Around-flip (n + weight (red a)) path h.2,
  )

pub flip_path-flip_path : (path : Trail) → flip_path (flip_path path) ≡ path
unfolding flip_path
flip_path-flip_path [] = refl
flip_path-flip_path (at_near a o ∷ path) = rw (flip-flip o, flip_path-flip_path path) refl
flip_path-flip_path (at_far a o ∷ path) = rw (flip-flip o, flip_path-flip_path path) refl

module _ (red : ℕ → Bool) where
  pub Balanced-unflip : (n : ℕ) (t : Tree) → Balanced red n (flip t) → Balanced red n t
  Balanced-unflip n t h = subst (Balanced red n) (flip-flip t) (Balanced-flip red n (flip t) h)

  pub Around-unflip : (n : ℕ) (path : Trail) → Around red n (flip_path path) → Around red n path
  Around-unflip n path h =
      subst (Around red n) (flip_path-flip_path path) (Around-flip red n (flip_path path) h)

  -- A red node has no red node above it.
  pub below :
      {b : Bool} (t : Tree) → b ≡ true → (top_red red t ≡ true → b ≡ false) → top_red red t ≡ false
  below t e top = elim (Bool-cases (top_red red t)) [
    | inl w ↦ let f = top w in absurd (cc)
    | inr w ↦ w
  ]

  -- A tree that keeps the rules, put at a place that does.
  pub plug-Balanced :
      (n : ℕ) (t : Tree) (path : Trail)
      → Balanced red n t
      → (top_red red t ≡ true → head_red red path ≡ false)
      → Around red n path
      → Ruled red (plug t path)
  plug-Balanced n t [] h top up = (n, h)
  plug-Balanced n t (at_near a o ∷ path) h top up =
      plug-Balanced (n + weight (red a)) (branch t a o) path
        (n, refl, (λ e. (below t e top, (up.1 e).0)), h, up.0) (λ e. (up.1 e).1) up.2
  plug-Balanced n t (at_far a o ∷ path) h top up =
      plug-Balanced (n + weight (red a)) (branch o a t) path
        (n, refl, (λ e. ((up.1 e).0, below t e top)), up.0, h) (λ e. (up.1 e).1) up.2
