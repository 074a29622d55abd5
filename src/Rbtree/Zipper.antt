-- ===== src/Rbtree/Zipper.antt =====
-- A place in the tree of src/std_rbtree.c: the subtree that hangs there, and the way up to the root.
-- The two sides of a node are `near` and `far`, so that the same lemmas serve mirror images.
use sonic_common_utils.Base.{
  ℕ, ◌+◌, ◌≤◌, ◌≡◌, ◌≢◌, refl, sym, ◌∙◌, List, [], ◌∷◌, arith, ◌==◌, ==_refl, if◌then◌else◌,
}
use sonic_common_utils.Rbtree.{Table}
use sonic_common_utils.Rbtree.Shape.{Tree, leaf, branch}

-- A step of the way: the place is the near or the far child of `a`, whose other subtree is given.
pub data Frame : Type 0 where
  at_near : ℕ → Tree → Frame
  at_far : ℕ → Tree → Frame

abbrev pub node_of : Frame → ℕ
node_of (at_near a o) = a
node_of (at_far a o) = a

abbrev pub Trail : Type 0
Trail = List Frame

-- How often an address stands in a tree, and along a way.
abbrev pub hits : (q a : ℕ) → ℕ
hits q a = if a == q then 1 else 0

unfoldable pub occurs : ℕ → Tree → ℕ
occurs q leaf = 0
occurs q (branch l a r) = occurs q l + hits q a + occurs q r

unfoldable pub occurs_along : ℕ → Trail → ℕ
occurs_along q [] = 0
occurs_along q (at_near a o ∷ path) = hits q a + occurs q o + occurs_along q path
occurs_along q (at_far a o ∷ path) = hits q a + occurs q o + occurs_along q path

-- Every address stands at most once in the whole tree.
abbrev pub Once : Tree → Trail → Type 0
Once t path = (q : ℕ) → occurs q t + occurs_along q path ≤ 1

-- The node that a place hangs at, and the tree that the place is in.
abbrev pub parent_of : ℕ → Trail → ℕ
parent_of nil [] = nil
parent_of nil (at_near a o ∷ path) = a
parent_of nil (at_far a o ∷ path) = a

abbrev pub plug : Tree → Trail → Tree
plug t [] = t
plug t (at_near a o ∷ path) = plug (branch t a o) path
plug t (at_far a o ∷ path) = plug (branch o a t) path

pub hits_self : (a : ℕ) → hits a a ≡ 1
hits_self a = rw (==_refl a) refl

module _ (near far : Table → ℕ → ℕ) where
  -- `Rep` for the two sides given.
  abbrev pub Stands : Table → (par p : ℕ) → Tree → Type 0
  Stands s par p leaf = p ≡ s.nil
  Stands s par p (branch l a r) =
      (p ≡ a) × (a ≢ s.nil) × (s.parent a ≡ par) × Stands s a (near s a) l × Stands s a (far s a) r

  -- The pointers from the place with the node `p` up to the root.
  abbrev pub Above : Table → (p : ℕ) → Trail → Type 0
  Above s p [] = s.root ≡ p
  Above s p (at_near a o ∷ path) =
      (near s a ≡ p)
      × (a ≢ s.nil)
      × (s.parent a ≡ parent_of s.nil path)
      × Stands s a (far s a) o
      × Above s a path
  Above s p (at_far a o ∷ path) =
      (far s a ≡ p)
      × (a ≢ s.nil)
      × (s.parent a ≡ parent_of s.nil path)
      × Stands s a (near s a) o
      × Above s a path

  -- The three links of a node are as before.
  abbrev pub Same : (s s' : Table) → ℕ → Type 0
  Same s s' q = (near s' q ≡ near s q) × (far s' q ≡ far s q) × (s'.parent q ≡ s.parent q)

  module _ (s s' : Table) (own : s'.nil ≡ s.nil) where
    -- A subtree none of whose links changes stays.
    pub Stands-frame :
        (par p : ℕ) (t : Tree)
        → ((q : ℕ) → 1 ≤ occurs q t → Same s s' q)
        → Stands s par p t
        → Stands s' par p t
    unfolding occurs
    Stands-frame par p leaf same h = h ∙ sym own
    Stands-frame par p (branch l a r) same h =
        let here = same a (let one = hits_self a in rw one (omega arith)) in
        (
          h.0,
          (λ e. h.1 (e ∙ own)),
          here.2 ∙ h.2,
          rw here.0 (Stands-frame a (near s a) l (λ q i. same q (omega arith)) h.3),
          rw here.1 (Stands-frame a (far s a) r (λ q i. same q (omega arith)) h.4),
        )

    pub parent_of_kept : (path : Trail) → parent_of s'.nil path ≡ parent_of s.nil path
    parent_of_kept [] = own
    parent_of_kept (at_near a o ∷ path) = refl
    parent_of_kept (at_far a o ∷ path) = refl

    -- A way none of whose links changes stays.
    pub Above-frame :
        (p : ℕ) (path : Trail)
        → s'.root ≡ s.root
        → ((q : ℕ) → 1 ≤ occurs_along q path → Same s s' q)
        → Above s p path
        → Above s' p path
    unfolding occurs_along
    Above-frame p [] root same h = root ∙ h
    Above-frame p (at_near a o ∷ path) root same h =
        let here = same a (let one = hits_self a in rw one (omega arith)) in
        (
          here.0 ∙ h.0,
          (λ e. h.1 (e ∙ own)),
          here.2 ∙ h.2 ∙ sym (parent_of_kept path),
          rw here.1 (Stands-frame a (far s a) o (λ q i. same q (omega arith)) h.3),
          Above-frame a path root (λ q i. same q (omega arith)) h.4,
        )
    Above-frame p (at_far a o ∷ path) root same h =
        let here = same a (let one = hits_self a in rw one (omega arith)) in
        (
          here.1 ∙ h.0,
          (λ e. h.1 (e ∙ own)),
          here.2 ∙ h.2 ∙ sym (parent_of_kept path),
          rw here.0 (Stands-frame a (near s a) o (λ q i. same q (omega arith)) h.3),
          Above-frame a path root (λ q i. same q (omega arith)) h.4,
        )
