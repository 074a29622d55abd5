-- ===== src/Rbtree/Insertion/Hanging.antt =====
-- The new node is hung at its place in src/std_rbtree.c.
use sonic_common_utils.Base.{
  ℕ, ◌+◌, ◌≤◌, ◌≡◌, ◌≢◌, refl, sym, ◌∙◌, inl, inr, true, false, [], ◌∷◌, arith, ◌==◌, ==→eq,
  Bool-cases, put,
}
use sonic_common_utils.Base.Int.{ℤ}
use sonic_common_utils.Rbtree.{Table}
use sonic_common_utils.Rbtree.Insertion.{hang}
use sonic_common_utils.Rbtree.Insertion.Ending.{At}
use sonic_common_utils.Rbtree.Insertion.Descent.{before, Sided}
use sonic_common_utils.Rbtree.Shape.{leaf, branch}
use sonic_common_utils.Rbtree.Apart.{ne_of_zero, parent_apart}
use sonic_common_utils.Rbtree.Zipper.{
  Trail, at_near, at_far, occurs, occurs_along, parent_of, hits_self, Same, Above, Stands-frame,
  Above-frame, parent_of_kept,
}
use sonic_common_utils.Rbtree.Rotation.{left_of, right_of}

-- What the writes leave.
record Hung (cmp : ℕ → ℕ → ℤ) (s s' : Table) (z y : ℕ) : Type 0 where
  nil : s'.nil ≡ s.nil
  left_z : s'.left z ≡ s.nil
  right_z : s'.right z ≡ s.nil
  parent_z : s'.parent z ≡ y
  root : y ≡ s.nil → s'.root ≡ z
  root_kept : y ≢ s.nil → s'.root ≡ s.root
  left_y : y ≢ s.nil → before cmp s z y ≡ true → (s'.left y ≡ z) × (s'.right y ≡ s.right y)
  right_y : y ≢ s.nil → before cmp s z y ≡ false → (s'.right y ≡ z) × (s'.left y ≡ s.left y)
  children : (q : ℕ) → q ≢ z → q ≢ y → (s'.left q ≡ s.left q) × (s'.right q ≡ s.right q)
  parents : (q : ℕ) → q ≢ z → s'.parent q ≡ s.parent q
  red : s'.red ≡ s.red
  item : s'.item ≡ s.item

module _ (cmp : ℕ → ℕ → ℤ) (s : Table) (z y : ℕ) (z_y : z ≢ y) where
  hang-Hung : Hung cmp s (hang cmp s z y) z y
  unfolding hang put
  hang-Hung = record {
    nil = ground arith;
    left_z = ground arith;
    right_z = ground arith;
    parent_z = ground arith;
    root = ground arith;
    root_kept = ground arith;
    left_y = ground arith;
    right_y = ground arith;
    children = ground arith;
    parents = ground arith;
    red = ground arith;
    item = ground arith;
  }

module _ (cmp : ℕ → ℕ → ℤ) (s s' : Table) (z : ℕ) where
  Hung-Above :
      (path : Trail)
      → Hung cmp s s' z (parent_of s.nil path)
      → occurs_along z path ≡ 0
      → ((q : ℕ) → occurs_along q path ≤ 1)
      → Sided cmp s z path
      → Above left_of right_of s s.nil path
      → Above left_of right_of s' z path
  unfolding occurs_along
  Hung-Above [] t none once side h = t.root refl
  Hung-Above (at_near a o ∷ path) t none once side h =
      let one = rw (hits_self a) at (once a) in
      let away = ne_of_zero (λ q. occurs_along q (at_near a o ∷ path)) in
      let kept = t.left_y h.1 side in
      let same : (q : ℕ)
          → 1 ≤ occurs q o + occurs_along q path
          → q ≢ a
          → Same left_of right_of s s' q =
        λ q i na.
          let nz = away q z (omega arith) none in
          let c = t.children q nz na in (c.0, c.1, t.parents q nz) in
      (
        kept.0,
        (λ e. h.1 (e ∙ t.nil)),
        t.parents a (away a z (rw (hits_self a) (omega arith)) none)
            ∙ h.2
            ∙ sym (parent_of_kept left_of right_of s s' t.nil path),
        rw kept.1 (
            Stands-frame left_of right_of s s' t.nil a (s.right a) o
              (λ q i. same q (omega arith) (ne_of_zero (λ n. occurs n o) q a i (omega arith))) h.3),
        Above-frame left_of right_of s s' t.nil a path (t.root_kept h.1)
            (λ q i.
              same q (omega arith) (ne_of_zero (λ n. occurs_along n path) q a i (omega arith)))
            h.4,
      )
  Hung-Above (at_far a o ∷ path) t none once side h =
      let one = rw (hits_self a) at (once a) in
      let away = ne_of_zero (λ q. occurs_along q (at_far a o ∷ path)) in
      let kept = t.right_y h.1 side in
      let same : (q : ℕ)
          → 1 ≤ occurs q o + occurs_along q path
          → q ≢ a
          → Same left_of right_of s s' q =
        λ q i na.
          let nz = away q z (omega arith) none in
          let c = t.children q nz na in (c.0, c.1, t.parents q nz) in
      (
        kept.0,
        (λ e. h.1 (e ∙ t.nil)),
        t.parents a (away a z (rw (hits_self a) (omega arith)) none)
            ∙ h.2
            ∙ sym (parent_of_kept left_of right_of s s' t.nil path),
        rw kept.1 (
            Stands-frame left_of right_of s s' t.nil a (s.left a) o
              (λ q i. same q (omega arith) (ne_of_zero (λ n. occurs n o) q a i (omega arith))) h.3),
        Above-frame left_of right_of s s' t.nil a path (t.root_kept h.1)
            (λ q i.
              same q (omega arith) (ne_of_zero (λ n. occurs_along n path) q a i (omega arith)))
            h.4,
      )

once_with :
    (z : ℕ) (path : Trail)
    → occurs_along z path ≡ 0
    → ((q : ℕ) → occurs_along q path ≤ 1)
    → (q : ℕ) → occurs q (branch leaf z leaf) + occurs_along q path ≤ 1
unfolding occurs
once_with z path none once q = elim (Bool-cases (z == q)) [
  | inl e ↦ let f : occurs_along q path ≡ 0 = rw (sym (==→eq z q e)) none in rw (e, f) (omega arith)
  | inr e ↦ let o = once q in rw e (omega arith)
]

-- A new node, hung at its place, stands there without children.
pub hang-At :
    (cmp : ℕ → ℕ → ℤ) (s : Table) (z : ℕ) (way : Trail)
    → z ≢ s.nil
    → occurs_along z way ≡ 0
    → At s s.nil leaf way
    → Sided cmp s z way
    → At (hang cmp s z (parent_of s.nil way)) z (branch leaf z leaf) way
unfolding occurs
hang-At cmp s z way n none h side =
    let apart = parent_apart left_of right_of s z way n none in
    let t = hang-Hung cmp s z (parent_of s.nil way) apart in
    let s' = hang cmp s z (parent_of s.nil way) in
    let once : (q : ℕ) → occurs_along q way ≤ 1 = λ q. let o = h.once q in omega arith in
    record {
      stands = (
        refl,
        (λ e. n (e ∙ t.nil)),
        t.parent_z ∙ sym (parent_of_kept left_of right_of s s' t.nil way),
        t.left_z ∙ sym t.nil,
        t.right_z ∙ sym t.nil,
      );
      above = Hung-Above cmp s s' z way t none once side h.above;
      once = once_with z way none once;
    }

pub hang-kept :
    (cmp : ℕ → ℕ → ℤ) (s : Table) (z y : ℕ)
    → z ≢ y
    → ((hang cmp s z y).red ≡ s.red)
      × ((hang cmp s z y).item ≡ s.item)
      × ((hang cmp s z y).nil ≡ s.nil)
hang-kept cmp s z y ne = let t = hang-Hung cmp s z y ne in (t.red, t.item, t.nil)
