-- ===== src/Rbtree/Turn.antt =====
-- A rotation of src/std_rbtree.c, at a place in the tree.
use sonic_common_utils.Base.{ℕ, ◌+◌, ◌≤◌, ◌≡◌, ◌≢◌, refl, sym, ap, ◌∙◌, subst, [], ◌∷◌, arith}
use sonic_common_utils.Rbtree.{Table}
use sonic_common_utils.Rbtree.Shape.{Tree, leaf, branch}
use sonic_common_utils.Rbtree.Zipper.{
  Trail, at_near, at_far, occurs, occurs_along, Once, parent_of, hits, hits_self, Stands, Above,
  Same, Stands-frame, Above-frame, parent_of_kept,
}
use sonic_common_utils.Rbtree.Rotation.{Turnable, Turned}
use sonic_common_utils.Rbtree.Apart.{
  ne_of_zero, Stands-not_nil, Above-not_nil, root_apart, root_occurs, parent_apart,
}

-- A subtree whose root gets another parent.
Stands-moved :
    (near far : Table → ℕ → ℕ) (s s' : Table) (old new p : ℕ) (t : Tree)
    → s'.nil ≡ s.nil
    → (p ≢ s.nil → (near s' p ≡ near s p) × (far s' p ≡ far s p) × (s'.parent p ≡ new))
    → ((q : ℕ) → q ≢ s.nil → 1 ≤ occurs q t → q ≢ p → Same near far s s' q)
    → occurs p t ≤ 1
    → Stands near far s old p t
    → Stands near far s' new p t
unfolding occurs
Stands-moved near far s s' old new p leaf own root same once h = h ∙ sym own
Stands-moved near far s s' old new p (branch l a r) own root same once h =
    let kept =
      subst (λ z. (near s' z ≡ near s z) × (far s' z ≡ far s z) × (s'.parent z ≡ new)) h.0
        (root (λ e. h.1 (sym h.0 ∙ e))) in
    let one : hits p a ≡ 1 = rw h.0 (hits_self a) in
    let none_l : occurs p l ≡ 0 = omega (arith, one, once) in
    let none_r : occurs p r ≡ 0 = omega (arith, one, once) in
    (
      h.0,
      (λ e. h.1 (e ∙ own)),
      kept.2,
      rw kept.0 (
          Stands-frame near far s s' own a (near s a) l
            (λ q i.
              same q (Stands-not_nil near far s a (near s a) q l h.3 i) (omega arith)
                (ne_of_zero (λ z. occurs z l) q p i none_l))
            h.3),
      rw kept.1 (
          Stands-frame near far s s' own a (far s a) r
            (λ q i.
              same q (Stands-not_nil near far s a (far s a) q r h.4 i) (omega arith)
                (ne_of_zero (λ z. occurs z r) q p i none_r))
            h.4),
    )

-- The way up from a place at which `y` takes the place of `x`.
module _ (near far : Table → ℕ → ℕ) (s s' : Table) (x y b : ℕ) where
  Above-Turned :
      (path : Trail)
      → Turned s s' near far x y b (parent_of s.nil path)
      → x ≢ s.nil
      → occurs_along x path ≡ 0
      → ((q : ℕ) → occurs_along q path ≤ 1)
      → ((q : ℕ) → 1 ≤ occurs_along q path → (q ≢ x) × (q ≢ y) × (q ≢ b))
      → Above near far s x path
      → Above near far s' y path
  unfolding occurs_along
  Above-Turned [] t n z once apart h = t.root refl
  Above-Turned (at_near a o ∷ path) t n z once apart h =
      let one = rw (hits_self a) at (once a) in
      let here = apart a (rw (hits_self a) (omega arith)) in
      let kept = t.near_up h.1 h.0 in
      let same : (q : ℕ) → 1 ≤ occurs q o + occurs_along q path → q ≢ a → Same near far s s' q =
        λ q i na.
          let w = apart q (omega arith) in
          let c = t.children q w.0 w.1 na in (c.0, c.1, t.parents q w.0 w.1 w.2) in
      (
        kept.0,
        (λ e. h.1 (e ∙ t.nil)),
        t.parents a here.0 here.1 here.2 ∙ h.2 ∙ sym (parent_of_kept near far s s' t.nil path),
        rw kept.1 (
            Stands-frame near far s s' t.nil a (far s a) o
              (λ q i. same q (omega arith) (ne_of_zero (λ z. occurs z o) q a i (omega arith))) h.3),
        Above-frame near far s s' t.nil a path (t.root_kept h.1)
            (λ q i.
              same q (omega arith) (ne_of_zero (λ z. occurs_along z path) q a i (omega arith)))
            h.4,
      )
  Above-Turned (at_far a o ∷ path) t n z once apart h =
      let one = rw (hits_self a) at (once a) in
      let here = apart a (rw (hits_self a) (omega arith)) in
      let kept = t.far_up h.1 (root_apart near far s a (near s a) x o h.3 n (omega arith)) in
      let same : (q : ℕ) → 1 ≤ occurs q o + occurs_along q path → q ≢ a → Same near far s s' q =
        λ q i na.
          let w = apart q (omega arith) in
          let c = t.children q w.0 w.1 na in (c.0, c.1, t.parents q w.0 w.1 w.2) in
      (
        kept.0,
        (λ e. h.1 (e ∙ t.nil)),
        t.parents a here.0 here.1 here.2 ∙ h.2 ∙ sym (parent_of_kept near far s s' t.nil path),
        rw kept.1 (
            Stands-frame near far s s' t.nil a (near s a) o
              (λ q i. same q (omega arith) (ne_of_zero (λ z. occurs z o) q a i (omega arith))) h.3),
        Above-frame near far s s' t.nil a path (t.root_kept h.1)
            (λ q i.
              same q (omega arith) (ne_of_zero (λ z. occurs_along z path) q a i (omega arith)))
            h.4,
      )

-- The node `x` at a place, its near subtree `A`, and its far child `y` with the subtrees `B` and `C`.
module _ (near far : Table → ℕ → ℕ) (s : Table) (x y : ℕ) (A B C : Tree) (path : Trail)
    (h : Stands near far s (parent_of s.nil path) x (branch A x (branch B y C)))
    (once : Once (branch A x (branch B y C)) path) where
  abbrev b : ℕ
  b = near s y

  abbrev up : ℕ
  up = parent_of s.nil path

  abbrev whole : ℕ → ℕ
  whole q = occurs q A + hits q x + (occurs q B + hits q y + occurs q C) + occurs_along q path

  total : (q : ℕ) → whole q ≤ 1
  unfolding occurs
  total q = once q

  at_x : occurs x A + 1 + (occurs x B + hits x y + occurs x C) + occurs_along x path ≤ 1
  at_x = rw (hits_self x) at (total x)

  at_y : occurs y A + hits y x + (occurs y B + 1 + occurs y C) + occurs_along y path ≤ 1
  at_y = rw (hits_self y) at (total y)

  x_y : x ≢ y
  x_y e =
      let one : hits x y ≡ 1 = rw e (hits_self y) in let o = at_x in absurd (omega (arith, one, o))

  b_apart : (q : ℕ) → q ≢ s.nil → occurs q B ≡ 0 → b ≢ q
  b_apart q n z = root_apart near far s y b q B h.4.3 n z

  pub turnable : Turnable s near far x y b up
  turnable =
      let ox = at_x in
      let oy = at_y in
      record {
        far_x = h.4.0;
        near_y = refl;
        parent_x = h.2;
        x_y = x_y;
        x_up = parent_apart near far s x path h.1 (omega arith);
        y_up = parent_apart near far s y path h.4.1 (omega arith);
        b_x = b_apart x h.1 (omega arith);
        b_y = b_apart y h.4.1 (omega arith);
        b_up = λ n.
            let i = root_occurs near far s y b B h.4.3 n in
            let o = total b in parent_apart near far s b path n (omega arith);
        x_nil = h.1;
        y_nil = h.4.1;
      }

  module _ (s' : Table) (t : Turned s s' near far x y b up) where
    Same-elsewhere : (q : ℕ) → q ≢ x → q ≢ y → q ≢ up → q ≢ b → Same near far s s' q
    Same-elsewhere q nx ny nu nb = let c = t.children q nx ny nu in (c.0, c.1, t.parents q nx ny nb)

    -- The links of the nodes of the subtrees, but for the root of `B`,
    Same-inside :
        (q : ℕ)
        → q ≢ s.nil
        → 1 ≤ occurs q A + occurs q B + occurs q C
        → q ≢ b
        → Same near far s s' q
    Same-inside q n i nb =
        let ox = at_x in
        let oy = at_y in
        let o = total q in
        Same-elsewhere q
          (λ e. let j = ap (λ z. occurs z A + occurs z B + occurs z C) e in absurd (omega arith))
          (λ e. let j = ap (λ z. occurs z A + occurs z B + occurs z C) e in absurd (omega arith))
          (parent_apart near far s q path n (omega arith)) nb

    not_b : (q : ℕ) → q ≢ s.nil → occurs q B ≡ 0 → q ≢ b
    not_b q n z e = b_apart q n z (sym e)

    -- and the two subtrees that keep their parents.
    near-Stands : Stands near far s' x (near s x) A
    near-Stands =
        Stands-frame near far s s' t.nil x (near s x) A
          (λ q i.
            let n = Stands-not_nil near far s x (near s x) q A h.3 i in
            let o = total q in Same-inside q n (omega arith) (not_b q n (omega arith)))
          h.3

    far-Stands : Stands near far s' y (far s y) C
    far-Stands =
        Stands-frame near far s s' t.nil y (far s y) C
          (λ q i.
            let n = Stands-not_nil near far s y (far s y) q C h.4.4 i in
            let o = total q in Same-inside q n (omega arith) (not_b q n (omega arith)))
          h.4.4

    middle-Stands : Stands near far s' x b B
    middle-Stands =
        let o = total b in
        let w = turnable in
        Stands-moved near far s s' y x b B t.nil
          (λ n. let c = t.children b w.b_x w.b_y (w.b_up n) in (c.0, c.1, t.parent_b n))
          (λ q n i nb. let o' = total q in Same-inside q n (omega arith) nb) (omega arith) h.4.3

    -- After the rotation `y` stands at the place, with `x` as its near child.
    pub turned-Stands : Stands near far s' (parent_of s'.nil path) y (branch (branch A x B) y C)
    turned-Stands = (
      refl,
      (λ e. h.4.1 (e ∙ t.nil)),
      t.parent_y ∙ sym (parent_of_kept near far s s' t.nil path),
      (
        t.near_y,
        (λ e. h.1 (e ∙ t.nil)),
        t.parent_x,
        rw t.near_x near-Stands,
        rw t.far_x middle-Stands,
      ),
      rw t.far_y far-Stands,
    )

    -- and the way up leads to `y`.
    pub turned-Above : Above near far s x path → Above near far s' y path
    turned-Above w =
        let ox = at_x in
        let oy = at_y in
        Above-Turned near far s s' x y b path t h.1 (omega arith)
          (λ q. let o = total q in omega arith)
          (λ q i.
            let o = total q in
            (
              ne_of_zero (λ z. occurs_along z path) q x i (omega arith),
              ne_of_zero (λ z. occurs_along z path) q y i (omega arith),
              not_b q (Above-not_nil near far s x q path w i) (omega arith),
            ))
          w
