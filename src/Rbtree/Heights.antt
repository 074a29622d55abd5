-- ===== src/Rbtree/Heights.antt =====
-- How deep the tree of src/std_rbtree.c is, and so how many rounds a search in it takes.
use native.Mathlib.Nat.{pow-suc, pow-le-pow_right, mul-le-mul}
use sonic_common_utils.Base.{
  ℕ, zero, suc, ◌+◌, ◌*◌, ◌^◌, ◌<◌, ◌≤◌, ◌≡◌, refl, sym, ap, ◌∙◌, ltb, inl, inr, Bool, true, false,
  arith, some, if◌then◌else◌, Bool-cases,
}
use sonic_common_utils.Base.Int.{ℤ, is_neg}
use sonic_common_utils.Rbtree.{Table, node_getexact}
use sonic_common_utils.Rbtree.Colours.{Balanced, Ruled, top_red}
use sonic_common_utils.Rbtree.Insertion.Repeated.{Valid}
use sonic_common_utils.Rbtree.Search.{IsCompare, Answer, getexact_deep-Answer}
use sonic_common_utils.Rbtree.Shape.{Tree, leaf, branch, inorder, count, depth, deeper, IsTree}

power : {a b : ℕ} → a ≡ b → 2 ^ a ≡ 2 ^ b
power e = ap (λ (k : ℕ). 2 ^ k) e

four_times : (a : ℕ) → a * a * 2 * 2 ≡ a * 2 * (a * 2)
four_times a = grind arith

pow_twice : (n : ℕ) → 2 ^ (2 * n) ≡ 2 ^ n * 2 ^ n
pow_twice zero = refl
pow_twice (suc n) =
    let e : 2 * suc n ≡ suc (suc (2 * n)) = omega arith in
    power e
    ∙ pow-suc 2 (suc (2 * n))
    ∙ ap (λ (a : ℕ). a * 2) (pow-suc 2 (2 * n) ∙ ap (λ (a : ℕ). a * 2) (pow_twice n))
    ∙ four_times (2 ^ n)
    ∙ ap (λ (a : ℕ). a * a) (sym (pow-suc 2 n))

abbrev slack : Bool → ℕ
slack b = if b then 1 else 0

red_step : (a b m n : ℕ) → n ≡ m + 0 → a ≤ 2 * m + 0 → b ≤ 2 * m + 0 → suc (deeper a b) ≤ 2 * n + 1
red_step a b m n e i j = ground arith

black_step :
    (a b m n : ℕ) (c d : Bool)
    → n ≡ m + 1
    → a ≤ 2 * m + slack c
    → b ≤ 2 * m + slack d
    → suc (deeper a b) ≤ 2 * n + 0
black_step a b m n c d e i j = ground arith

pow_next : (m : ℕ) → 2 ^ (m + 1) ≡ 2 ^ m + 2 ^ m
pow_next m =
    let e : m + 1 ≡ suc m = omega arith in let f = pow-suc 2 m in power e ∙ omega (arith, f)

module _ (red : ℕ → Bool) where
  -- A red node stands between black ones.
  depth_le_black : (n : ℕ) (t : Tree) → Balanced red n t → depth t ≤ 2 * n + slack (top_red red t)
  unfolding depth
  depth_le_black n leaf h = omega arith
  depth_le_black n (branch l a r) h =
      let i = depth_le_black h.0 l h.3 in
      let j = depth_le_black h.0 r h.4 in
      elim (Bool-cases (red a)) [
        | inl e ↦
            let w = h.2 e in
            let u = rw w.0 at i in
            let v = rw w.1 at j in
            let m = rw e at h.1 in rw e (red_step (depth l) (depth r) h.0 n m u v)
        | inr e ↦
            let m = rw e at h.1 in
            rw e (black_step (depth l) (depth r) h.0 n (top_red red l) (top_red red r) m i j)
      ]

  -- The black nodes alone make a full tree.
  black_le_count : (n : ℕ) (t : Tree) → Balanced red n t → 2 ^ n ≤ count t + 1
  unfolding count
  black_le_count n leaf h = rw h (omega arith)
  black_le_count n (branch l a r) h =
      let i = black_le_count h.0 l h.3 in
      let j = black_le_count h.0 r h.4 in
      elim (Bool-cases (red a)) [
        | inl e ↦
            let m : n ≡ h.0 = let w = rw e at h.1 in omega (arith, w) in
            let q = power m in omega (arith, q, i, j)
        | inr e ↦ let m = rw e at h.1 in let q = power m ∙ pow_next h.0 in omega (arith, q, i, j)
      ]

-- The square of one more than the nodes bounds the power of the depth.
pub pow-depth_le :
    (red : ℕ → Bool) (t : Tree)
    → Ruled red t
    → top_red red t ≡ false
    → 2 ^ depth t ≤ (count t + 1) * (count t + 1)
pow-depth_le red t (n, h) e =
    let i : depth t ≤ 2 * n = let w = rw e at (depth_le_black red n t h) in omega (arith, w) in
    let j = black_le_count red n t h in
    let two : 0 < 2 = omega arith in
    let p = pow-le-pow_right two i in
    let q = pow_twice n in let r = mul-le-mul j j in omega (arith, p, q, r)

root_top : (s : Table) (t : Tree) → IsTree s t → s.red s.root ≡ false → top_red s.red t ≡ false
root_top s leaf h e = refl
root_top s (branch l a r) h e = ap s.red (sym h.rep.0) ∙ e

module _ (cmp : ℕ → ℕ → ℤ) (laws : IsCompare cmp)
    (asym : (a b : ℕ) → is_neg (cmp a b) ≡ true → is_neg (cmp b a) ≡ false) where
  -- In a valid table, where `_std_rbtree_getexact` has fuel for more rounds than twice the binary
  -- logarithm of one more than the number of nodes, it ends, and returns a node of the tree that is
  -- equal to the key, or null if no node is.
  pub getexact_logarithmic-Answer :
      (s : Table) (t : Tree) (fuel key : ℕ)
      → Valid cmp laws asym s t
      → (count t + 1) * (count t + 1) < 2 ^ fuel
      → (x : ℕ) × (node_getexact fuel cmp s key ≡ some x) × Answer cmp s 0 key (inorder t) x
  getexact_logarithmic-Answer s t fuel key v n =
      getexact_deep-Answer cmp s laws key fuel t v.shape v.ordered
        (elim (Bool-cases (ltb (depth t) fuel)) [
          | inl w ↦ ground arith
          | inr w ↦
              let two : 0 < 2 = omega arith in
              let i : fuel ≤ depth t = ground arith in
              let p = pow-le-pow_right two i in
              let q = pow-depth_le s.red t v.rules (root_top s t v.shape v.root_black) in
              absurd (omega (arith, p, q))
        ])
