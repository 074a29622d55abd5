-- ===== src/Radix/Walking/Passing.antt =====
-- The walk of src/std_radix.c passes through a subtree and ends at its root.
use sonic_common_utils.Base.{
  ℕ, suc, ◌+◌, ◌-◌, ◌*◌, ◌≤◌, ◌<◌, ◌≡◌, ◌≢◌, refl, sym, ap, ◌∙◌, subst, inl, inr, arith, ◌==◌,
  ==→eq, ==→ne, Bool-cases, if◌then◌else◌,
}
use sonic_common_utils.Radix.{RtTable}
use sonic_common_utils.Radix.Removal.{walk_down, walk_up, walk_right}
use sonic_common_utils.Radix.Shape.{Linked, AllNodes}
use sonic_common_utils.Radix.Walking.{Walk}
use sonic_common_utils.Rbtree.Shape.{Tree, leaf, branch, count}
use sonic_common_utils.Radix.Walking.Rounds.{
  fold_entries, entries, at, go, after, left_after, step_down, step_down_end, step_right,
  step_right_end, step_up_left, step_up_right,
}

-- No node has the same child on both sides.
abbrev pub Apart : RtTable → Tree → Type 0
Apart s t = AllNodes (λ a. s.rtn_left a ≡ s.rtn_right a → s.rtn_left a ≡ 0) t

module _ {ℓ} {U : Type ℓ} (f : U → ℕ → U) (s : RtTable) where
  -- The first walk is the second one, so many rounds later.
  abbrev pub Runs : ℕ → Walk U → Walk U → Type ℓ
  Runs k w w' = (fuel : ℕ) → go f s (fuel + k) w ≡ go f s fuel w'

  one_round : (w w' : Walk U) → ((fuel : ℕ) → go f s (suc fuel) w ≡ go f s fuel w') → Runs 1 w w'
  one_round w w' h fuel = ap (λ k. go f s k w) (omega arith) ∙ h fuel

  chained : (j k : ℕ) (w w' w'' : Walk U) → Runs j w w' → Runs k w' w'' → Runs (j + k) w w''
  chained j k w w' w'' g h fuel =
      let e : fuel + (j + k) ≡ fuel + k + j = omega arith in
      ap (λ m. go f s m w) e ∙ g (fuel + k) ∙ h fuel

  -- What is left of the count is enough for the two subtrees.
  room :
      (n a i j : ℕ)
      → (if s.rtn_rth a == 0 then 0 else 1) + i + j < n
      → (i < left_after f s n a) × (j < left_after f s n a - i)
  unfolding left_after
  room n a i j h = (ground arith, ground arith)

  -- The walk through a tree ends at its root, with the entries visited.
  abbrev pub Passes : U → ℕ → ℕ → Tree → Type ℓ
  Passes u n p t =
      (k : ℕ) × (k ≤ 4 * count t)
      × Runs k (at f s u n p walk_down)
          (at f s (fold_entries f s u t) (n - entries f s t) p walk_up)

  pub nothing_in :
      (u : U) (par p : ℕ) (t : Tree)
      → p ≡ 0
      → Linked s par p t
      → (fold_entries f s u t ≡ u) × (entries f s t ≡ 0)
  unfolding fold_entries entries
  nothing_in u par p leaf e h = (refl, refl)
  nothing_in u par p (branch l a r) e h = absurd (h.1 (sym h.0 ∙ e))

  through_left :
      (u : U) (n a : ℕ) (l : Tree)
      → a ≢ 0
      → Linked s a (s.rtn_left a) l
      → 0 < n
      → entries f s l < left_after f s n a
      → (s.rtn_left a ≢ 0 → Passes (after f s u a) (left_after f s n a) (s.rtn_left a) l)
      → (s.rtn_left a ≢ 0 → s.rtn_parent (s.rtn_left a) ≡ a)
      → (k : ℕ) × (k ≤ 4 * count l + 2)
        × Runs k (at f s u n a walk_down) (
            at f s
              (fold_entries f s (after f s u a) l)
              (left_after f s n a - entries f s l)
              a
              walk_right)
  through_left u n a l ne h some_left more inner up =
      let left = s.rtn_left a in
      let v = after f s u a in
      let m = left_after f s n a in
      let rest : 0 < m - entries f s l = omega arith in
      elim (Bool-cases (left == 0)) [
        | inl e ↦
            let z = ==→eq left 0 e in
            let (same, none) = nothing_in v a left l z h in
            (
              1,
              omega arith,
              one_round (at f s u n a walk_down)
                  (at f s (fold_entries f s v l) (m - entries f s l) a walk_right)
                  (λ fuel.
                    step_down_end f s fuel u n a (omega arith) ne z
                    ∙ ap (λ b. go f s fuel (at f s b m a walk_right)) (sym same)
                    ∙ ap (λ k. go f s fuel (at f s (fold_entries f s v l) k a walk_right))
                        (omega arith)),
            )
        | inr e ↦
            let there = ==→ne left 0 e in
            let (k, few, run) = inner there in
            (
              1 + k + 1,
              omega arith,
              chained (1 + k) 1 (at f s u n a walk_down)
                  (at f s (fold_entries f s v l) (m - entries f s l) left walk_up)
                  (at f s (fold_entries f s v l) (m - entries f s l) a walk_right)
                  (chained 1 k (at f s u n a walk_down) (at f s v m left walk_down)
                    (at f s (fold_entries f s v l) (m - entries f s l) left walk_up)
                    (one_round (at f s u n a walk_down) (at f s v m left walk_down)
                      (λ fuel. step_down f s fuel u n a (omega arith) ne there))
                    run)
                  (one_round (at f s (fold_entries f s v l) (m - entries f s l) left walk_up)
                    (at f s (fold_entries f s v l) (m - entries f s l) a walk_right)
                    (λ fuel.
                      step_up_left f s fuel (fold_entries f s v l) (m - entries f s l) a rest ne
                        left there (up there) refl)),
            )
      ]

  through_right :
      (u : U) (n a : ℕ) (r : Tree)
      → a ≢ 0
      → Linked s a (s.rtn_right a) r
      → entries f s r < n
      → (s.rtn_right a ≢ 0 → Passes u n (s.rtn_right a) r)
      → (s.rtn_right a ≢ 0 → s.rtn_parent (s.rtn_right a) ≡ a)
      → (s.rtn_right a ≢ 0 → s.rtn_left a ≢ s.rtn_right a)
      → (k : ℕ) × (k ≤ 4 * count r + 2)
        × Runs k
            (at f s u n a walk_right)
            (at f s (fold_entries f s u r) (n - entries f s r) a walk_up)
  through_right u n a r ne h more inner up apart =
      let right = s.rtn_right a in
      elim (Bool-cases (right == 0)) [
        | inl e ↦
            let z = ==→eq right 0 e in
            let (same, none) = nothing_in u a right r z h in
            (
              1,
              omega arith,
              one_round (at f s u n a walk_right)
                  (at f s (fold_entries f s u r) (n - entries f s r) a walk_up)
                  (λ fuel.
                    step_right_end f s fuel u n a (omega arith) ne z
                    ∙ ap (λ b. go f s fuel (at f s b n a walk_up)) (sym same)
                    ∙ ap (λ k. go f s fuel (at f s (fold_entries f s u r) k a walk_up))
                        (omega arith)),
            )
        | inr e ↦
            let there = ==→ne right 0 e in
            let (k, few, run) = inner there in
            (
              1 + k + 1,
              omega arith,
              chained (1 + k) 1 (at f s u n a walk_right)
                  (at f s (fold_entries f s u r) (n - entries f s r) right walk_up)
                  (at f s (fold_entries f s u r) (n - entries f s r) a walk_up)
                  (chained 1 k (at f s u n a walk_right) (at f s u n right walk_down)
                    (at f s (fold_entries f s u r) (n - entries f s r) right walk_up)
                    (one_round (at f s u n a walk_right) (at f s u n right walk_down)
                      (λ fuel. step_right f s fuel u n a (omega arith) ne there))
                    run)
                  (one_round (at f s (fold_entries f s u r) (n - entries f s r) right walk_up)
                    (at f s (fold_entries f s u r) (n - entries f s r) a walk_up)
                    (λ fuel.
                      step_up_right f s fuel (fold_entries f s u r) (n - entries f s r) a
                        (omega arith) ne right there (up there) (apart there))),
            )
      ]

  pub top_parent : (par p : ℕ) (t : Tree) → Linked s par p t → p ≢ 0 → s.rtn_parent p ≡ par
  top_parent par p leaf h ne = absurd (ne h)
  top_parent par p (branch l a r) h ne = rw h.0 h.2

  pub passes :
      (u : U) (n par p : ℕ) (t : Tree)
      → Linked s par p t
      → Apart s t
      → p ≢ 0
      → entries f s t < n
      → Passes u n p t
  unfolding count fold_entries entries after left_after
  passes u n par p leaf h d ne more = absurd (ne h)
  passes u n par p (branch l a r) h d ne more =
      let v = after f s u a in
      let m = left_after f s n a in
      let (first, second) = room n a (entries f s l) (entries f s r) more in
      let (j, few, go_l) =
        through_left u n a l h.1 h.3 (omega arith) first
          (λ z. passes v m a (s.rtn_left a) l h.3 d.0 z first)
          (top_parent a (s.rtn_left a) l h.3) in
      let (k, few', go_r) =
        through_right (fold_entries f s v l) (m - entries f s l) a r h.1 h.4 second
          (λ z.
            passes (fold_entries f s v l) (m - entries f s l) a (s.rtn_right a) r h.4 d.2 z second)
          (top_parent a (s.rtn_right a) r h.4) (λ z e. z (sym e ∙ d.1 e)) in
      (
        j + k,
        omega arith,
        subst
            (λ q. Runs (j + k) (at f s u n q walk_down) (
              at f s (fold_entries f s (fold_entries f s v l) r) (n - entries f s (branch l a r)) q
                walk_up))
            (sym h.0)
            (λ fuel.
              chained j k (at f s u n a walk_down)
                (at f s (fold_entries f s v l) (m - entries f s l) a walk_right)
                (at f s (fold_entries f s (fold_entries f s v l) r)
                  (m - entries f s l - entries f s r) a walk_up)
                go_l go_r fuel
              ∙ ap
                  (λ c.
                    go f s fuel (at f s (fold_entries f s (fold_entries f s v l) r) c a walk_up))
                  (omega arith)),
      )
