-- ===== src/Radix/Walking/Rounds.antt =====
-- Single rounds of the walk of src/std_radix.c.
use sonic_common_utils.Base.{
  ℕ, suc, ◌+◌, ◌-◌, ◌<◌, ◌≡◌, ◌≢◌, false, Option, some, arith, ◌==◌, if◌then◌else◌,
}
use sonic_common_utils.Radix.{RtTable}
use sonic_common_utils.Radix.Removal.{Dir, walk_down, walk_up, walk_right}
use sonic_common_utils.Radix.Walking.{
  Walk, RadixFn, user_callback, go_left, go_right, radix_round, radix_loop,
}
use sonic_common_utils.Rbtree.Shape.{Tree, leaf, branch}

module _ {ℓ} {U : Type ℓ} (f : U → ℕ → U) (s : RtTable) where
  -- A callback that leaves the table as it is and goes on.
  abbrev pub noting : RadixFn U
  noting = some (λ t u rth. (t, f u rth, false))

  -- What it has made of `u` behind the entries of a tree, a node before those below it.
  unfoldable pub fold_entries : U → Tree → U
  fold_entries u leaf = u
  fold_entries u (branch l a r) =
      let v = if s.rtn_rth a == 0 then u else f u (s.rtn_rth a) in fold_entries (fold_entries v l) r

  -- How many entries there are.
  unfoldable pub entries : Tree → ℕ
  entries leaf = 0
  entries (branch l a r) = (if s.rtn_rth a == 0 then 0 else 1) + entries l + entries r

  abbrev pub at : U → ℕ → ℕ → Dir → Walk U
  at u n x d = record { table = s; state = u; lcnt = n; rtn = x; dir = d }

  unfoldable pub go : ℕ → Walk U → Option (Walk U)
  go fuel w = radix_loop fuel noting w

  unfoldable pub after : U → ℕ → U
  after u a = if s.rtn_rth a == 0 then u else f u (s.rtn_rth a)

  unfoldable pub left_after : ℕ → ℕ → ℕ
  left_after n a = n - (if s.rtn_rth a == 0 then 0 else 1)

  module _ (fuel : ℕ) (u : U) (n a : ℕ) (more : 0 < n) (ne : a ≢ 0) where
    pub step_down :
        s.rtn_left a ≢ 0
        → go (suc fuel) (at u n a walk_down)
          ≡ go fuel (at (after u a) (left_after n a) (s.rtn_left a) walk_down)
    unfolding go after left_after radix_loop radix_round user_callback go_left
    step_down l = ground arith

    pub step_down_end :
        s.rtn_left a ≡ 0
        → go (suc fuel) (at u n a walk_down)
          ≡ go fuel (at (after u a) (left_after n a) a walk_right)
    unfolding go after left_after radix_loop radix_round user_callback go_left
    step_down_end l = ground arith

    pub step_right :
        s.rtn_right a ≢ 0
        → go (suc fuel) (at u n a walk_right) ≡ go fuel (at u n (s.rtn_right a) walk_down)
    unfolding go radix_loop radix_round go_right
    step_right l = ground arith

    pub step_right_end :
        s.rtn_right a ≡ 0 → go (suc fuel) (at u n a walk_right) ≡ go fuel (at u n a walk_up)
    unfolding go radix_loop radix_round go_right
    step_right_end l = ground arith

    pub step_up_left :
        (x : ℕ)
        → x ≢ 0
        → s.rtn_parent x ≡ a
        → s.rtn_left a ≡ x
        → go (suc fuel) (at u n x walk_up) ≡ go fuel (at u n a walk_right)
    unfolding go radix_loop radix_round
    step_up_left x nx p l = ground arith

    pub step_up_right :
        (x : ℕ)
        → x ≢ 0
        → s.rtn_parent x ≡ a
        → s.rtn_left a ≢ x
        → go (suc fuel) (at u n x walk_up) ≡ go fuel (at u n a walk_up)
    unfolding go radix_loop radix_round
    step_up_right x nx p l = ground arith

  pub stop : (fuel : ℕ) (u : U) (n : ℕ) (d : Dir) → go (suc fuel) (at u n 0 d) ≡ some (at u n 0 d)
  unfolding go radix_loop
  stop fuel u n d = ground arith

  pub step_root :
      (fuel : ℕ) (u : U) (n a : ℕ)
      → 0 < n
      → a ≢ 0
      → s.rtn_parent a ≡ 0
      → go (suc fuel) (at u n a walk_up) ≡ go fuel (at u n 0 walk_up)
  unfolding go radix_loop radix_round
  step_root fuel u n a more ne top = ground arith
