-- ===== src/Radix/Walking/Visiting.antt =====
-- `std_radix_walk` of src/std_radix.c calls back for every entry once, a node before those below it.
use mathlib.Core.Option
use sonic_common_utils.Base.{
  ℕ, suc, ◌+◌, ◌-◌, ◌*◌, ◌≤◌, ◌<◌, ◌≡◌, sym, ap, ◌∙◌, inl, inr, some, arith, ◌==◌, ==→eq, ==→ne,
  Bool-cases, if◌then◌else◌,
}
use sonic_common_utils.Radix.{RtTable}
use sonic_common_utils.Radix.Removal.{Dir, walk_down, walk_up}
use sonic_common_utils.Radix.Shape.{Linked}
use sonic_common_utils.Radix.Walking.{walk_from, std_radix_walk}
use sonic_common_utils.Rbtree.Shape.{Tree, count}
use sonic_common_utils.Radix.Walking.Rounds.{noting, fold_entries, entries, at, go, stop, step_root}
use sonic_common_utils.Radix.Walking.Passing.{Apart, nothing_in, top_parent, passes}

module _ {ℓ} {U : Type ℓ} (f : U → ℕ → U) (s : RtTable) where
  walk_ends :
      (u : U) (fuel n : ℕ) (t : Tree)
      → Linked s 0 s.rtt_root t
      → Apart s t
      → entries f s t < n
      → 4 * count t + 2 ≤ fuel
      → (m : ℕ) × (d : Dir) × (go f s fuel (at f s u n s.rtt_root walk_down)
          ≡ some (at f s (fold_entries f s u t) m 0 d))
  walk_ends u fuel n t h d few enough = elim (Bool-cases (s.rtt_root == 0)) [
    | inl e ↦
        let z = ==→eq s.rtt_root 0 e in
        let (same, none) = nothing_in f s u 0 s.rtt_root t z h in
        let fuel' = fuel - 1 in
        (
          n,
          walk_down,
          ap (λ q. go f s fuel (at f s u n q walk_down)) z
              ∙ ap (λ k. go f s k (at f s u n 0 walk_down)) (omega arith)
              ∙ stop f s fuel' u n walk_down
              ∙ ap (λ b. some (at f s b n 0 walk_down)) (sym same),
        )
    | inr e ↦
        let ne = ==→ne s.rtt_root 0 e in
        let (k, small, run) = passes f s u n 0 s.rtt_root t h d ne few in
        let v = fold_entries f s u t in
        let m = n - entries f s t in
        let left = fuel - k - 2 in
        (
          m,
          walk_up,
          ap (λ j. go f s j (at f s u n s.rtt_root walk_down)) (omega arith)
              ∙ run (suc (suc left))
              ∙ step_root f s (suc left) v m s.rtt_root (omega arith) ne
                  (top_parent f s 0 s.rtt_root t h ne)
              ∙ stop f s left v m walk_up,
        )
  ]

  -- From null and without a limit, on a table whose nodes make a tree in which no node has the same
  -- child on both sides and there are less than 2^32 - 1 entries, with a callback that leaves the
  -- table as it is and goes on, and with fuel for four rounds at every node and two more,
  -- `std_radix_walk` ends. It has called back for every entry of the tree once, for one at a node
  -- before those below it and for those on the left before those on the right, and returns null.
  pub std_radix_walk-fold_entries :
      (u : U) (fuel : ℕ) (t : Tree)
      → Linked s 0 s.rtt_root t
      → Apart s t
      → entries f s t < 0xffffffff
      → 4 * count t + 2 ≤ fuel
      → std_radix_walk fuel (noting f s) s u 0 0 ≡ some (s, fold_entries f s u t, 0)
  unfolding std_radix_walk walk_from go
  std_radix_walk-fold_entries u fuel t h d few enough =
      let (m, dir, e) = walk_ends u fuel 0xffffffff t h d few enough in
      ap (Option.map (λ w. (w.table, w.state, if w.rtn == 0 then 0 else w.table.rtn_rth w.rtn))) e
