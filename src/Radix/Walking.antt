-- ===== src/Radix/Walking.antt =====
-- The walks of src/std_radix.c without recursion.
pub mod Rounds
pub mod Passing
pub mod Visiting
use mathlib.Core.Option
use sonic_common_utils.Base.{
  ℕ, zero, suc, ◌+◌, ◌-◌, ◌%◌, Bool, true, false, ◌&&◌, ◌||◌, not, Option, none, some,
  if◌then◌else◌, ◌==◌, leb, ltb, put,
}
use sonic_common_utils.Radix.{RtTable}
use sonic_common_utils.Radix.Removal.{Dir, walk_down, walk_up, walk_right, remove_node}

-- Where a walk is: the table, what the callback keeps, the number of visits left, the node and the
-- direction.
pub record Walk {ℓ} (U : Type ℓ) : Type ℓ where
  pub table : RtTable
  pub state : U
  pub lcnt : ℕ
  pub rtn : ℕ
  pub dir : Dir

-- The callback may change the table; it returns whether its result is not zero. It may be missing.
abbrev pub RadixFn {ℓ} : Type ℓ → Type ℓ
RadixFn U = Option (RtTable → U → ℕ → RtTable × U × Bool)

abbrev pub lock_by : (n : ℕ) → RtTable → (rtn : ℕ) → RtTable
lock_by n s rtn = record s { rtn_lock = put s.rtn_lock rtn ((s.rtn_lock rtn + n) % 256) }

-- The node is marked as deleted and not locked.
abbrev pub is_due : RtTable → (rtn : ℕ) → Bool
is_due s rtn = s.rtn_lock rtn == 0 && s.rtn_dele rtn

-- The loop behind a walk that has ended early: the nodes from `y` up that are due are removed.
pub sweep_up : ℕ → RtTable → (y : ℕ) → Dir → Option RtTable
unfolding remove_node
sweep_up zero s y dir = none
sweep_up (suc fuel) s y dir = elim (y == 0) [
  | true ↦ some s
  | false ↦ elim (is_due s y) [
    | true ↦ let r = remove_node s y dir in sweep_up fuel r.0 r.1 r.2
    | false ↦ sweep_up fuel s (s.rtn_parent y) dir
  ]
]

module _ {ℓ} {U : Type ℓ} where
  -- `RDXUSERCALLBACK`; `lcnt` is not 0.
  pub user_callback : RadixFn U → Walk U → (rth : ℕ) → Walk U
  user_callback none w rth = record w { lcnt = w.lcnt - 1 }
  user_callback (some walk_fn) w rth =
      let (t, u, stop) = walk_fn w.table w.state rth in
      record w { table = t; state = u; lcnt = if stop then 0 else w.lcnt - 1 }

  -- The steps that both walks share: down to the left, and to the right.
  pub go_left : Walk U → Walk U
  go_left w =
      if w.table.rtn_left w.rtn == 0
      then record w { dir = walk_right }
      else record w { rtn = w.table.rtn_left w.rtn }

  pub go_right : Walk U → Walk U
  go_right w =
      if w.table.rtn_right w.rtn == 0
      then record w { dir = walk_up }
      else record w { rtn = w.table.rtn_right w.rtn; dir = walk_down }

  -- Where a walk starts; `cnt` is taken as the `u_long` that it becomes.
  pub walk_from : RtTable → U → (rth cnt : ℕ) → Walk U
  walk_from s u rth cnt = record {
    table = s;
    state = u;
    lcnt = if cnt == 0 then 0xffffffff else cnt;
    rtn = if rth == 0 then s.rtt_root else s.rth_rtn rth;
    dir = if rth == 0 then walk_down else walk_right;
  }

  -- One round of the loop of `std_radix_walk`.
  pub radix_round : RadixFn U → Walk U → Dir → Walk U
  unfolding user_callback go_left go_right
  radix_round walk_fn w walk_down =
      let rth = w.table.rtn_rth w.rtn in
      go_left (if rth == 0 then w else user_callback walk_fn w rth)
  radix_round walk_fn w walk_right = go_right w
  radix_round walk_fn w walk_up =
      let parent = w.table.rtn_parent w.rtn in
      record w {
        rtn = parent;
        dir = if not (parent == 0) && w.rtn == w.table.rtn_left parent then walk_right else walk_up;
      }

  -- The loop; a node that is null ends it with null.
  pub radix_loop : ℕ → RadixFn U → Walk U → Option (Walk U)
  unfolding radix_round
  radix_loop zero walk_fn w = none
  radix_loop (suc fuel) walk_fn w = elim (w.lcnt == 0 || w.rtn == 0) [
    | true ↦ some w
    | false ↦ radix_loop fuel walk_fn (radix_round walk_fn w w.dir)
  ]

  -- The table, what the callback keeps, and the entry returned.
  unfoldable pub std_radix_walk :
      ℕ → RadixFn U → RtTable → U → (rth cnt : ℕ) → Option (RtTable × U × ℕ)
  unfolding walk_from radix_loop
  std_radix_walk fuel walk_fn s u rth cnt =
      Option.map (λ w. (w.table, w.state, if w.rtn == 0 then 0 else w.table.rtn_rth w.rtn))
        (radix_loop fuel walk_fn (walk_from s u rth cnt))

  -- The callback on an entry whose version is in the range, with its node locked.
  pub version_visit : RadixFn U → (min_ver max_ver : ℕ) → Walk U → Walk U
  unfolding put
  version_visit none min_ver max_ver w = w
  version_visit (some walk_fn) min_ver max_ver w =
      let rth = w.table.rtn_rth w.rtn in
      let ver = w.table.rth_version rth in
      if not (rth == 0) && leb min_ver ver && leb ver max_ver
      then (let (t, u, stop) = walk_fn (lock_by 1 w.table w.rtn) w.state rth in
          record w {
            table = lock_by 255 t w.rtn;
            state = u;
            lcnt = if stop then 0 else w.lcnt - 1;
          })
      else w

  -- One round of the loop of `std_radix_versionwalk`.
  pub version_round : RadixFn U → (min_ver max_ver : ℕ) → Walk U → Dir → Walk U
  unfolding version_visit go_left go_right remove_node
  version_round walk_fn min_ver max_ver w walk_down =
      if ltb (w.table.rtn_version w.rtn) min_ver
      then record w { dir = walk_up }
      else go_left (version_visit walk_fn min_ver max_ver w)
  version_round walk_fn min_ver max_ver w walk_right = go_right w
  version_round walk_fn min_ver max_ver w walk_up =
      let parent = w.table.rtn_parent w.rtn in
      if is_due w.table w.rtn
      then (let (t, next, dir) = remove_node w.table w.rtn walk_up in
          record w { table = t; rtn = next; dir = dir })
      else record w {
        rtn = parent;
        dir = if not (parent == 0) && w.rtn == w.table.rtn_left parent then walk_right else walk_up;
      }

  pub ranged_loop : ℕ → RadixFn U → (min_ver max_ver : ℕ) → Walk U → Option (Walk U)
  unfolding version_round
  ranged_loop zero walk_fn min_ver max_ver w = none
  ranged_loop (suc fuel) walk_fn min_ver max_ver w = elim (w.lcnt == 0 || w.rtn == 0) [
    | true ↦ some w
    | false ↦
        ranged_loop fuel walk_fn min_ver max_ver (version_round walk_fn min_ver max_ver w w.dir)
  ]

  unfoldable pub std_radix_versionwalk :
      ℕ → RadixFn U → RtTable → U → (rth cnt min_ver max_ver : ℕ) → Option (RtTable × U × ℕ)
  unfolding walk_from ranged_loop sweep_up Option.bind
  std_radix_versionwalk fuel walk_fn s u rth cnt min_ver max_ver =
      Option.bind (ranged_loop fuel walk_fn min_ver max_ver (walk_from s u rth cnt)) λ w.
        Option.map (λ t. (t, w.state, if w.rtn == 0 then 0 else t.rtn_rth w.rtn))
          (sweep_up fuel w.table w.rtn w.dir)
