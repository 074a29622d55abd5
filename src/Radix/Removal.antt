-- ===== src/Radix/Removal.antt =====
-- Removal from the radix tree of src/std_radix.c.
use sonic_common_utils.Base.{ℕ, true, ◌&&◌, not, if◌then◌else◌, ◌==◌, put}
use sonic_common_utils.Radix.{RtTable, count_up, count_down}
use sonic_common_utils.Radix.Insertion.{link_left, link_right, link_parent}

-- `RDX_WALKDOWN`, `RDX_WALKUP` and `RDX_WALKRIGHT`.
pub data Dir : Type 0 where
  walk_down : Dir
  walk_up : Dir
  walk_right : Dir

-- The table, the node that the walk goes on at or null, and the direction.
abbrev pub Removed : Type 0
Removed = RtTable × ℕ × Dir

-- The entry of the node is freed, if there is one.
pub free_entry : RtTable → (rn : ℕ) → RtTable
unfolding put
free_entry s rn =
    if s.rtn_rth rn == 0
    then s
    else (let t = record s { rdx_rth_addr = put s.rdx_rth_addr (s.rtn_rth rn) 0 } in
        if s.rtt_rmfree then record t { rtt_nusrfrees = count_up t.rtt_nusrfrees } else t)

-- The node and its entry are freed.
pub free_node : RtTable → (rn : ℕ) → RtTable
unfolding free_entry
free_node s rn =
    let t = free_entry s rn in
    record t { rtt_nfree = count_up t.rtt_nfree; rtt_inodes = count_down t.rtt_inodes }

-- A node with one child, which takes its place.
pub promote : RtTable → (rn : ℕ) → Removed
unfolding free_node put
promote s rn =
    let prev = s.rtn_parent rn in
    let next = if s.rtn_left rn == 0 then s.rtn_right rn else s.rtn_left rn in
    let back = if s.rtn_left rn == 0 then next else prev in
    let dir = if s.rtn_left rn == 0 then walk_down else walk_right in
    let s1 = link_parent s next prev in
    let s2 =
      if prev == 0
      then record s1 { rtt_root = next }
      else (if s1.rtn_left prev == rn then link_left s1 prev next else link_right s1 prev next) in
    (free_node s2 rn, back, dir)

-- From the first lock test on: the node goes if it is not locked. `prev` is what the source's `rn_prev` holds.
pub remove_inner : RtTable → (prev rn : ℕ) → Dir → Removed
unfolding promote put
remove_inner s prev rn dir =
    if not (s.rtn_lock rn == 0)
    then (record s { rtn_dele = put s.rtn_dele rn true }, prev, dir)
    else promote s rn

-- A leaf goes, and the node above it too unless that has an entry.
pub remove_leaf : RtTable → (rn : ℕ) → Dir → Removed
unfolding free_node remove_inner put
remove_leaf s rn dir =
    let prev = s.rtn_parent rn in
    let s1 = free_node s rn in
    if prev == 0
    then (record s1 { rtt_root = 0 }, 0, dir)
    else (let at_left = s1.rtn_left prev == rn in
        let s2 = if at_left then link_left s1 prev 0 else link_right s1 prev 0 in
        let turn = if at_left then walk_right else walk_up in
        if s2.rtn_rth prev == 0 then remove_inner s2 prev prev turn else (s2, prev, turn))

-- `_std_radix_remove`; `dir` is what `*dir` holds before.
unfoldable pub remove_node : RtTable → (rn : ℕ) → Dir → Removed
unfolding free_entry remove_leaf remove_inner put
remove_node s rn dir =
    let s0 = record s { rtt_routes = count_down s.rtt_routes } in
    if not (s0.rtn_left rn == 0) && not (s0.rtn_right rn == 0)
    then (let t = free_entry s0 rn in
        (record t { rtn_rth = put t.rtn_rth rn 0 }, t.rtn_parent rn, walk_up))
    else if s0.rtn_left rn == 0 && s0.rtn_right rn == 0
    then remove_leaf s0 rn dir
    else remove_inner s0 0 rn dir

-- `std_radix_remove`. The change list, which the entry leaves where radical is used, is modelled with
-- src/std_radical.c.
unfoldable pub std_radix_remove : RtTable → (rth : ℕ) → RtTable
unfolding remove_node put
std_radix_remove s rth =
    let s0 = record s { rtt_nremoves = count_up s.rtt_nremoves } in
    let rn = s0.rth_rtn rth in
    if not (s0.rtn_lock rn == 0)
    then record s0 { rtn_dele = put s0.rtn_dele rn true }
    else (remove_node s0 rn walk_up).0
