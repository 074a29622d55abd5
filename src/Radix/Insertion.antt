-- ===== src/Radix/Insertion.antt =====
-- Insertion into the radix tree of src/std_radix.c.
use Prim.Native.Nat.{min}
use mathlib.Core.Option
use sonic_common_utils.Base.Int.{is_zero}
use sonic_common_utils.Base.Memory.{memcmp, memcpy}
use sonic_common_utils.Base.{
  ℕ, zero, suc, ◌+◌, ◌/◌, true, false, ◌&&◌, not, Option, none, some, if◌then◌else◌, ◌==◌, leb, put,
}
use sonic_common_utils.Radix.{RtTable, count_up, count_down, rnbyte, bit_test, rn_setbit}
use sonic_common_utils.Radix.Lookup.{key_of, too_long}
use sonic_common_utils.Radix.Following.{seek_entry, first_difference}

-- What becomes of the key of a new entry: it is ready, the copy could not be allocated, or an assert
-- fails.
pub data Keyed : Type 0 where
  ready : RtTable → Keyed
  no_memory : Keyed
  asserts : Keyed

-- The key is set from `rth_addr`; `copy` is what `malloc` returns. The assert on an entry whose fields
-- are not cleared, which a build with `FINAL_RELEASE` leaves out, is there.
pub set_key : RtTable → (rth copy : ℕ) → Keyed
unfolding memcmp memcpy put
set_key s rth copy =
    let size = (s.rtt_maxaddrlen + 7) / 8 in
    if s.rth_addr rth == 0 then asserts else elim s.rtt_convert [
      | none ↦ ready (record s { rdx_rth_addr = put s.rdx_rth_addr rth (s.rth_addr rth) })
      | some convert ↦
          let temp = convert (s.bytes (s.rth_addr rth)) in
          if s.rdx_rth_addr rth == 0
          then (if copy == 0
              then no_memory
              else ready (record s {
                rdx_rth_addr = put s.rdx_rth_addr rth copy;
                bytes = put s.bytes copy (memcpy size (s.bytes copy) 0 temp);
                rth_magic = put s.rth_magic rth true;
              }))
          else (if s.rth_magic rth && is_zero (memcmp size (s.bytes (s.rdx_rth_addr rth)) temp)
              then ready s
              else asserts)
    ]

-- The fields of a new node, which `memset` clears.
pub cleared : RtTable → (rtn : ℕ) → RtTable
unfolding put
cleared s rtn = record s {
  rtn_left = put s.rtn_left rtn 0;
  rtn_right = put s.rtn_right rtn 0;
  rtn_parent = put s.rtn_parent rtn 0;
  rtn_bit = put s.rtn_bit rtn 0;
  rtn_tbit = put s.rtn_tbit rtn 0;
  rtn_dele = put s.rtn_dele rtn false;
  rtn_lock = put s.rtn_lock rtn 0;
  rtn_version = put s.rtn_version rtn 0;
  rtn_rth = put s.rtn_rth rtn 0;
}

-- The entry and a node point to each other.
abbrev pub attach : RtTable → (rtn rth : ℕ) → RtTable
attach s rtn rth = record s { rtn_rth = put s.rtn_rth rtn rth; rth_rtn = put s.rth_rtn rth rtn }

abbrev pub count_node : RtTable → RtTable
count_node s = record s { rtt_inodes = count_up s.rtt_inodes; rtt_nmalloc = count_up s.rtt_nmalloc }

abbrev pub count_route : RtTable → RtTable
count_route s = record s { rtt_routes = count_up s.rtt_routes }

abbrev pub link_left : RtTable → (rtn child : ℕ) → RtTable
link_left s rtn child = record s { rtn_left = put s.rtn_left rtn child }

abbrev pub link_right : RtTable → (rtn child : ℕ) → RtTable
link_right s rtn child = record s { rtn_right = put s.rtn_right rtn child }

abbrev pub link_parent : RtTable → (rtn parent : ℕ) → RtTable
link_parent s rtn parent = record s { rtn_parent = put s.rtn_parent rtn parent }

-- The debug block in front: the entry's fields are cleared. Those of a change list are not modelled.
pub clear_entry : RtTable → (rth : ℕ) → RtTable
unfolding put
clear_entry s rth =
    if s.rtt_debug
    then record s { rth_rtn = put s.rth_rtn rth 0; rth_version = put s.rth_version rth 0 }
    else s

-- The entry becomes the first of the table, at the node `node`.
pub insert_first : RtTable → (rth bitlen node : ℕ) → RtTable
unfolding cleared put
insert_first s rth bitlen node =
    let t = attach (rn_setbit (cleared s node) node bitlen) node rth in
    count_route (count_node (record t { rtt_root = node }))

-- The loop that goes up while the bit number above is at least `dbit`.
pub climb_to : ℕ → RtTable → (dbit rtn : ℕ) → Option ℕ
climb_to zero s dbit rtn = none
climb_to (suc fuel) s dbit rtn =
    let rtn_prev = s.rtn_parent rtn in
    elim (not (rtn_prev == 0) && leb dbit (s.rtn_bit rtn_prev)) [
      | true ↦ climb_to fuel s dbit rtn_prev
      | false ↦ some rtn
    ]

-- The node has the bit number of the new entry already: the entry of the node that is returned.
pub insert_here : RtTable → (rth rtn : ℕ) → RtTable × ℕ
unfolding put
insert_here s rth rtn =
    if not (s.rtn_dele rtn) && not (s.rtn_rth rtn == 0)
    then (s, s.rtn_rth rtn)
    else (let old = s.rtn_rth rtn in
        let t =
          if old == 0
          then s
          else (let u = record s { rdx_rth_addr = put s.rdx_rth_addr old 0 } in
              if s.rtt_rmfree then record u { rtt_nusrfrees = count_up u.rtt_nusrfrees } else u) in
        let v = attach t rtn rth in
        (count_route (record v { rtn_dele = put v.rtn_dele rtn false }), rth))

-- The new node `node`, hung under `rtn`.
pub hang_under : RtTable → (addr : ℕ → ℕ) → (rtn node : ℕ) → RtTable
unfolding put
hang_under s addr rtn node =
    let t = link_parent s node rtn in
    if bit_test (addr (rnbyte (t.rtn_bit rtn))) (t.rtn_tbit rtn)
    then link_right t rtn node
    else link_left t rtn node

-- `rtn_new` takes the place of its child `rtn` under `rtn_prev`.
pub put_between : RtTable → (rtn_prev rtn_new rtn : ℕ) → RtTable
unfolding put
put_between s rtn_prev rtn_new rtn =
    let s1 = link_parent s rtn rtn_new in
    let s2 = record s1 { rtn_version = put s1.rtn_version rtn_new (s1.rtn_version rtn) } in
    let s3 = link_parent s2 rtn_new rtn_prev in
    if rtn_prev == 0
    then record s3 { rtt_root = rtn_new }
    else (if s3.rtn_right rtn_prev == rtn
        then link_right s3 rtn_prev rtn_new
        else link_left s3 rtn_prev rtn_new)

-- The new node is put above `rtn`, which is on its branch.
pub insert_above : RtTable → (his : ℕ → ℕ) → (rtn_prev rtn node : ℕ) → RtTable
unfolding put_between put
insert_above s his rtn_prev rtn node =
    let t =
      if bit_test (his (rnbyte (s.rtn_bit node))) (s.rtn_tbit node)
      then link_right s node rtn
      else link_left s node rtn in
    put_between t rtn_prev node rtn

-- A split at the bit `dbit`, with the new node on one side and `rtn` on the other.
pub insert_split : RtTable → (addr : ℕ → ℕ) → (dbit rtn_prev rtn node split : ℕ) → RtTable
unfolding cleared put_between put
insert_split s addr dbit rtn_prev rtn node split =
    let s1 = rn_setbit (count_node (cleared s split)) split dbit in
    let s2 = link_parent s1 node split in
    let s3 =
      if bit_test (addr (rnbyte (s2.rtn_bit split))) (s2.rtn_tbit split)
      then link_left (link_right s2 split node) split rtn
      else link_right (link_left s2 split node) split rtn in
    put_between s3 rtn_prev split rtn

-- The cases that need a new node; `node` and `split` are what `rtt_malloc` returns.
pub insert_new : RtTable → (addr his : ℕ → ℕ) → (rth bitlen dbit rtn node split : ℕ) → RtTable × ℕ
unfolding cleared hang_under insert_above insert_split put
insert_new s addr his rth bitlen dbit rtn node split =
    if node == 0
    then (s, 0)
    else (let t = attach (rn_setbit (count_node (cleared s node)) node bitlen) node rth in
        let rtn_prev = t.rtn_parent rtn in
        if t.rtn_bit rtn == dbit
        then (count_route (hang_under t addr rtn node), rth)
        else if dbit == bitlen
        then (count_route (insert_above t his rtn_prev rtn node), rth)
        else if split == 0
        then (
          record t { rtt_nfree = count_up t.rtt_nfree; rtt_inodes = count_down t.rtt_inodes },
          0,
        )
        else (count_route (insert_split t addr dbit rtn_prev rtn node split), rth))

-- From the node where the search down ended.
pub insert_from : ℕ → RtTable → (rth bitlen rtn node split : ℕ) → Option (RtTable × ℕ)
unfolding first_difference climb_to insert_here insert_new
insert_from fuel s rth bitlen rtn node split =
    let addr = s.bytes (s.rdx_rth_addr rth) in
    let his = key_of s rtn in
    let bits2chk = min (s.rtn_bit rtn) bitlen in
    let dbit = min (first_difference addr his bits2chk) bits2chk in
    Option.map
      (λ rtn.
        if dbit == bitlen && s.rtn_bit rtn == bitlen
        then insert_here s rth rtn
        else insert_new s addr his rth bitlen dbit rtn node split)
      (climb_to fuel s dbit rtn)

-- `std_radix_insert` of an entry whose key is set: the table and the entry that is returned, or null.
pub insert_keyed : ℕ → RtTable → (rth bitlen node split : ℕ) → Option (RtTable × ℕ)
unfolding clear_entry insert_first seek_entry insert_from put Option.bind
insert_keyed fuel s rth bitlen node split =
    let t = clear_entry s rth in
    if too_long t bitlen
    then some (t, 0)
    else (let u = record t { rtt_ninserts = count_up t.rtt_ninserts } in
        if u.rtt_root == 0
        then some (if node == 0 then (u, 0) else (insert_first u rth bitlen node, rth))
        else Option.bind (seek_entry fuel u (u.bytes (u.rdx_rth_addr rth)) bitlen u.rtt_root)
            λ rtn. insert_from fuel u rth bitlen rtn node split)

unfoldable pub std_radix_insert :
    ℕ → RtTable → (rth bitlen copy node split : ℕ) → Option (RtTable × ℕ)
unfolding set_key insert_keyed
std_radix_insert fuel s rth bitlen copy node split = elim (set_key s rth copy) [
  | ready t ↦ insert_keyed fuel t rth bitlen node split
  | no_memory ↦ some (s, 0)
  | asserts ↦ none
]
