-- ===== src/Radix/Following.antt =====
-- The entry that follows an address, and the subtree of an address, in src/std_radix.c.
use Prim.Native.Nat.{bit_xor, min}
use mathlib.Core.Option
use sonic_common_utils.Base.{
  ℕ, zero, suc, ◌+◌, ◌/◌, Bool, true, false, ◌&&◌, ◌||◌, not, Option, none, some, if◌then◌else◌,
  ◌==◌, leb, ltb, get_or,
}
use sonic_common_utils.Radix.{RtTable, rnbyte, rnbit, bit_test, first_bit_set, rdx_compare_address}
use sonic_common_utils.Radix.Lookup.{searched, key_of, branch_for, too_long, std_radix_getexact}

-- The loop that searches down for a node with an entry and a bit number of at least `bitlen`.
unfoldable pub seek_entry : ℕ → RtTable → (ap : ℕ → ℕ) → (bitlen rtn : ℕ) → Option ℕ
seek_entry zero s ap bitlen rtn = none
seek_entry (suc fuel) s ap bitlen rtn = elim (ltb (s.rtn_bit rtn) bitlen || s.rtn_rth rtn == 0) [
  | true ↦ elim (branch_for s ap rtn == 0) [
    | true ↦ some rtn
    | false ↦ seek_entry fuel s ap bitlen (branch_for s ap rtn)
  ]
  | false ↦ some rtn
]

-- The loop that looks for the first bit that differs, byte by byte; it runs `rounds` times at most.
pub diff_loop : (rounds : ℕ) → (ap ap2 : ℕ → ℕ) → (bits2chk dbit : ℕ) → ℕ
diff_loop zero ap ap2 bits2chk dbit = dbit
diff_loop (suc rounds) ap ap2 bits2chk dbit = elim (ltb dbit bits2chk) [
  | true ↦ elim (ap (dbit / 8) == ap2 (dbit / 8)) [
    | true ↦ diff_loop rounds ap ap2 bits2chk (dbit + 8)
    | false ↦ dbit + get_or first_bit_set (bit_xor (ap (dbit / 8)) (ap2 (dbit / 8))) 0
  ]
  | false ↦ dbit
]

unfoldable pub first_difference : (ap ap2 : ℕ → ℕ) → (bits2chk : ℕ) → ℕ
unfolding diff_loop
first_difference ap ap2 bits2chk = diff_loop bits2chk ap ap2 bits2chk 0

-- The loop that goes up to the first right child behind the nodes above `rn_next`, or to null; in one
-- place of the source only nodes with a bit number of at most `dbit` count.
pub climb_right : ℕ → (low : ℕ → Bool) → RtTable → (rn_next : ℕ) → Option ℕ
climb_right zero low s rn_next = none
climb_right (suc fuel) low s rn_next =
    let rtn = s.rtn_parent rn_next in
    elim (rtn == 0) [
      | true ↦ some 0
      | false ↦ elim (not (low rtn) || s.rtn_right rtn == 0 || s.rtn_right rtn == rn_next) [
        | true ↦ climb_right fuel low s rtn
        | false ↦ some (s.rtn_right rtn)
      ]
    ]

abbrev pub any_bit : ℕ → Bool
any_bit rtn = true

-- The next node in the order of the walk, or null.
pub next_node : ℕ → RtTable → (rtn : ℕ) → Option ℕ
unfolding climb_right
next_node fuel s rtn =
    if not (s.rtn_left rtn == 0)
    then some (s.rtn_left rtn)
    else if not (s.rtn_right rtn == 0)
    then some (s.rtn_right rtn)
    else climb_right fuel any_bit s rtn

-- The loop that goes up to the last node below those with a bit number of at most `dbit`.
pub climb_above : ℕ → RtTable → (dbit rtn : ℕ) → Option ℕ
climb_above zero s dbit rtn = none
climb_above (suc fuel) s dbit rtn =
    let rn_next = s.rtn_parent rtn in
    elim (not (rn_next == 0) && ltb dbit (s.rtn_bit rn_next)) [
      | true ↦ climb_above fuel s dbit rn_next
      | false ↦ some rtn
    ]

-- The node behind the address, from which the search for an entry goes on, or null.
pub node_behind : ℕ → RtTable → (ap : ℕ → ℕ) → (bitlen rtn : ℕ) → Option ℕ
unfolding first_difference next_node climb_right climb_above
node_behind fuel s ap bitlen rtn =
    let bits2chk = min (s.rtn_bit rtn) bitlen in
    let dbit = first_difference ap (key_of s rtn) bits2chk in
    if leb bits2chk dbit
    then (if leb (s.rtn_bit rtn) bitlen then next_node fuel s rtn else some rtn)
    else if bit_test (ap (rnbyte dbit)) (rnbit dbit)
    then climb_right fuel (λ n. leb (s.rtn_bit n) dbit) s rtn
    else climb_above fuel s dbit rtn

-- The loop over the nodes from `rtn` on, to the first with an entry; it returns the entry, or null.
pub entry_from : ℕ → RtTable → (rtn : ℕ) → Option ℕ
unfolding next_node Option.bind
entry_from zero s rtn = none
entry_from (suc fuel) s rtn = elim (rtn == 0) [
  | true ↦ some 0
  | false ↦ elim (s.rtn_rth rtn == 0) [
    | true ↦ Option.bind (next_node fuel s rtn) λ n. entry_from fuel s n
    | false ↦ some (s.rtn_rth rtn)
  ]
]

unfoldable pub std_radix_getnext : ℕ → RtTable → Option (ℕ → ℕ) → (bitlen : ℕ) → Option ℕ
unfolding searched seek_entry node_behind entry_from Option.bind
std_radix_getnext fuel s dest bitlen =
    if too_long s bitlen || s.rtt_root == 0 then some 0 else elim dest [
      | none ↦ entry_from fuel s s.rtt_root
      | some addr ↦ Option.bind (seek_entry fuel s (searched s addr) bitlen s.rtt_root) λ rtn.
          Option.bind (node_behind fuel s (searched s addr) bitlen rtn) λ n. entry_from fuel s n
    ]

-- The loop that goes up while the bit number above is at least `bitlen`.
pub climb_within : ℕ → RtTable → (bitlen rtn : ℕ) → Option ℕ
climb_within zero s bitlen rtn = none
climb_within (suc fuel) s bitlen rtn =
    let parent = s.rtn_parent rtn in
    elim (not (parent == 0) && leb bitlen (s.rtn_bit parent)) [
      | true ↦ climb_within fuel s bitlen parent
      | false ↦ some rtn
    ]

-- The root of the subtree of what follows the address, if it falls within.
pub subtree_of : ℕ → RtTable → (ap : ℕ → ℕ) → (bitlen rth : ℕ) → Option ℕ
unfolding rdx_compare_address climb_within
subtree_of fuel s ap bitlen rth =
    if rdx_compare_address ap (s.bytes (s.rdx_rth_addr rth)) (rnbyte bitlen) (rnbit bitlen)
    then some 0
    else climb_within fuel s bitlen (s.rth_rtn rth)

-- `_std_radix_getsubtree` of an address that is not null.
unfoldable pub std_radix_getsubtree : ℕ → RtTable → (addr : ℕ → ℕ) → (bitlen : ℕ) → Option ℕ
unfolding std_radix_getexact std_radix_getnext subtree_of searched Option.bind
std_radix_getsubtree fuel s addr bitlen =
    if too_long s bitlen || s.rtt_root == 0
    then some 0
    else Option.bind (std_radix_getexact fuel s addr bitlen) λ exact.
      if not (exact == 0)
      then some (s.rth_rtn exact)
      else Option.bind (std_radix_getnext fuel s (some addr) bitlen)
          λ next. if next == 0 then some 0 else subtree_of fuel s (searched s addr) bitlen next
