-- ===== src/Radix/Lookup.antt =====
-- The lookups by address of src/std_radix.c.
use mathlib.Core.Option
use sonic_common_utils.Base.{
  ℕ, zero, suc, Bool, true, false, ◌&&◌, ◌||◌, not, Option, none, some, if◌then◌else◌, ◌==◌, leb,
  ltb,
}
use sonic_common_utils.Radix.{RtTable, rnbyte, bit_test, rdx_compare_address}

-- The bytes that are compared: those that `rtt_convert` makes of the address, where there is one.
unfoldable pub searched : RtTable → (ℕ → ℕ) → ℕ → ℕ
searched s addr = elim s.rtt_convert [ none ↦ addr | some convert ↦ convert addr ]

-- The bytes of the key of the entry at a node.
abbrev pub key_of : RtTable → (rtn : ℕ) → ℕ → ℕ
key_of s rtn = s.bytes (s.rdx_rth_addr (s.rtn_rth rtn))

-- The child that the address goes to.
abbrev pub branch_for : RtTable → (ap : ℕ → ℕ) → (rtn : ℕ) → ℕ
branch_for s ap rtn =
    if bit_test (ap (rnbyte (s.rtn_bit rtn))) (s.rtn_tbit rtn)
    then s.rtn_right rtn
    else s.rtn_left rtn

-- The loop that searches down for a node with the bit number `bitlen`.
unfoldable pub seek_bit : ℕ → RtTable → (ap : ℕ → ℕ) → (bitlen rtn : ℕ) → Option ℕ
seek_bit zero s ap bitlen rtn = none
seek_bit (suc fuel) s ap bitlen rtn = elim (not (rtn == 0) && ltb (s.rtn_bit rtn) bitlen) [
  | true ↦ elim (branch_for s ap rtn == 0) [
    | true ↦ some rtn
    | false ↦ seek_bit fuel s ap bitlen (branch_for s ap rtn)
  ]
  | false ↦ some rtn
]

-- The entry of the node is one that the address matches, and not longer than `bitlen`.
unfoldable pub matches : RtTable → (ap : ℕ → ℕ) → (bitlen rtn : ℕ) → Bool
unfolding rdx_compare_address
matches s ap bitlen rtn =
    leb (s.rtn_bit rtn) bitlen
    && not (s.rtn_rth rtn == 0)
    && not (rdx_compare_address ap (key_of s rtn) (rnbyte (s.rtn_bit rtn)) (s.rtn_tbit rtn))

-- The loop that goes back towards the root to the first match.
unfoldable pub match_up : ℕ → RtTable → (ap : ℕ → ℕ) → (bitlen rtn : ℕ) → Option ℕ
unfolding matches
match_up zero s ap bitlen rtn = none
match_up (suc fuel) s ap bitlen rtn = elim (rtn == 0) [
  | true ↦ some 0
  | false ↦ elim (matches s ap bitlen rtn) [
    | true ↦ some rtn
    | false ↦ match_up fuel s ap bitlen (s.rtn_parent rtn)
  ]
]

-- A node that is there and not marked as deleted.
abbrev pub is_live : RtTable → ℕ → Bool
is_live s rtn = not (rtn == 0) && not (s.rtn_dele rtn)

-- The address is longer than the table's keys, which the debug check refuses.
abbrev pub too_long : RtTable → ℕ → Bool
too_long s bitlen = s.rtt_debug && ltb s.rtt_maxaddrlen bitlen

-- The node of the longest match, or null, for an address that is not refused.
unfoldable pub best_node : ℕ → RtTable → (addr : ℕ → ℕ) → (bitlen : ℕ) → Option ℕ
unfolding searched seek_bit match_up Option.bind
best_node fuel s addr bitlen =
    if s.rtt_root == 0
    then some 0
    else Option.bind (seek_bit fuel s (searched s addr) bitlen s.rtt_root)
        λ rtn. match_up fuel s (searched s addr) bitlen rtn

unfoldable pub std_radix_getbest : ℕ → RtTable → Option (ℕ → ℕ) → (bitlen : ℕ) → Option ℕ
unfolding best_node
std_radix_getbest fuel s none bitlen = some 0
std_radix_getbest fuel s (some addr) bitlen =
    if too_long s bitlen
    then some 0
    else Option.map (λ rtn. if is_live s rtn then s.rtn_rth rtn else 0)
        (best_node fuel s addr bitlen)

-- The entry of the match above the node `rtn`, or null.
unfoldable pub second_best : ℕ → RtTable → (addr : ℕ → ℕ) → (bitlen rtn : ℕ) → Option ℕ
unfolding searched match_up
second_best fuel s addr bitlen rtn =
    Option.map (λ above. if is_live s above then s.rtn_rth above else 0)
      (match_up fuel s (searched s addr) bitlen (s.rtn_parent rtn))

-- The result, and what is written to `lessbest`; `none` for that is a variable that is not written.
unfoldable pub std_radix_getbestandprev :
    ℕ → RtTable → Option (ℕ → ℕ) → (bitlen : ℕ) → Option (ℕ × Option ℕ)
unfolding best_node second_best Option.bind
std_radix_getbestandprev fuel s none bitlen = some (0, none)
std_radix_getbestandprev fuel s (some addr) bitlen =
    if too_long s bitlen || s.rtt_root == 0
    then some (0, none)
    else Option.bind (best_node fuel s addr bitlen) λ rtn.
      if is_live s rtn
      then Option.map (λ less. (s.rtn_rth rtn, some less)) (second_best fuel s addr bitlen rtn)
      else some (0, some 0)

unfoldable pub std_radix_getnextbest : ℕ → RtTable → Option (ℕ → ℕ) → (bitlen : ℕ) → Option ℕ
unfolding best_node second_best Option.bind
std_radix_getnextbest fuel s none bitlen = some 0
std_radix_getnextbest fuel s (some addr) bitlen =
    if too_long s bitlen
    then some 0
    else Option.bind (best_node fuel s addr bitlen)
        λ rtn. if is_live s rtn then second_best fuel s addr bitlen rtn else some 0

-- What `std_radix_getexact` returns at the node where the search down ends.
unfoldable pub exact_at : RtTable → (ap : ℕ → ℕ) → (bitlen rtn : ℕ) → ℕ
unfolding rdx_compare_address
exact_at s ap bitlen rtn =
    if rtn == 0
    then 0
    else if not (s.rtn_bit rtn == bitlen)
    then 0
    else if s.rtn_rth rtn == 0
    then 0
    else if rdx_compare_address ap (key_of s rtn) (rnbyte (s.rtn_bit rtn)) (s.rtn_tbit rtn)
    then 0
    else if s.rtn_dele rtn
    then 0
    else s.rtn_rth rtn

-- The conversion stands in the debug block here. So does the check for a null address, without which
-- the code reads through it; the address of the model is not null.
unfoldable pub std_radix_getexact : ℕ → RtTable → (addr : ℕ → ℕ) → (bitlen : ℕ) → Option ℕ
unfolding searched seek_bit exact_at
std_radix_getexact fuel s addr bitlen =
    let ap = if s.rtt_debug then searched s addr else addr in
    if too_long s bitlen || s.rtt_root == 0
    then some 0
    else Option.map (exact_at s ap bitlen) (seek_bit fuel s ap bitlen s.rtt_root)
