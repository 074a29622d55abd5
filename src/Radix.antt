-- ===== src/Radix.antt =====
-- src/std_radix.c and sonic/std_radix.h: a radix tree of the caller's entries, by pointers.
-- A node or an entry (`std_rt_head`) is an address and 0 is the null pointer; the fields of all nodes
-- and of all entries are functions of the address, and `bytes` is the memory that the entries' keys
-- stand in, by pointer and offset. A key that the caller passes is its bytes by offset, and `none` is
-- a null pointer. `RDX_DEBUG` is set, so that the checks between `RDX_DEBUG_START` and `RDX_DEBUG_END`
-- are made where `rtt_debug` is; the asserts are left out. A loop runs on fuel, and `none` is a loop
-- that does not end within it.
pub mod Lookup
pub mod Following
pub mod Insertion
pub mod Removal
pub mod Walking
pub mod Shape
pub mod Prefix
pub mod Candidate
pub mod Steps
pub mod Chain
pub mod Chained
pub mod Best
pub mod Exact
pub mod Second
mod Tests
use Prim.Native.Nat.{bit_and, bit_or, bit_xor}
use mathlib.Core.Option
use sonic_common_utils.Base.Int.{is_zero}
use sonic_common_utils.Base.Memory.{memcmp}
use sonic_common_utils.Base.{
  ℕ, zero, suc, ◌+◌, ◌-◌, ◌/◌, ◌%◌, ◌^◌, Bool, true, false, ◌&&◌, ◌||◌, not, Option, none, some,
  List, [], ◌∷◌, ◌++◌, if◌then◌else◌, ◌==◌, ltb, put, replicate, get_or,
}

-- `std_rt_table`, the nodes (`rt_node`) and the entries that it leads to. Of `rtn_flags` there is the
-- bit `RDX_RN_DELE_BIT`. `rtt_convert` gives the bytes that the function leaves in the cleared buffer
-- `temp`; `rth_magic` is whether `magic` is `RT_RTH_ADDR_MAGIC`, and `rtt_rmfree` whether there is such a function.
pub record RtTable : Type 0 where
  pub rtn_left : ℕ → ℕ
  pub rtn_right : ℕ → ℕ
  pub rtn_parent : ℕ → ℕ
  pub rtn_bit : ℕ → ℕ
  pub rtn_tbit : ℕ → ℕ
  pub rtn_dele : ℕ → Bool
  pub rtn_lock : ℕ → ℕ
  pub rtn_version : ℕ → ℕ
  pub rtn_rth : ℕ → ℕ
  pub rth_rtn : ℕ → ℕ
  pub rth_addr : ℕ → ℕ
  pub rth_version : ℕ → ℕ
  pub rdx_rth_addr : ℕ → ℕ
  pub rth_magic : ℕ → Bool
  pub bytes : ℕ → ℕ → ℕ
  pub rtt_root : ℕ
  pub rtt_inodes : ℕ
  pub rtt_routes : ℕ
  pub rtt_ninserts : ℕ
  pub rtt_nremoves : ℕ
  pub rtt_nmalloc : ℕ
  pub rtt_nfree : ℕ
  pub rtt_nusrfrees : ℕ
  pub rtt_nwraps : ℕ
  pub rtt_version : ℕ
  pub rtt_maxaddrlen : ℕ
  pub rtt_debug : Bool
  pub rtt_convert : Option ((ℕ → ℕ) → ℕ → ℕ)
  pub rtt_rmfree : Bool

-- `n + 1` and `n - 1` of the 64-bit counters.
abbrev pub count_up : ℕ → ℕ
count_up n = (n + 1) % 2 ^ 64

abbrev pub count_down : ℕ → ℕ
count_down n = (n + (2 ^ 64 - 1)) % 2 ^ 64

-- `RNBYTE`, `RNBIT` and `BIT_TEST`.
abbrev pub rnbyte : ℕ → ℕ
rnbyte x = x / 8

unfoldable pub rnbit : ℕ → ℕ
rnbit x = 128 / 2 ^ (x % 8)

abbrev pub bit_test : ℕ → ℕ → Bool
bit_test f b = not (bit_and f b == 0)

-- `RN_SETBIT`
abbrev pub rn_setbit : RtTable → (rtn bitlen : ℕ) → RtTable
rn_setbit s rtn bitlen = record s {
  rtn_bit = put s.rtn_bit rtn bitlen;
  rtn_tbit = put s.rtn_tbit rtn (rnbit bitlen);
}

abbrev pub first_bit_set : List ℕ
first_bit_set =
    8
    ∷ 7
    ∷ (replicate 2 6
        ++ replicate 4 5
        ++ replicate 8 4
        ++ replicate 16 3
        ++ replicate 32 2
        ++ replicate 64 1
        ++ replicate 128 0)

-- Whether the addresses differ; with no bit to test, `tbit - 1` has all bits set.
unfoldable pub rdx_compare_address : (ap1 ap2 : ℕ → ℕ) → (tbyte tbit : ℕ) → Bool
unfolding memcmp
rdx_compare_address ap1 ap2 tbyte tbit =
    let mask = if tbit == 0 then 0 else 255 - bit_or tbit (tbit - 1) in
    not (bit_and (bit_xor (ap1 tbyte) (ap2 tbyte)) mask == 0)
    || (not (tbyte == 0) && not (is_zero (memcmp tbyte ap1 ap2)))

-- `std_radix_nodeisleaf`: -1, 0 or 1; `none` is `ERROR`.
unfoldable pub std_radix_nodeisleaf : RtTable → ℕ → Option Bool
std_radix_nodeisleaf s rth =
    if rth == 0
    then none
    else (let rtn = s.rth_rtn rth in
        some (not (not (s.rtn_left rtn == 0) || not (s.rtn_right rtn == 0))))

-- The first entry at the node `rtn` or above it, or null: the loops of `std_radix_getparent` and
-- `std_radix_getlessspecific`.
pub entry_above : ℕ → RtTable → (rtn : ℕ) → Option ℕ
entry_above zero s rtn = none
entry_above (suc fuel) s rtn = elim (rtn == 0) [
  | true ↦ some 0
  | false ↦ elim (s.rtn_rth rtn == 0) [
    | true ↦ entry_above fuel s (s.rtn_parent rtn)
    | false ↦ some (s.rtn_rth rtn)
  ]
]

unfoldable pub std_radix_getparent : ℕ → RtTable → (rth : ℕ) → Option ℕ
unfolding entry_above
std_radix_getparent fuel s rth = entry_above fuel s (s.rtn_parent (s.rth_rtn rth))

unfoldable pub std_radix_getlessspecific : ℕ → RtTable → (rth : ℕ) → Option ℕ
unfolding entry_above
std_radix_getlessspecific fuel s rth = entry_above fuel s (s.rtn_parent (s.rth_rtn rth))

-- The loop of `std_radix_setversion`.
pub version_up : ℕ → RtTable → (rtn ver : ℕ) → Option RtTable
unfolding put
version_up zero s rtn ver = none
version_up (suc fuel) s rtn ver = elim (rtn == 0) [
  | true ↦ some s
  | false ↦
      version_up fuel (record s { rtn_version = put s.rtn_version rtn ver }) (s.rtn_parent rtn) ver
]

-- The table, and the version that is returned.
unfoldable pub std_radix_setversion : ℕ → RtTable → (rth : ℕ) → Option (RtTable × ℕ)
unfolding put version_up
std_radix_setversion fuel s rth =
    let ver = count_up s.rtt_version in
    Option.map (λ t. (if ver == 0 then record t { rtt_nwraps = count_up t.rtt_nwraps } else t, ver))
      (version_up fuel (record s { rtt_version = ver; rth_version = put s.rth_version rth ver })
        (s.rth_rtn rth) ver)

-- What `std_radix_create` leaves where its blocks are allocated; the fields of all nodes and entries
-- are those of `s`.
unfoldable pub std_radix_create : (maxaddrlen : ℕ) → (rmfree : Bool) → RtTable → RtTable
std_radix_create maxaddrlen rmfree s = record s {
  rtt_root = 0;
  rtt_inodes = 0;
  rtt_routes = 0;
  rtt_ninserts = 0;
  rtt_nremoves = 0;
  rtt_nmalloc = 0;
  rtt_nfree = 0;
  rtt_nusrfrees = 0;
  rtt_nwraps = 0;
  rtt_version = 0;
  rtt_maxaddrlen = maxaddrlen;
  rtt_debug = false;
  rtt_convert = none;
  rtt_rmfree = rmfree;
}

unfoldable pub std_radix_init : RtTable → RtTable
std_radix_init s = record s {
  rtt_root = 0;
  rtt_inodes = 0;
  rtt_routes = 0;
  rtt_ninserts = 0;
  rtt_nremoves = 0;
  rtt_nmalloc = 0;
  rtt_nfree = 0;
  rtt_nusrfrees = 0;
  rtt_nwraps = 0;
  rtt_version = 0;
}
