-- ===== src/Ip.antt =====
-- src/std_ip_utils.c and the address macros of sonic/std_ip_utils.h: address masks, their prefix
-- lengths, and comparisons of addresses.
-- The address families `AF_INET` and `AF_INET6` of the system are parameters. The union of a
-- `hal_ip_addr_t` is its 16 bytes, and `v4_addr` is the number in the first four on a little-endian
-- host. The shift `1 << 31` for the prefix length 1 is taken as a 32-bit value.
pub mod Masks
pub mod Compare
mod Tests
use sonic_common_utils.Base.Int.{ℤ, pos, negsuc, is_zero}
use sonic_common_utils.Base.Memory.{memcpy, memset, memcmp}
use sonic_common_utils.Base.{
  ℕ, zero, suc, ◌+◌, ◌-◌, ◌*◌, ◌/◌, ◌%◌, ◌^◌, Bool, true, false, ◌&&◌, ◌||◌, not, Option, none,
  some, List, [], ◌∷◌, if◌then◌else◌, ◌==◌, leb, ltb, get_or, put, replicate, ◌++◌,
}

pub std_ip_v4_prefix_len_to_mask : ℕ → ℕ
std_ip_v4_prefix_len_to_mask prefix_len =
    if ltb 32 prefix_len
    then 0
    else (let mask_val = if prefix_len == 0 then 0xffffffff else 2 ^ (32 - prefix_len) - 1 in
        0xffffffff - mask_val)

-- `static uint8_t mask_val[8]`
pub mask_val : List ℕ
mask_val = 0x00 ∷ 0x80 ∷ 0xc0 ∷ 0xe0 ∷ 0xf0 ∷ 0xf8 ∷ 0xfc ∷ 0xfe ∷ []

-- The memory after the call; `mask_len` is a `size_t`.
pub std_ip_v6_prefix_len_to_mask : (ℕ → ℕ) → (mask_ptr mask_len prefix_len : ℕ) → ℕ → ℕ
unfolding memset put mask_val
std_ip_v6_prefix_len_to_mask mem mask_ptr mask_len prefix_len =
    if mask_ptr == 0 || prefix_len == 0
    then mem
    else (let nbytes = prefix_len / 8 in
        let mem1 = memset nbytes mem mask_ptr 0xff in
        let at = mask_ptr + nbytes in
        let left = (mask_len + 2 ^ 64 - nbytes) % 2 ^ 64 in
        if left == 0
        then mem1
        else memset (left - 1) (put mem1 at (get_or mask_val (prefix_len % 8) 0)) (at + 1) 0)

-- `static uint8_t bit_pos[256]`, in both functions that have it.
pub bit_pos : List ℕ
bit_pos =
    replicate 128 0
    ++ (1 ∷ replicate 63 0)
    ++ (2 ∷ replicate 31 0)
    ++ (3 ∷ replicate 15 0)
    ++ (4 ∷ 0 ∷ 0 ∷ 0 ∷ 0 ∷ 0 ∷ 0 ∷ 0 ∷ 5 ∷ 0 ∷ 0 ∷ 0 ∷ 6 ∷ 0 ∷ 7 ∷ 8 ∷ [])

-- The loops that add up `bit_pos`, from byte `ix` on, by the rounds left.
pub sum_bits : (rounds ix : ℕ) → (ℕ → ℕ) → ℕ → ℕ
sum_bits zero ix bytes prefix_len = prefix_len
sum_bits (suc n) ix bytes prefix_len =
    sum_bits n (ix + 1) bytes (prefix_len + get_or bit_pos (bytes ix) 0)

-- The bytes of `htonl (in_mask)` in memory.
pub network_byte : ℕ → ℕ → ℕ
network_byte in_mask ix = in_mask / 256 ^ (3 - ix) % 256

pub std_ip_v4_mask_to_prefix_len : ℕ → ℕ
unfolding sum_bits network_byte
std_ip_v4_mask_to_prefix_len in_mask =
    if in_mask == 0 then 0 else sum_bits 4 0 (network_byte in_mask) 0

pub std_ip_v6_mask_to_prefix_len : (ℕ → ℕ) → (mask_ptr addr_len : ℕ) → ℕ
unfolding sum_bits
std_ip_v6_mask_to_prefix_len mem mask_ptr addr_len =
    if mask_ptr == 0 then 0 else sum_bits addr_len 0 (λ ix. mem (mask_ptr + ix)) 0

-- `hal_ip_addr_t`
pub record IpAddr : Type 0 where
  pub af_index : ℕ
  pub u : ℕ → ℕ

abbrev pub v4_addr : IpAddr → ℕ
v4_addr a = a.u 0 + 256 * a.u 1 + 65536 * a.u 2 + 16777216 * a.u 3

-- The union with `v4_addr` written, all other bytes being 0.
abbrev pub of_v4 : ℕ → ℕ → ℕ
of_v4 v i = if ltb i 4 then v / 256 ^ i % 256 else 0

-- The bytes of `g_ip_v6_loopback_addr`
abbrev pub v6_loopback : ℕ → ℕ
v6_loopback i = if i == 15 then 1 else 0

pub std_ip_is_v4_addr_loopback : IpAddr → Bool
std_ip_is_v4_addr_loopback a = v4_addr a == 0x7f000001

pub std_ip_is_v6_addr_loopback : IpAddr → Bool
unfolding memcmp
std_ip_is_v6_addr_loopback a = is_zero (memcmp 16 a.u v6_loopback)

pub std_ip_is_v6_addr_zero : IpAddr → Bool
unfolding memcmp
std_ip_is_v6_addr_zero a = is_zero (memcmp 16 a.u (λ i. 0))

module _ (af_inet af_inet6 : ℕ) where
  -- `STD_IP_AFINDEX_TO_ADDR_LEN`
  pub addr_len : ℕ → ℕ
  addr_len af = if af == af_inet then 4 else 16

  -- `STD_IP_IS_ADDR_ZERO`
  pub is_addr_zero : IpAddr → Bool
  unfolding std_ip_is_v6_addr_zero
  is_addr_zero a = if a.af_index == af_inet then v4_addr a == 0 else std_ip_is_v6_addr_zero a

  -- `STD_IP_IS_ADDR_LOOP_BACK`
  pub is_addr_loop_back : IpAddr → Bool
  unfolding std_ip_is_v4_addr_loopback std_ip_is_v6_addr_loopback
  is_addr_loop_back a =
      if a.af_index == af_inet then std_ip_is_v4_addr_loopback a else std_ip_is_v6_addr_loopback a

  -- `std_ip_get_mask_from_prefix_len` for a pointer that is not null: the whole of `*p_out_mask`.
  -- With a null pointer the source returns an error and writes nothing.
  pub std_ip_get_mask_from_prefix_len : (af_index prefix_len : ℕ) → IpAddr
  unfolding std_ip_v4_prefix_len_to_mask std_ip_v6_prefix_len_to_mask
  std_ip_get_mask_from_prefix_len af_index prefix_len = record {
    af_index = af_index;
    u =
        if af_index == af_inet
        then of_v4 (std_ip_v4_prefix_len_to_mask prefix_len)
        else (λ i. std_ip_v6_prefix_len_to_mask (λ p. 0) 1 16 prefix_len (1 + i));
  }

  -- `std_ip_cmp_ip_addr`; the difference of two `uint32_t` is returned as an `int`.
  pub std_ip_cmp_ip_addr : IpAddr → IpAddr → ℤ
  unfolding memcmp addr_len
  std_ip_cmp_ip_addr a b =
      let difference = (a.af_index + 2 ^ 32 - b.af_index) % 2 ^ 32 in
      if a.af_index == b.af_index
      then memcmp (addr_len a.af_index) a.u b.u
      else if ltb difference (2 ^ 31)
      then ℤ.pos difference
      else ℤ.negsuc (2 ^ 32 - difference - 1)

  -- `std_ip_from_inet`, of `s_addr`
  pub std_ip_from_inet : ℕ → IpAddr
  std_ip_from_inet s_addr = record { af_index = af_inet; u = of_v4 s_addr }

  -- `std_ip_from_inet6`, of the 16 bytes of the address
  pub std_ip_from_inet6 : (ℕ → ℕ) → IpAddr
  unfolding memcpy
  std_ip_from_inet6 bytes = record { af_index = af_inet6; u = memcpy 16 (λ p. 0) 0 bytes }

-- The two calls of the system that read address strings: `getaddrinfo` of a numeric host, the family
-- of its first answer or `none` for an error, and `inet_pton`, whether it returns a number above 0, and
-- the destination behind it, from the one in front of it.
pub record Resolver {ℓ} (S : Type ℓ) : Type ℓ where
  pub family : S → Option ℕ
  pub inet_pton : ℕ → S → (ℕ → ℕ) → Bool × (ℕ → ℕ)

module _ {ℓ} {S : Type ℓ} (r : Resolver S) (af_inet af_inet6 : ℕ) where
  -- `std_get_ip_type`: what it returns, and `*ip_type`, which is `before` where it is not written.
  pub std_get_ip_type : S → ℕ → Bool × ℕ
  std_get_ip_type ip_str before = elim (r.family ip_str) [
    | none ↦ (false, before)
    | some f ↦ (true, if f == af_inet then af_inet else if f == af_inet6 then af_inet6 else before)
  ]

  -- `std_str_to_ip`, for pointers that are not null; `unset` is what the local `ip_type` holds.
  pub std_str_to_ip : S → (unset : ℕ) → IpAddr → Bool × IpAddr
  unfolding std_get_ip_type
  std_str_to_ip ip_str unset holder =
      let (known, ip_type) = std_get_ip_type ip_str unset in
      let typed = record holder { af_index = ip_type } in
      if known
      then (if ip_type == af_inet || ip_type == af_inet6
          then (let (ok, bytes) = r.inet_pton ip_type ip_str holder.u in
              let size = if ip_type == af_inet then 4 else 16 in
              (ok, record typed { u = memcpy size holder.u 0 bytes }))
          else (false, typed))
      else (false, holder)
