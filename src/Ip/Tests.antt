-- ===== src/Ip/Tests.antt =====
-- Masks and addresses of src/std_ip_utils.c at concrete values, with the families of Linux.
use sonic_common_utils.Base.Int.{is_zero}
use sonic_common_utils.Base.{
  ℕ, ◌+◌, ◌<◌, ◌≡◌, ◌↔◌, refl, true, false, arith, ◌==◌, if◌then◌else◌, none, some,
}
use sonic_common_utils.Ip.{
  IpAddr, addr_len, std_ip_v4_prefix_len_to_mask, std_ip_v4_mask_to_prefix_len,
  std_ip_v6_prefix_len_to_mask, std_ip_cmp_ip_addr, std_ip_from_inet, std_ip_from_inet6,
  std_ip_get_mask_from_prefix_len, bit_pos, mask_val, is_addr_zero, is_addr_loop_back, Resolver,
  std_str_to_ip,
}
use sonic_common_utils.Ip.Masks.{v4_mask_to_prefix_len-v4_prefix_len_to_mask}
use sonic_common_utils.Ip.Compare.{std_ip_cmp_ip_addr-same}

v4_mask_to_prefix_len-v4_prefix_len_to_mask_example :
    std_ip_v4_mask_to_prefix_len (std_ip_v4_prefix_len_to_mask 20) ≡ 20
v4_mask_to_prefix_len-v4_prefix_len_to_mask_example =
    v4_mask_to_prefix_len-v4_prefix_len_to_mask 20 (omega arith)

v4_mask : std_ip_v4_prefix_len_to_mask 20 ≡ 0xfffff000
unfolding std_ip_v4_prefix_len_to_mask
v4_mask = refl

dirty : ℕ → ℕ
dirty p = 171

-- The prefix length 0 leaves the buffer as it was.
untouched : std_ip_v6_prefix_len_to_mask dirty 100 16 0 103 ≡ 171
unfolding std_ip_v6_prefix_len_to_mask dirty
untouched = refl

-- A mask with a gap has the sum of the lengths of its bytes as prefix length.
gap : std_ip_v4_mask_to_prefix_len 0xff00ff00 ≡ 16
unfolding std_ip_v4_mask_to_prefix_len bit_pos
gap = refl

abbrev one : IpAddr
one = record { af_index = 2; u = λ i. i + 1 }

std_ip_cmp_ip_addr-same_example : (is_zero (std_ip_cmp_ip_addr 2 10 one one) ≡ true) ↔ (
    (one.af_index ≡ one.af_index) × ((i : ℕ) → i < addr_len 2 10 one.af_index → one.u i ≡ one.u i))
std_ip_cmp_ip_addr-same_example = std_ip_cmp_ip_addr-same 2 10 one one (omega arith) (omega arith)

-- 127.0.0.1 as `std_ip_from_inet` takes it, in network order, is not found to be the loopback.
loopback_missed : is_addr_loop_back 2 10 (std_ip_from_inet 2 10 0x0100007f) ≡ false
unfolding is_addr_loop_back std_ip_from_inet
loopback_missed = refl

loopback_host_order : is_addr_loop_back 2 10 (std_ip_from_inet 2 10 0x7f000001) ≡ true
unfolding is_addr_loop_back std_ip_from_inet
loopback_host_order = refl

v6_zero : is_addr_zero 2 10 (std_ip_from_inet6 2 10 (λ i. 0)) ≡ true
unfolding is_addr_zero std_ip_from_inet6
v6_zero = refl

v6_mask_byte : (std_ip_get_mask_from_prefix_len 2 10 10 12).u 1 ≡ 0xf0
unfolding std_ip_get_mask_from_prefix_len mask_val
v6_mask_byte = refl

-- A resolver that knows one IPv4 string.
abbrev resolver : Resolver ℕ
resolver = record {
  family = λ s. if s == 7 then some 2 else none;
  inet_pton = λ f s old. if s == 7 then (true, (λ i. i)) else (false, old);
}

parsed : (std_str_to_ip resolver 2 10 7 0 one).0 ≡ true
unfolding std_str_to_ip
parsed = refl

not_parsed : (std_str_to_ip resolver 2 10 8 0 one).0 ≡ false
unfolding std_str_to_ip
not_parsed = refl
