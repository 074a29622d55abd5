-- ===== src/Ip/Masks.antt =====
-- The masks of src/std_ip_utils.c: what they say of a prefix length, and how it is read back.
use sonic_common_utils.Base.Every.{every, every_at}
use sonic_common_utils.Base.{ℕ, ◌≤◌, ◌≡◌, refl, true, arith, ◌==◌, ==_iff}
use sonic_common_utils.Ip.{std_ip_v4_prefix_len_to_mask, std_ip_v4_mask_to_prefix_len, bit_pos}

read_back_table :
    every (λ p. std_ip_v4_mask_to_prefix_len (std_ip_v4_prefix_len_to_mask p) == p) 33 ≡ true
unfolding every bit_pos std_ip_v4_mask_to_prefix_len std_ip_v4_prefix_len_to_mask
read_back_table = refl

-- The mask of an IPv4 prefix length of at most 32 is read back as that length.
pub v4_mask_to_prefix_len-v4_prefix_len_to_mask :
    (p : ℕ) → p ≤ 32 → std_ip_v4_mask_to_prefix_len (std_ip_v4_prefix_len_to_mask p) ≡ p
v4_mask_to_prefix_len-v4_prefix_len_to_mask p h =
    (==_iff (std_ip_v4_mask_to_prefix_len (std_ip_v4_prefix_len_to_mask p)) p).0 (
      every_at (λ q. std_ip_v4_mask_to_prefix_len (std_ip_v4_prefix_len_to_mask q) == q) 33 p
        (omega arith) read_back_table)
