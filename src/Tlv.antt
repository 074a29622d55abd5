-- ===== src/Tlv.antt =====
-- sonic/std_tlv.h and sonic/std_tlv_internal.h: tag-length-value records in a byte buffer.
-- Memory is a function from addresses to bytes, a `void *` is an address and 0 is null; `size_t` and
-- the two fields of a header are 64-bit, so a sum of two of them is taken below 2 ^ 64. The field
-- access by `le64toh` and `htole64` is a little-endian number in memory on every host.
pub mod Bytes
pub mod Add
pub mod Chain
pub mod Find
pub mod Nested
mod Tests
use mathlib.Core.Option
use sonic_common_utils.Base.Memory.{memcpy}
use sonic_common_utils.Base.{
  ℕ, zero, suc, ◌+◌, ◌-◌, ◌*◌, ◌/◌, ◌%◌, ◌^◌, Bool, true, false, not, ◌&&◌, Option, none, some,
  List, [], ◌∷◌, if◌then◌else◌, ◌==◌, leb, ltb,
}

-- Byte `i` of a number in little-endian order.
pub le_byte : ℕ → ℕ → ℕ
le_byte v i = v / 256 ^ i % 256

-- The little-endian number in `n` bytes from `p` on.
pub load_le : ℕ → (ℕ → ℕ) → ℕ → ℕ
load_le zero mem p = 0
load_le (suc n) mem p = mem p + 256 * load_le n mem (p + 1)

pub store_le : ℕ → (ℕ → ℕ) → ℕ → ℕ → ℕ → ℕ
unfolding memcpy le_byte
store_le n mem p v = memcpy n mem p (le_byte v)

-- `STD_TLV_HDR_LEN`.
abbrev pub hdr_len : ℕ
hdr_len = 16

-- A sum in `size_t` or `uint64_t`.
pub add64 : ℕ → ℕ → ℕ
add64 a b = (a + b) % 2 ^ 64

pub std_tlv_set_tag : (ℕ → ℕ) → ℕ → ℕ → ℕ → ℕ
unfolding store_le
std_tlv_set_tag mem tlv tag = store_le 8 mem tlv tag

pub std_tlv_set_len : (ℕ → ℕ) → ℕ → ℕ → ℕ → ℕ
unfolding store_le
std_tlv_set_len mem tlv len = store_le 8 mem (tlv + 8) len

pub std_tlv_len : (ℕ → ℕ) → ℕ → ℕ
unfolding load_le
std_tlv_len mem tlv = load_le 8 mem (tlv + 8)

pub std_tlv_tag : (ℕ → ℕ) → ℕ → ℕ
unfolding load_le
std_tlv_tag mem tlv = load_le 8 mem tlv

pub std_tlv_total_len : (ℕ → ℕ) → ℕ → ℕ
unfolding add64 std_tlv_len
std_tlv_total_len mem tlv = add64 (std_tlv_len mem tlv) hdr_len

pub std_tlv_data : ℕ → ℕ
std_tlv_data tlv = tlv + hdr_len

pub std_tlv_data_u16 : (ℕ → ℕ) → ℕ → ℕ
unfolding load_le std_tlv_data
std_tlv_data_u16 mem tlv = load_le 2 mem (std_tlv_data tlv)

pub std_tlv_data_u32 : (ℕ → ℕ) → ℕ → ℕ
unfolding load_le std_tlv_data
std_tlv_data_u32 mem tlv = load_le 4 mem (std_tlv_data tlv)

pub std_tlv_data_u64 : (ℕ → ℕ) → ℕ → ℕ
unfolding load_le std_tlv_data
std_tlv_data_u64 mem tlv = load_le 8 mem (std_tlv_data tlv)

-- What `std_tlv_add` leaves: the memory, `*data_len`, and the pointer that it returns.
pub record Added : Type 0 where
  pub mem : ℕ → ℕ
  pub data_len : ℕ
  pub next : ℕ

pub std_tlv_add : (ℕ → ℕ) → (tlv data_len tag len : ℕ) → (ℕ → ℕ) → Added
unfolding add64 std_tlv_set_tag std_tlv_set_len memcpy
std_tlv_add mem tlv data_len tag len content =
    if ltb data_len (add64 len hdr_len)
    then record { mem = mem; data_len = data_len; next = 0 }
    else record {
      mem =
          memcpy len (std_tlv_set_len (std_tlv_set_tag mem tlv tag) tlv len) (tlv + hdr_len)
            content;
      data_len = data_len - add64 len hdr_len;
      next = tlv + add64 len hdr_len;
    }

pub std_tlv_add_u16 : (ℕ → ℕ) → (tlv data_len tag content : ℕ) → Added
unfolding std_tlv_add le_byte
std_tlv_add_u16 mem tlv data_len tag content = std_tlv_add mem tlv data_len tag 2 (le_byte content)

pub std_tlv_add_u32 : (ℕ → ℕ) → (tlv data_len tag content : ℕ) → Added
unfolding std_tlv_add le_byte
std_tlv_add_u32 mem tlv data_len tag content = std_tlv_add mem tlv data_len tag 4 (le_byte content)

pub std_tlv_add_u64 : (ℕ → ℕ) → (tlv data_len tag content : ℕ) → Added
unfolding std_tlv_add le_byte
std_tlv_add_u64 mem tlv data_len tag content = std_tlv_add mem tlv data_len tag 8 (le_byte content)

pub std_tlv_valid : (ℕ → ℕ) → (tlv len : ℕ) → Bool
unfolding std_tlv_total_len
std_tlv_valid mem tlv len = not (tlv == 0) && leb (std_tlv_total_len mem tlv) len

-- `std_tlv_next`: the pointer that it returns, and `*len` after it.
pub std_tlv_next : (ℕ → ℕ) → (tlv len : ℕ) → ℕ × ℕ
unfolding std_tlv_total_len
std_tlv_next mem tlv len =
    if tlv == 0
    then (0, len)
    else (let tlen = std_tlv_total_len mem tlv in
        if ltb len tlen then (0, len) else (tlv + tlen, len - tlen))

-- `std_tlv_find_next`, on fuel: the pointer that it returns, and `*dlen` after it; `none` is a search
-- that does not end within the fuel.
pub std_tlv_find_next : ℕ → (ℕ → ℕ) → (tlv dlen tag : ℕ) → Option (ℕ × ℕ)
unfolding std_tlv_valid std_tlv_tag std_tlv_next
std_tlv_find_next zero mem tlv dlen tag = none
std_tlv_find_next (suc fuel) mem tlv dlen tag = elim (std_tlv_valid mem tlv dlen) [
  | false ↦ some (0, dlen)
  | true ↦ elim (std_tlv_tag mem tlv == tag) [
    | true ↦ some (tlv, dlen)
    | false ↦
        let (tlv', dlen') = std_tlv_next mem tlv dlen in
        elim (tlv' == 0) [
          | true ↦ some (0, dlen')
          | false ↦ std_tlv_find_next fuel mem tlv' dlen' tag
        ]
  ]
]

-- The loop of `std_tlv_efind` from `ix` on, `tags` being the tags left; `dlen` is `*dlen`.
pub efind_loop : ℕ → (ℕ → ℕ) → (tlv len dlen : ℕ) → List ℕ → Option (ℕ × ℕ)
unfolding std_tlv_find_next std_tlv_len std_tlv_data
efind_loop fuel mem tlv len dlen [] = some (tlv, len)
efind_loop fuel mem tlv len dlen (tag ∷ []) =
    Option.bind (std_tlv_find_next fuel mem tlv len tag)
      λ found. some (if found.0 == 0 then (0, dlen) else found)
efind_loop fuel mem tlv len dlen (tag ∷ next ∷ tags) =
    Option.bind (std_tlv_find_next fuel mem tlv len tag) λ found. elim (found.0 == 0) [
      | true ↦ some (0, dlen)
      | false ↦
          efind_loop fuel mem (std_tlv_data found.0) (std_tlv_len mem found.0) dlen (next ∷ tags)
    ]

pub std_tlv_efind : ℕ → (ℕ → ℕ) → (tlv dlen : ℕ) → List ℕ → Option (ℕ × ℕ)
unfolding efind_loop
std_tlv_efind fuel mem tlv dlen tags = efind_loop fuel mem tlv dlen dlen tags
