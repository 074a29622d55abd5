-- ===== src/Tlv/Chain.antt =====
-- Records of sonic/std_tlv.h one behind the other, each added where the last call returned.
use sonic_common_utils.Base.{
  ℕ, ◌+◌, ◌^◌, ◌≤◌, ◌<◌, ◌≡◌, refl, ◌∙◌, subst, List, [], ◌∷◌, All, arith,
}
use sonic_common_utils.Tlv.{
  hdr_len, Added, std_tlv_tag, std_tlv_len, std_tlv_add, le_byte, load_le, std_tlv_data,
  std_tlv_data_u16, std_tlv_data_u32, std_tlv_data_u64, std_tlv_add_u16, std_tlv_add_u32,
  std_tlv_add_u64,
}
use sonic_common_utils.Tlv.Bytes.{load_le-le_byte}
use sonic_common_utils.Tlv.Add.{Item, Holds, Holds-ext, std_tlv_add-Placed}

-- The bytes that records take.
unfoldable pub size : List Item → ℕ
size [] = 0
size (t ∷ ts) = t.len + hdr_len + size ts

-- Memory holds the records from `p` on.
abbrev pub Stored : (ℕ → ℕ) → ℕ → List Item → Type 0
Stored mem p [] = Unit
Stored mem p (t ∷ ts) = Holds mem p t × Stored mem (p + (t.len + hdr_len)) ts

-- Calls of `std_tlv_add`, each at the pointer and with the room that the last one left.
unfoldable pub add_all : (ℕ → ℕ) → (p room : ℕ) → List Item → Added
add_all mem p room [] = record { mem = mem; data_len = room; next = p }
add_all mem p room (t ∷ ts) =
    let r = std_tlv_add mem p room t.tag t.len t.content in add_all r.mem r.next r.data_len ts

abbrev pub TagFits : Item → Type 0
TagFits t = t.tag < 2 ^ 64

-- What a chain of additions leaves.
pub record AllPlaced (mem : ℕ → ℕ) (p room : ℕ) (ts : List Item) (r : Added) : Type 0 where
  pub stored : Stored r.mem p ts
  pub left : r.data_len + size ts ≡ room
  pub next : r.next ≡ p + size ts
  pub before : (j : ℕ) → j < p → r.mem j ≡ mem j

-- If all records fit the room, the calls of `std_tlv_add` one behind the other store them all in
-- order, and leave the bytes in front of them alone.
pub add_all-AllPlaced :
    (mem : ℕ → ℕ) (p room : ℕ) (ts : List Item)
    → All TagFits ts
    → size ts ≤ room
    → room < 2 ^ 64
    → AllPlaced mem p room ts (add_all mem p room ts)
unfolding add_all size
add_all-AllPlaced mem p room [] g h k = record {
  stored = tt;
  left = omega arith;
  next = omega arith;
  before = λ j q. refl;
}
add_all-AllPlaced mem p room (t ∷ ts) g h k =
    let r = std_tlv_add mem p room t.tag t.len t.content in
    let one = std_tlv_add-Placed mem p room t g.0 (omega arith) k in
    let left = one.left in
    let rest = add_all-AllPlaced r.mem r.next r.data_len ts g.1 (omega arith) (omega arith) in
    let next = one.next in
    let left' = rest.left in
    let next' = rest.next in
    record {
      stored = (
        Holds-ext r.mem (add_all r.mem r.next r.data_len ts).mem p t
            (λ j q. rest.before j (omega arith)) one.held,
        subst (λ q. Stored (add_all r.mem r.next r.data_len ts).mem q ts) one.next rest.stored,
      );
      left = omega arith;
      next = omega arith;
      before = λ j q. rest.before j (omega arith) ∙ one.before j q;
    }

-- The record at `p` has the tag and the length.
abbrev pub Labelled : (mem : ℕ → ℕ) → (p tag len : ℕ) → Type 0
Labelled mem p tag len = (std_tlv_tag mem p ≡ tag) × (std_tlv_len mem p ≡ len)

-- The three integer variants: in enough room for its record, which is 18, 20 and 24 bytes, each stores
-- the tag and the width of its type as length, and a number that fits the width is read back as it was
-- added.
pub add_integer-data_integer :
    (mem : ℕ → ℕ) (p tag room16 room32 room64 u16 u32 u64 : ℕ)
    → tag < 2 ^ 64
    → (18 ≤ room16) × (room16 < 2 ^ 64)
    → (20 ≤ room32) × (room32 < 2 ^ 64)
    → (24 ≤ room64) × (room64 < 2 ^ 64)
    → u16 < 2 ^ 16
    → u32 < 2 ^ 32
    → u64 < 2 ^ 64
    → Labelled (std_tlv_add_u16 mem p room16 tag u16).mem p tag 2
      × (std_tlv_data_u16 (std_tlv_add_u16 mem p room16 tag u16).mem p ≡ u16)
      × Labelled (std_tlv_add_u32 mem p room32 tag u32).mem p tag 4
      × (std_tlv_data_u32 (std_tlv_add_u32 mem p room32 tag u32).mem p ≡ u32)
      × Labelled (std_tlv_add_u64 mem p room64 tag u64).mem p tag 8
      × (std_tlv_data_u64 (std_tlv_add_u64 mem p room64 tag u64).mem p ≡ u64)
unfolding std_tlv_data_u16 std_tlv_data_u32 std_tlv_data_u64 std_tlv_add_u16 std_tlv_add_u32
    std_tlv_add_u64
add_integer-data_integer mem p tag room16 room32 room64 u16 u32 u64 g h k l a b c =
    let (tag16, len16, data16) = stored 2 room16 u16 (omega arith) (omega arith) (omega arith) in
    let (tag32, len32, data32) = stored 4 room32 u32 (omega arith) (omega arith) (omega arith) in
    let (tag64, len64, data64) = stored 8 room64 u64 (omega arith) (omega arith) (omega arith) in
    ((tag16, len16), data16, (tag32, len32), data32, (tag64, len64), data64)
  where
    stored :
        (n room v : ℕ)
        → n + hdr_len ≤ room
        → room < 2 ^ 64
        → v < 256 ^ n
        → (std_tlv_tag (std_tlv_add mem p room tag n (le_byte v)).mem p ≡ tag)
          × (std_tlv_len (std_tlv_add mem p room tag n (le_byte v)).mem p ≡ n)
          × (load_le n (std_tlv_add mem p room tag n (le_byte v)).mem (std_tlv_data p) ≡ v)
    stored n room v q r f =
        let t : Item = record { tag = tag; len = n; content = le_byte v } in
        let after = std_tlv_add mem p room tag n (le_byte v) in
        let held = (std_tlv_add-Placed mem p room t g q r).held in
        (held.tag, held.len, load_le-le_byte n after.mem (std_tlv_data p) v f held.content)
