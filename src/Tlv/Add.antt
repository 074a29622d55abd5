-- ===== src/Tlv/Add.antt =====
-- `std_tlv_add` of sonic/std_tlv.h and its three integer variants: what they leave in the buffer.
use sonic_common_utils.Base.Memory.{memcpy, memcpy_at, memcpy_before, memcpy_behind}
use sonic_common_utils.Base.{ℕ, ◌+◌, ◌-◌, ◌%◌, ◌^◌, ◌≤◌, ◌<◌, ◌≡◌, refl, ◌∙◌, arith, ge→ltb}
use sonic_common_utils.Tlv.{
  le_byte, store_le, hdr_len, add64, std_tlv_set_tag, std_tlv_set_len, std_tlv_len, std_tlv_tag,
  std_tlv_data, Added, std_tlv_add,
}
use sonic_common_utils.Tlv.Bytes.{load_le_ext, load_le-le_byte}

-- A record as the caller means it; `content` is read at offsets below `len`.
pub record Item : Type 0 where
  pub tag : ℕ
  pub len : ℕ
  pub content : ℕ → ℕ

-- Memory holds a record at `p`.
pub record Holds (mem : ℕ → ℕ) (p : ℕ) (t : Item) : Type 0 where
  pub tag : std_tlv_tag mem p ≡ t.tag
  pub len : std_tlv_len mem p ≡ t.len
  pub content : (i : ℕ) → i < t.len → mem (std_tlv_data p + i) ≡ t.content i

-- What an addition that fits leaves: the record, the rest of the room behind it, and all other
-- memory.
pub record Placed (mem : ℕ → ℕ) (p room : ℕ) (t : Item) (r : Added) : Type 0 where
  pub held : Holds r.mem p t
  pub left : r.data_len + (t.len + hdr_len) ≡ room
  pub next : r.next ≡ p + (t.len + hdr_len)
  pub before : (j : ℕ) → j < p → r.mem j ≡ mem j
  pub behind : (j : ℕ) → p + (t.len + hdr_len) ≤ j → r.mem j ≡ mem j

pub Holds-ext :
    (mem mem' : ℕ → ℕ) (p : ℕ) (t : Item)
    → ((j : ℕ) → j < p + (t.len + hdr_len) → mem' j ≡ mem j)
    → Holds mem p t
    → Holds mem' p t
unfolding std_tlv_tag std_tlv_len std_tlv_data
Holds-ext mem mem' p t e h = record {
  tag = load_le_ext 8 mem' mem p (λ j q r. e j (omega arith)) ∙ h.tag;
  len = load_le_ext 8 mem' mem (p + 8) (λ j q r. e j (omega arith)) ∙ h.len;
  content = λ i q. e (p + hdr_len + i) (omega arith) ∙ h.content i q;
}

module _ (mem : ℕ → ℕ) (p room : ℕ) (t : Item) where
  -- The memory after the three writes.
  abbrev written : ℕ → ℕ
  written =
      memcpy t.len (std_tlv_set_len (std_tlv_set_tag mem p t.tag) p t.len) (p + hdr_len) t.content

  add_fits :
      t.len + hdr_len ≤ room
      → room < 2 ^ 64
      → std_tlv_add mem p room t.tag t.len t.content ≡ record {
        mem = written;
        data_len = room - (t.len + hdr_len);
        next = p + (t.len + hdr_len);
      }
  unfolding std_tlv_add add64
  add_fits h k =
      let sum : (t.len + hdr_len) % 2 ^ 64 ≡ t.len + hdr_len = omega arith in
      rw (sum, ge→ltb room (t.len + hdr_len) h)

  written_tag : (i : ℕ) → i < 8 → written (p + i) ≡ le_byte t.tag i
  unfolding std_tlv_set_len std_tlv_set_tag store_le
  written_tag i h =
      memcpy_before t.len (std_tlv_set_len (std_tlv_set_tag mem p t.tag) p t.len) (p + hdr_len)
        t.content (p + i) (omega arith)
      ∙ memcpy_before 8 (std_tlv_set_tag mem p t.tag) (p + 8) (le_byte t.len) (p + i) (omega arith)
      ∙ memcpy_at 8 mem p (le_byte t.tag) i h

  written_len : (i : ℕ) → i < 8 → written (p + 8 + i) ≡ le_byte t.len i
  unfolding std_tlv_set_len store_le
  written_len i h =
      memcpy_before t.len (std_tlv_set_len (std_tlv_set_tag mem p t.tag) p t.len) (p + hdr_len)
        t.content (p + 8 + i) (omega arith)
      ∙ memcpy_at 8 (std_tlv_set_tag mem p t.tag) (p + 8) (le_byte t.len) i h

  written_before : (j : ℕ) → j < p → written j ≡ mem j
  unfolding std_tlv_set_len std_tlv_set_tag store_le
  written_before j h =
      memcpy_before t.len (std_tlv_set_len (std_tlv_set_tag mem p t.tag) p t.len) (p + hdr_len)
        t.content j (omega arith)
      ∙ memcpy_before 8 (std_tlv_set_tag mem p t.tag) (p + 8) (le_byte t.len) j (omega arith)
      ∙ memcpy_before 8 mem p (le_byte t.tag) j h

  written_behind : (j : ℕ) → p + (t.len + hdr_len) ≤ j → written j ≡ mem j
  unfolding std_tlv_set_len std_tlv_set_tag store_le
  written_behind j h =
      memcpy_behind t.len (std_tlv_set_len (std_tlv_set_tag mem p t.tag) p t.len) (p + hdr_len)
        t.content j (omega arith)
      ∙ memcpy_behind 8 (std_tlv_set_tag mem p t.tag) (p + 8) (le_byte t.len) j (omega arith)
      ∙ memcpy_behind 8 mem p (le_byte t.tag) j (omega arith)

  written-Holds : t.tag < 2 ^ 64 → t.len < 2 ^ 64 → Holds written p t
  unfolding std_tlv_tag std_tlv_len std_tlv_data
  written-Holds h k = record {
    tag = load_le-le_byte 8 written p t.tag (omega arith) written_tag;
    len = load_le-le_byte 8 written (p + 8) t.len (omega arith) written_len;
    content = λ i q.
        memcpy_at t.len (std_tlv_set_len (std_tlv_set_tag mem p t.tag) p t.len) (p + hdr_len)
          t.content i q;
  }

  -- If the record fits the room, `std_tlv_add` stores it: its tag, its length and its content are
  -- read back, `*data_len` shrinks by the size of the record, the returned pointer is right behind
  -- it, and no other byte changes.
  pub std_tlv_add-Placed :
      t.tag < 2 ^ 64
      → t.len + hdr_len ≤ room
      → room < 2 ^ 64
      → Placed mem p room t (std_tlv_add mem p room t.tag t.len t.content)
  std_tlv_add-Placed g h k = rw (add_fits h k) (record {
    held = written-Holds g (omega arith);
    left = omega arith;
    next = refl;
    before = written_before;
    behind = written_behind;
  })
