-- ===== src/Tlv/Tests.antt =====
-- The records of sonic/std_tlv.h in a buffer at address 100, and the end of a buffer.
use sonic_common_utils.Base.{
  ℕ, ◌+◌, ◌-◌, ◌^◌, ◌≤◌, ◌≡◌, refl, true, some, List, [], ◌∷◌, arith, ◌==◌, if◌then◌else◌,
}
use sonic_common_utils.Tlv.{
  load_le, std_tlv_len, std_tlv_data_u16, std_tlv_data_u32, std_tlv_data_u64, std_tlv_add,
  std_tlv_add_u16, std_tlv_add_u32, std_tlv_add_u64, std_tlv_valid, std_tlv_next, std_tlv_find_next,
  std_tlv_efind,
}
use sonic_common_utils.Tlv.Add.{Item, Placed, std_tlv_add-Placed}
use sonic_common_utils.Tlv.Chain.{
  size, AllPlaced, Labelled, add_all, add_all-AllPlaced, add_integer-data_integer,
}
use sonic_common_utils.Tlv.Find.{
  first_with, LenFits, InBuffer, std_tlv_find_next-first_with, std_tlv_find_next-InBuffer,
}
use sonic_common_utils.Tlv.Nested.{Reached, std_tlv_efind-Reached}

abbrev blank : ℕ → ℕ
blank p = 0

abbrev three_bytes : Item
three_bytes = record { tag = 7; len = 3; content = λ i. i + 65 }

abbrev one_byte : Item
one_byte = record { tag = 9; len = 1; content = λ i. 33 }

std_tlv_add-Placed_example :
    Placed blank 100 40 three_bytes (std_tlv_add blank 100 40 7 3 (λ i. i + 65))
std_tlv_add-Placed_example =
    std_tlv_add-Placed blank 100 40 three_bytes (omega arith) (omega arith) (omega arith)

abbrev both : List Item
both = three_bytes ∷ one_byte ∷ []

room_for_both : size both ≤ 40
unfolding size
room_for_both = omega arith

add_all-AllPlaced_example : AllPlaced blank 100 40 both (add_all blank 100 40 both)
add_all-AllPlaced_example =
    add_all-AllPlaced blank 100 40 both (omega arith, (omega arith, tt)) room_for_both (omega arith)

add_integer-data_integer_example :
    Labelled (std_tlv_add_u16 blank 100 18 5 513).mem 100 5 2
    × (std_tlv_data_u16 (std_tlv_add_u16 blank 100 18 5 513).mem 100 ≡ 513)
    × Labelled (std_tlv_add_u32 blank 100 20 5 70000).mem 100 5 4
    × (std_tlv_data_u32 (std_tlv_add_u32 blank 100 20 5 70000).mem 100 ≡ 70000)
    × Labelled (std_tlv_add_u64 blank 100 30 5 8).mem 100 5 8
    × (std_tlv_data_u64 (std_tlv_add_u64 blank 100 30 5 8).mem 100 ≡ 8)
add_integer-data_integer_example =
    add_integer-data_integer blank 100 5 18 20 30 513 70000 8 (omega arith)
      (omega arith, omega arith) (omega arith, omega arith) (omega arith, omega arith) (omega arith)
      (omega arith) (omega arith)

-- The buffer of the two records, which take 36 bytes.
abbrev buffer : ℕ → ℕ
buffer = (add_all blank 100 40 both).mem

end_fits : LenFits buffer 136
unfolding add_all std_tlv_len std_tlv_add
end_fits = omega arith

size_of_both : 36 ≡ size both
unfolding size
size_of_both = refl

std_tlv_find_next-first_with_example :
    std_tlv_find_next 3 buffer 100 36 9 ≡ some (first_with 9 100 36 both)
std_tlv_find_next-first_with_example =
    std_tlv_find_next-first_with buffer 9 3 100 36 both (omega arith) (omega arith)
      add_all-AllPlaced_example.stored size_of_both (omega arith) end_fits

found_second : first_with 9 100 36 both ≡ (119, 17)
unfolding first_with
found_second = refl

blank_fits : (q : ℕ) → LenFits blank q
unfolding std_tlv_len load_le
blank_fits q = omega arith

std_tlv_find_next-InBuffer_example :
    (r : ℕ × ℕ) × (std_tlv_find_next 4 blank 100 50 0 ≡ some r) × InBuffer blank 0 100 50 r
std_tlv_find_next-InBuffer_example =
    std_tlv_find_next-InBuffer blank 0 4 100 50 (λ q a b. blank_fits q) (omega arith) (omega arith)

std_tlv_efind-Reached_example :
    (r : ℕ × ℕ) × (std_tlv_efind 4 blank 100 50 (0 ∷ 0 ∷ []) ≡ some r) × Reached blank 100 50 50 0 r
std_tlv_efind-Reached_example =
    std_tlv_efind-Reached blank 4 100 50 0 (0 ∷ []) (λ q a b. blank_fits q) (omega arith)
      (omega arith)

-- A length of 2 ^ 64 - 16 makes the total length 0: the header at the end of a buffer counts as valid
-- with no byte left, and the next record is the same one.
wrapping : ℕ → ℕ
wrapping p = if p == 108 then 240 else 255

wrapping_valid : std_tlv_valid wrapping 100 0 ≡ true
unfolding std_tlv_valid wrapping
wrapping_valid = refl

wrapping_next : std_tlv_next wrapping 100 0 ≡ (100, 0)
unfolding std_tlv_next wrapping
wrapping_next = refl

-- A length of 2 ^ 64 - 16 passes the room check of `std_tlv_add` with no room at all.
wrapping_add : (std_tlv_add blank 100 0 1 (2 ^ 64 - 16) (λ i. 0)).next ≡ 100
unfolding std_tlv_add
wrapping_add = refl
