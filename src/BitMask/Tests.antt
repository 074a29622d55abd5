-- ===== src/BitMask/Tests.antt =====
-- The bit arrays of src/std_bit_masks.c on concrete bytes.
use sonic_common_utils.Base.{ℕ, zero, suc, ◌-◌, ◌^◌, ◌≡◌, refl, true, some, [], ◌∷◌, arith}
use sonic_common_utils.BitMask.{
  std_find_first_bit8, std_find_last_bit8, first_loop, std_find_first_bit, std_find_last_bit,
  bit_array_set, bit_array_test, std_bitmap_create_array,
}
use sonic_common_utils.BitMask.Search.{IsBytes, IsFirstInt, std_find_first_bit-IsFirst}
use sonic_common_utils.BitMask.SearchBack.{IsLastInt, std_find_last_bit-IsLast}
use sonic_common_utils.Base.Int.{ℤ, pos, negsuc, to_int}
use sonic_common_utils.BitMask.Macros.{test-set}

-- Bits 7 and 12.
abbrev sample : ℕ → ℕ
sample zero = 0x80
sample (suc zero) = 0x10
sample (suc (suc i)) = 0

sample-IsBytes : IsBytes sample
sample-IsBytes zero = omega arith
sample-IsBytes (suc zero) = omega arith
sample-IsBytes (suc (suc i)) = omega arith

-- Bit 12 lies past the end of an array of ten bits, in its last byte.
first_past_end : std_find_first_bit sample 10 8 ≡ pos 12
unfolding std_find_first_bit std_find_first_bit8 first_loop
first_past_end = refl

-- Twelve bits from the end of sixteen leave bits 0 to 3, and bit 7 is found.
last_past_start : std_find_last_bit sample 16 12 ≡ some (pos 7)
unfolding std_find_last_bit std_find_last_bit8
last_past_start = refl

-- The last bit of an array of 2 ^ 32 bits has the position -1, which says that there is none.
last_position : to_int (2 ^ 32 - 1) ≡ negsuc 0
unfolding to_int
last_position = refl

created : std_bitmap_create_array true 12 ≡ some (255 ∷ 255 ∷ [])
unfolding std_bitmap_create_array
created = refl

-- The length is cut to 32 bits before the bytes are counted.
created_empty : std_bitmap_create_array true (2 ^ 32) ≡ some []
unfolding std_bitmap_create_array
created_empty = refl

std_find_first_bit-IsFirst_example : IsFirstInt sample 2 16 (std_find_first_bit sample 12 2)
std_find_first_bit-IsFirst_example =
    std_find_first_bit-IsFirst sample sample-IsBytes 12 2 (omega arith) (omega arith)

std_find_last_bit-IsLast_example :
    (v : ℤ) × (std_find_last_bit sample 12 2 ≡ some v) × IsLastInt sample 16 v
std_find_last_bit-IsLast_example =
    std_find_last_bit-IsLast sample sample-IsBytes 12 2 (omega arith) (omega arith)

test-set_example : bit_array_test (bit_array_set sample 9) 9 ≡ true
test-set_example = test-set sample sample-IsBytes 9 9
