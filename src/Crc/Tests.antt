-- ===== src/Crc/Tests.antt =====
-- `std_crc32` of src/std_crc32.c on concrete buffers.
use Prim.Native.Nat.{bit_xor}
use sonic_common_utils.Base.{ℕ, ◌≡◌, ◌≢◌, refl, List, [], ◌∷◌, ◌++◌, arith}
use sonic_common_utils.Crc.{std_crc32}
use sonic_common_utils.Crc.Reference.{register, std_crc32-register, std_crc32-append}
use sonic_common_utils.Crc.Detection.{std_crc32-one_byte}

-- The nine bytes of the text 123456789.
abbrev digits : List ℕ
digits = 0x31 ∷ 0x32 ∷ 0x33 ∷ 0x34 ∷ 0x35 ∷ 0x36 ∷ 0x37 ∷ 0x38 ∷ 0x39 ∷ []

-- The check value of CRC-32.
check_value : std_crc32 0 digits ≡ 0xcbf43926
unfolding std_crc32
check_value = refl

std_crc32-register_example :
    std_crc32 0 digits ≡ bit_xor (register (bit_xor 0 0xffffffff) digits) 0xffffffff
std_crc32-register_example = std_crc32-register 0 digits (omega arith)

std_crc32-append_example : std_crc32 5 (digits ++ digits) ≡ std_crc32 (std_crc32 5 digits) digits
std_crc32-append_example = std_crc32-append 5 digits digits

std_crc32-one_byte_example :
    std_crc32 7 (digits ++ (1 ∷ digits)) ≢ std_crc32 7 (digits ++ (3 ∷ digits))
std_crc32-one_byte_example =
    std_crc32-one_byte 7 1 3 digits digits (omega arith) (omega arith) (omega arith) (omega arith)
      (omega arith)
