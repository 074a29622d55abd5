-- ===== src/Crc/Reference.antt =====
-- `std_crc32` of src/std_crc32.c against the shift register that defines CRC-32.
use Prim.Native.Nat.{bit_xor}
use sonic_common_utils.Base.{
  ℕ, zero, suc, ◌*◌, ◌/◌, ◌%◌, ◌^◌, ◌<◌, ◌≡◌, refl, sym, ap, ◌∙◌, Bool, true, ◌&&◌, List, [], ◌∷◌,
  ◌++◌, arith, ◌==◌, ==_iff, get_or, All,
}
use sonic_common_utils.Base.Bits.{
  bit_and_byte, bit_xor_comm, bit_xor-zero, bit_xor_twice, bit_xor-shift, bit_xor_fields,
}
use sonic_common_utils.Crc.{crc32_tab, crc_byte, crc_loop, std_crc32}
use sonic_common_utils.Crc.Bitwise.{shift_times, shift_times-xor, shift_times-high}

abbrev pub IsByte : ℕ → Type 0
IsByte b = b < 256

-- The reference: each byte is added to the register, which is then shifted eight times.
unfoldable pub register_byte : ℕ → ℕ → ℕ
unfolding shift_times
register_byte crc byte = shift_times 8 (bit_xor crc byte)

unfoldable pub register : ℕ → List ℕ → ℕ
unfolding register_byte
register crc [] = crc
register crc (byte ∷ buf) = register (register_byte crc byte) buf

entry : ℕ → ℕ
unfolding crc32_tab
entry i = get_or crc32_tab i 0

-- The table agrees with the register at the first `n` indices.
agrees : ℕ → Bool
agrees zero = true
agrees (suc n) = (entry n == shift_times 8 n) && agrees n

agrees_at : (n i : ℕ) → agrees n ≡ true → i < n → entry i ≡ shift_times 8 i
unfolding agrees
agrees_at zero i h lt = absurd (omega arith)
agrees_at (suc n) i h lt =
    let same = (==_iff (entry n) (shift_times 8 n)).0 in ground (arith, agrees_at n i, same)

agrees_table : agrees 256 ≡ true
unfolding agrees entry shift_times
agrees_table = refl

-- Every entry of the table is eight shifts of its index.
entry-shift_times : (i : ℕ) → i < 256 → entry i ≡ shift_times 8 i
entry-shift_times i h = agrees_at 256 i agrees_table h

split_low : (x : ℕ) → shift_times 8 x ≡ bit_xor (shift_times 8 (x % 256)) (x / 256)
split_low x =
    let whole : x ≡ bit_xor (x / 256 * 2 ^ 8) (x % 256) =
      omega (arith, bit_xor_fields 8 (x / 256) (x % 256) (omega arith)) in
    ap (shift_times 8) whole
    ∙ shift_times-xor 8 (x / 256 * 2 ^ 8) (x % 256)
    ∙ ap (λ t. bit_xor t (shift_times 8 (x % 256))) (shift_times-high 8 (x / 256))
    ∙ bit_xor_comm (x / 256) (shift_times 8 (x % 256))

-- One round of the loop is one byte of the register.
crc_byte-register_byte : (crc byte : ℕ) → IsByte byte → crc_byte crc byte ≡ register_byte crc byte
unfolding crc_byte register_byte entry
crc_byte-register_byte crc byte h =
    let x = bit_xor crc byte in
    let high : x / 2 ^ 8 ≡ crc / 2 ^ 8 =
      bit_xor-shift 8 crc byte
      ∙ ap (λ t. bit_xor (crc / 2 ^ 8) t) (omega arith)
      ∙ bit_xor-zero (crc / 2 ^ 8) in
    ap (λ t. bit_xor (entry t) (crc / 2 ^ 8)) (bit_and_byte x)
    ∙ ap (λ t. bit_xor t (crc / 2 ^ 8)) (entry-shift_times (x % 256) (omega arith))
    ∙ ap (λ t. bit_xor (shift_times 8 (x % 256)) t) (sym high)
    ∙ sym (split_low x)

crc_loop-register : (crc : ℕ) (buf : List ℕ) → All IsByte buf → crc_loop crc buf ≡ register crc buf
unfolding crc_loop register
crc_loop-register crc [] h = refl
crc_loop-register crc (byte ∷ buf) h =
    rw (crc_byte-register_byte crc byte h.0) (crc_loop-register (register_byte crc byte) buf h.1)

-- On a buffer of bytes the table-driven `std_crc32` computes what the shift register computes.
pub std_crc32-register :
    (crc : ℕ) (buf : List ℕ)
    → All IsByte buf
    → std_crc32 crc buf ≡ bit_xor (register (bit_xor crc 0xffffffff) buf) 0xffffffff
unfolding std_crc32
std_crc32-register crc buf h =
    ap (λ t. bit_xor t 0xffffffff) (crc_loop-register (bit_xor crc 0xffffffff) buf h)

crc_loop-append :
    (crc : ℕ) (xs ys : List ℕ) → crc_loop crc (xs ++ ys) ≡ crc_loop (crc_loop crc xs) ys
unfolding crc_loop
crc_loop-append crc [] ys = refl
crc_loop-append crc (x ∷ xs) ys = crc_loop-append (crc_byte crc x) xs ys

-- The CRC of a buffer that is fed in two pieces, the first result as the second call's initial
-- value, is the CRC of the whole.
pub std_crc32-append :
    (crc : ℕ) (xs ys : List ℕ) → std_crc32 crc (xs ++ ys) ≡ std_crc32 (std_crc32 crc xs) ys
unfolding std_crc32
std_crc32-append crc xs ys = rw (
  crc_loop-append (bit_xor crc 0xffffffff) xs ys,
  bit_xor_twice (crc_loop (bit_xor crc 0xffffffff) xs) 0xffffffff,
)
