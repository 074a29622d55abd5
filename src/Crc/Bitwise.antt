-- ===== src/Crc/Bitwise.antt =====
-- The CRC-32 of one byte by eight shifts of a register, the definition that the table of
-- src/std_crc32.c is generated from, and its linearity over exclusive or.
use Prim.Native.Nat.{bit_xor}
use sonic_common_utils.Base.{
  ℕ, zero, suc, ◌*◌, ◌/◌, ◌%◌, ◌^◌, ◌≡◌, refl, ap₂, ◌∙◌, sym, arith, ◌==◌, false, if◌then◌else◌,
}
use sonic_common_utils.Base.Bits.{
  bit_xor_half, bit_xor_odd, bit_xor_assoc, bit_xor_comm, bit_xor-zero, two-pow-suc,
}

-- One shift to the right, with the polynomial fed back when a one falls out.
unfoldable pub shift_once : ℕ → ℕ
shift_once c = bit_xor (c / 2) (if c % 2 == 1 then 0xedb88320 else 0)

unfoldable pub shift_times : ℕ → ℕ → ℕ
unfolding shift_once
shift_times zero c = c
shift_times (suc n) c = shift_times n (shift_once c)

xor_swap : (a b c d : ℕ) → bit_xor (bit_xor a b) (bit_xor c d) ≡ bit_xor (bit_xor a c) (bit_xor b d)
xor_swap a b c d =
    rw
      (
        bit_xor_assoc a b (bit_xor c d),
        ← bit_xor_assoc b c d,
        bit_xor_comm b c,
        bit_xor_assoc c b d,
      )
      (sym (bit_xor_assoc a c (bit_xor b d)))

feed : ℕ → ℕ
feed c = if c % 2 == 1 then 0xedb88320 else 0

feed-xor : (a b : ℕ) → feed (bit_xor a b) ≡ bit_xor (feed a) (feed b)
unfolding feed
feed-xor a b =
    ground
      (arith, bit_xor_odd a b, bit_xor-zero 0xedb88320, bit_xor_comm 0 0xedb88320, bit_xor-zero 0)

shift_once-xor : (a b : ℕ) → shift_once (bit_xor a b) ≡ bit_xor (shift_once a) (shift_once b)
unfolding shift_once feed
shift_once-xor a b =
    ap₂ bit_xor (bit_xor_half a b) (feed-xor a b) ∙ xor_swap (a / 2) (b / 2) (feed a) (feed b)

pub shift_times-xor :
    (n a b : ℕ) → shift_times n (bit_xor a b) ≡ bit_xor (shift_times n a) (shift_times n b)
unfolding shift_times
shift_times-xor zero a b = refl
shift_times-xor (suc n) a b =
    rw (shift_once-xor a b) (shift_times-xor n (shift_once a) (shift_once b))

shift_once-even : (a : ℕ) → shift_once (a * 2) ≡ a
unfolding shift_once
shift_once-even a =
    let even : (a * 2 % 2 == 1) ≡ false = ground arith in
    let half : a * 2 / 2 ≡ a = omega arith in rw (even, half) (bit_xor-zero a)

-- A register whose low digits are zero is only shifted.
pub shift_times-high : (n a : ℕ) → shift_times n (a * 2 ^ n) ≡ a
unfolding shift_times
shift_times-high zero a = omega arith
shift_times-high (suc n) a =
    rw (two-pow-suc a n, shift_once-even (a * 2 ^ n)) (shift_times-high n a)
