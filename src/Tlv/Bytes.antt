-- ===== src/Tlv/Bytes.antt =====
-- The little-endian fields of sonic/std_tlv.h: a field that was stored is loaded again.
use native.Mathlib.Nat.{pow-suc, div-div-eq-div-mul}
use sonic_common_utils.Base.{
  ℕ, zero, suc, ◌+◌, ◌*◌, ◌/◌, ◌%◌, ◌^◌, ◌≤◌, ◌<◌, ◌≡◌, refl, ap, ◌∙◌, ap₂, arith,
}
use sonic_common_utils.Tlv.{le_byte, load_le}

pub load_le_ext :
    (n : ℕ) (mem mem' : ℕ → ℕ) (p : ℕ)
    → ((j : ℕ) → p ≤ j → j < p + n → mem j ≡ mem' j)
    → load_le n mem p ≡ load_le n mem' p
unfolding load_le
load_le_ext zero mem mem' p h = refl
load_le_ext (suc n) mem mem' p h =
    ap₂ (λ a b. a + 256 * b) (h p (omega arith) (omega arith))
      (load_le_ext n mem mem' (p + 1) (λ j q r. h j (omega arith) (omega arith)))

le_byte_zero : (v : ℕ) → le_byte v 0 ≡ v % 256
unfolding le_byte
le_byte_zero v = omega arith

le_byte-suc : (v i : ℕ) → le_byte v (suc i) ≡ le_byte (v / 256) i
unfolding le_byte
le_byte-suc v i =
    ap (λ t. t % 256) (rw div-div-eq-div-mul (ap (λ (t : ℕ). v / t) (omega (arith, pow-suc 256 i))))

-- The bytes of a number give the number back.
pub load_le-le_byte :
    (n : ℕ) (mem : ℕ → ℕ) (p v : ℕ)
    → v < 256 ^ n
    → ((i : ℕ) → i < n → mem (p + i) ≡ le_byte v i)
    → load_le n mem p ≡ v
unfolding load_le
load_le-le_byte zero mem p v h e = omega arith
load_le-le_byte (suc n) mem p v h e =
    let first : mem p ≡ v % 256 = ap mem (omega arith) ∙ e 0 (omega arith) ∙ le_byte_zero v in
    let size : v < 256 ^ n * 256 = omega (arith, pow-suc 256 n) in
    let rest : load_le n mem (p + 1) ≡ v / 256 =
      load_le-le_byte n mem (p + 1) (v / 256) (omega arith)
        (λ i q. ap mem (omega arith) ∙ e (suc i) (omega arith) ∙ le_byte-suc v i) in
    omega arith
