-- ===== src/Radix/Prefix.antt =====
-- `rdx_compare_address` of src/std_radix.c compares the first bits of two addresses.
use Prim.Native.Nat.{bit_and, bit_or, bit_xor}
use sonic_common_utils.Base.Int.{is_zero}
use sonic_common_utils.Base.Memory.{memcmp, memcmp_same, memcmp_of_same}
use sonic_common_utils.Base.{
  ℕ, ◌-◌, ◌/◌, ◌%◌, ◌^◌, ◌<◌, ◌≡◌, Bool, true, false, ◌&&◌, ◌||◌, not, arith, if◌then◌else◌, ◌==◌,
  refl, sym, ap, ◌∙◌, ◌⊎◌, ◌+◌, inl, inr, ne→==, ==→eq, ltb, Bool-cases,
}
use sonic_common_utils.Base.Bits.{
  div-pow_add, bit_xor_twice, bit_xor_comm, bit_xor-zero, bit_xor_self, bit_xor-shift, bit_xor-lt,
}
use sonic_common_utils.Base.Every.{every, every_at}
use sonic_common_utils.Radix.{rnbyte, rnbit, bit_test, rdx_compare_address}
use sonic_common_utils.Radix.Shape.{bit_at}

-- The first `n` bits are the same: the whole bytes, and the part of the next one.
abbrev pub SamePrefix : (ap ap2 : ℕ → ℕ) → (n : ℕ) → Type 0
SamePrefix ap ap2 n =
    ((i : ℕ) → i < n / 8 → ap i ≡ ap2 i)
    × (ap (n / 8) / 2 ^ (8 - n % 8) ≡ ap2 (n / 8) / 2 ^ (8 - n % 8))

-- The mask of `rdx_compare_address` for a node that tests the bit `k` of a byte, and what it does to
-- the byte `v`.
abbrev mask_of : ℕ → ℕ
mask_of k = if 128 / 2 ^ k == 0 then 0 else 255 - bit_or (128 / 2 ^ k) (128 / 2 ^ k - 1)

abbrev same_test : Bool → Bool → Bool
same_test a b = if a then b else not b

abbrev mask_check : (k v : ℕ) → Bool
mask_check k v = same_test (bit_and v (mask_of k) == 0) (v / 2 ^ (8 - k) == 0)

abbrev bit_check : (k v : ℕ) → Bool
bit_check k v = same_test (bit_test v (128 / 2 ^ k)) (v / 2 ^ (7 - k) % 2 == 1)

masks : every (λ k. every (mask_check k) 256) 8 ≡ true
unfolding every
masks = refl

bits : every (λ k. every (bit_check k) 256) 8 ≡ true
unfolding every
bits = refl

same_test_eq : (a b : Bool) → same_test a b ≡ true → a ≡ b
same_test_eq true b e = sym e
same_test_eq false true e = absurd (cc)
same_test_eq false false e = refl

masked : (k v : ℕ) → k < 8 → v < 256 → (bit_and v (mask_of k) == 0) ≡ (v / 2 ^ (8 - k) == 0)
masked k v h b =
    same_test_eq _ _
      (every_at (mask_check k) 256 v b (every_at (λ k. every (mask_check k) 256) 8 k h masks))

tested : (k v : ℕ) → k < 8 → v < 256 → bit_test v (128 / 2 ^ k) ≡ (v / 2 ^ (7 - k) % 2 == 1)
tested k v h b =
    same_test_eq _ _
      (every_at (bit_check k) 256 v b (every_at (λ k. every (bit_check k) 256) 8 k h bits))

xor_zero : (a b : ℕ) → bit_xor a b ≡ 0 → a ≡ b
xor_zero a b e =
    sym (bit_xor_twice a b) ∙ ap (λ v. bit_xor v b) e ∙ bit_xor_comm 0 b ∙ bit_xor-zero b

-- Two bytes are the same under the mask exactly where their first `k` bits are.
masked_same :
    (k x y : ℕ)
    → k < 8
    → x < 256
    → y < 256
    → (bit_and (bit_xor x y) (mask_of k) == 0) ≡ (bit_xor (x / 2 ^ (8 - k)) (y / 2 ^ (8 - k)) == 0)
masked_same k x y h p q =
    masked k (bit_xor x y) h (bit_xor-lt 8 x y p q) ∙ ap (λ v. v == 0) (bit_xor-shift (8 - k) x y)

no_difference :
    (a b c : Bool) → (not a || (not b && not c)) ≡ false → (a ≡ true) × (b ≡ false → c ≡ true)
no_difference true true c e = (refl, (λ w. absurd (cc)))
no_difference true false true e = (refl, (λ w. refl))
no_difference true false false e = absurd (cc)
no_difference false b c e = absurd (cc)

from_parts :
    (a b c : Bool) → a ≡ true → (b ≡ true) ⊎ (c ≡ true) → (not a || (not b && not c)) ≡ false
from_parts a b c e (inl w) = rw (e, w) refl
from_parts a true c e (inr w) = rw e refl
from_parts a false c e (inr w) = rw (e, w) refl

module _ (ap1 ap2 : ℕ → ℕ) (n : ℕ) (byte1 : ap1 (n / 8) < 256) (byte2 : ap2 (n / 8) < 256) where
  abbrev same_here : Bool
  same_here = bit_xor (ap1 (n / 8) / 2 ^ (8 - n % 8)) (ap2 (n / 8) / 2 ^ (8 - n % 8)) == 0

  compare_by :
      rdx_compare_address ap1 ap2 (rnbyte n) (rnbit n)
      ≡ (not same_here || (not (n / 8 == 0) && not (is_zero (memcmp (n / 8) ap1 ap2))))
  unfolding rdx_compare_address rnbit
  compare_by =
      ap (λ b. not b || (not (n / 8 == 0) && not (is_zero (memcmp (n / 8) ap1 ap2))))
        (masked_same (n % 8) (ap1 (n / 8)) (ap2 (n / 8)) (omega arith) byte1 byte2)

  -- No difference is found exactly where the first `n` bits are the same.
  pub compare-SamePrefix :
      rdx_compare_address ap1 ap2 (rnbyte n) (rnbit n) ≡ false → SamePrefix ap1 ap2 n
  compare-SamePrefix e =
      let w = no_difference _ _ _ (sym compare_by ∙ e) in
      (
        (λ i h. memcmp_same (n / 8) ap1 ap2 (w.1 (ne→== (n / 8) 0 (omega arith))) i h),
        xor_zero (ap1 (n / 8) / 2 ^ (8 - n % 8)) (ap2 (n / 8) / 2 ^ (8 - n % 8)) (==→eq _ _ w.0),
      )

  pub SamePrefix-compare :
      SamePrefix ap1 ap2 n → rdx_compare_address ap1 ap2 (rnbyte n) (rnbit n) ≡ false
  SamePrefix-compare h =
      let here : same_here ≡ true = rw (h.1, bit_xor_self (ap2 (n / 8) / 2 ^ (8 - n % 8))) refl in
      compare_by ∙ from_parts _ _ _ here (inr (memcmp_of_same (n / 8) ap1 ap2 h.0))

div_more : (a d x y : ℕ) → x / 2 ^ a ≡ y / 2 ^ a → x / 2 ^ (a + d) ≡ y / 2 ^ (a + d)
div_more a d x y e = div-pow_add a d x ∙ ap (λ (v : ℕ). v / 2 ^ d) e ∙ sym (div-pow_add a d y)

-- Addresses with the same first `n` bits have each of them the same.
pub SamePrefix-bit :
    (ap1 ap2 : ℕ → ℕ) (n m : ℕ)
    → ap1 (m / 8) < 256
    → ap2 (m / 8) < 256
    → SamePrefix ap1 ap2 n
    → m < n
    → bit_at ap1 m ≡ bit_at ap2 m
unfolding rnbit
SamePrefix-bit ap1 ap2 n m p q h less = elim (Bool-cases (ltb (m / 8) (n / 8))) [
  | inl w ↦ ap (λ v. bit_test v (rnbit m)) (h.0 (m / 8) (ground arith))
  | inr w ↦
      let e : m / 8 ≡ n / 8 = ground arith in
      let k : m % 8 < n % 8 = omega arith in
      let same : ap1 (m / 8) / 2 ^ (8 - n % 8) ≡ ap2 (m / 8) / 2 ^ (8 - n % 8) = rw e h.1 in
      let more = div_more (8 - n % 8) (n % 8 - 1 - m % 8) (ap1 (m / 8)) (ap2 (m / 8)) same in
      let size : 8 - n % 8 + (n % 8 - 1 - m % 8) ≡ 7 - m % 8 = omega arith in
      let low = rw size at more in
      tested (m % 8) (ap1 (m / 8)) (omega arith) p
      ∙ ap (λ v. v % 2 == 1) low
      ∙ sym (tested (m % 8) (ap2 (m / 8)) (omega arith) q)
]
