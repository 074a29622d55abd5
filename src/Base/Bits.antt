-- ===== src/Base/Bits.antt =====
-- Laws of `bit_and` and `bit_xor` at variables, from the recursion on binary digits that the native
-- operations stand for.
use Prim.Native.Nat.{
  ℕ, zero, suc, ◌+◌, ◌-◌, ◌*◌, ◌/◌, ◌%◌, ◌^◌, ◌≤◌, ◌<◌, min, bit_and, bit_xor, digits, bitwise,
  differ, bit_and-bitwise, bit_xor-bitwise,
}
use mathlib.Core.Path.{◌≡◌, refl, sym, ap, ◌∙◌}
use native.Mathlib.Nat.{pow-suc, div-div-eq-div-mul}
use native.Mathlib.Omega.{arith}

-- Fuel beyond the first number changes nothing.
module _ (low : ℕ → ℕ) (at_bit : ℕ → ℕ → ℕ) where
  one_more :
      (fuel x y : ℕ) → x ≤ fuel → digits low at_bit (suc fuel) x y ≡ digits low at_bit fuel x y
  one_more zero zero y h = refl
  one_more (suc fuel) zero y h = refl
  one_more zero (suc x) y h = absurd (omega arith)
  one_more (suc fuel) (suc x) y h =
      ap (λ t. t * 2 + at_bit (suc x % 2) (y % 2)) (one_more fuel (suc x / 2) (y / 2) (omega arith))

  many_more :
      (extra fuel x y : ℕ)
      → x ≤ fuel
      → digits low at_bit (extra + fuel) x y ≡ digits low at_bit fuel x y
  many_more zero fuel x y h = ap (λ n. digits low at_bit n x y) (omega arith)
  many_more (suc extra) fuel x y h =
      let count : suc extra + fuel ≡ suc (extra + fuel) = omega arith in
      ap (λ n. digits low at_bit n x y) count
      ∙ one_more (extra + fuel) x y (omega arith)
      ∙ many_more extra fuel x y h

  lowest_digit :
      (x y : ℕ)
      → bitwise low at_bit (suc x) y
        ≡ bitwise low at_bit (suc x / 2) (y / 2) * 2 + at_bit (suc x % 2) (y % 2)
  lowest_digit x y =
      let half = suc x / 2 in
      let whole : x - half + half ≡ x = omega arith in
      ap (λ t. t * 2 + at_bit (suc x % 2) (y % 2))
        (ap (λ n. digits low at_bit n half (y / 2)) (sym whole)
          ∙ many_more (x - half) half half (y / 2) (omega arith))

pub bit_and_step : (x y : ℕ) → bit_and x y ≡ min (x % 2) (y % 2) + bit_and (x / 2) (y / 2) * 2
bit_and_step zero y = simp bit_and-bitwise (omega arith)
bit_and_step (suc x) y = omega (
  arith,
  bit_and-bitwise (suc x) y,
  bit_and-bitwise (suc x / 2) (y / 2),
  lowest_digit (λ t. 0) min x y,
)

differ_digits : (x y : ℕ) → x < 2 → y < 2 → differ x y ≡ (x + y) % 2
differ_digits zero y p q = omega arith
differ_digits (suc zero) zero p q = refl
differ_digits (suc zero) (suc zero) p q = refl
differ_digits (suc zero) (suc (suc y)) p q = absurd (omega arith)
differ_digits (suc (suc x)) y p q = absurd (omega arith)

pub bit_xor_step : (a b : ℕ) → bit_xor a b ≡ bit_xor (a / 2) (b / 2) * 2 + (a + b) % 2
bit_xor_step zero b = simp bit_xor-bitwise (omega arith)
bit_xor_step (suc a) b = omega (
  arith,
  bit_xor-bitwise (suc a) b,
  bit_xor-bitwise (suc a / 2) (b / 2),
  lowest_digit (λ y. y) differ a b,
  differ_digits (suc a % 2) (b % 2) (omega arith) (omega arith),
)

pub bit_xor_half : (a b : ℕ) → bit_xor a b / 2 ≡ bit_xor (a / 2) (b / 2)
bit_xor_half a b = omega (arith, bit_xor_step a b)

pub bit_xor_odd : (a b : ℕ) → bit_xor a b % 2 ≡ (a + b) % 2
bit_xor_odd a b = omega (arith, bit_xor_step a b)

bit_xor-assoc_below :
    (n a b c : ℕ) → a ≤ n → b ≤ n → c ≤ n → bit_xor (bit_xor a b) c ≡ bit_xor a (bit_xor b c)
bit_xor-assoc_below zero zero zero zero p q r = refl
bit_xor-assoc_below zero (suc a) b c p q r = absurd (omega arith)
bit_xor-assoc_below zero zero (suc b) c p q r = absurd (omega arith)
bit_xor-assoc_below zero zero zero (suc c) p q r = absurd (omega arith)
bit_xor-assoc_below (suc n) a b c p q r =
    let ih =
      bit_xor-assoc_below n (a / 2) (b / 2) (c / 2) (omega arith) (omega arith) (omega arith) in
    let left : bit_xor (bit_xor a b) c
        ≡ bit_xor (bit_xor (a / 2) (b / 2)) (c / 2) * 2 + (a + b + c) % 2 =
      rw (← bit_xor_half a b) (omega (arith, bit_xor_step (bit_xor a b) c, bit_xor_odd a b)) in
    let right : bit_xor a (bit_xor b c)
        ≡ bit_xor (a / 2) (bit_xor (b / 2) (c / 2)) * 2 + (a + b + c) % 2 =
      rw (← bit_xor_half b c) (omega (arith, bit_xor_step a (bit_xor b c), bit_xor_odd b c)) in
    omega arith

pub bit_xor_assoc : (a b c : ℕ) → bit_xor (bit_xor a b) c ≡ bit_xor a (bit_xor b c)
bit_xor_assoc a b c =
    bit_xor-assoc_below (a + b + c) a b c (omega arith) (omega arith) (omega arith)

bit_xor-comm_below : (n a b : ℕ) → a ≤ n → b ≤ n → bit_xor a b ≡ bit_xor b a
bit_xor-comm_below zero zero zero p q = refl
bit_xor-comm_below zero (suc a) b p q = absurd (omega arith)
bit_xor-comm_below zero zero (suc b) p q = absurd (omega arith)
bit_xor-comm_below (suc n) a b p q = omega (
  arith,
  bit_xor_step a b,
  bit_xor_step b a,
  bit_xor-comm_below n (a / 2) (b / 2) (omega arith) (omega arith),
)

pub bit_xor_comm : (a b : ℕ) → bit_xor a b ≡ bit_xor b a
bit_xor_comm a b = bit_xor-comm_below (a + b) a b (omega arith) (omega arith)

bit_xor-self_below : (n a : ℕ) → a ≤ n → bit_xor a a ≡ 0
bit_xor-self_below zero zero p = refl
bit_xor-self_below zero (suc a) p = absurd (omega arith)
bit_xor-self_below (suc n) a p =
    omega (arith, bit_xor_step a a, bit_xor-self_below n (a / 2) (omega arith))

pub bit_xor_self : (a : ℕ) → bit_xor a a ≡ 0
bit_xor_self a = bit_xor-self_below a a (omega arith)

pub bit_xor-zero : (a : ℕ) → bit_xor a 0 ≡ a
bit_xor-zero a = rw (bit_xor_comm a 0) (bit_xor-bitwise 0 a)

-- Twice the same mask changes nothing.
pub bit_xor_twice : (a m : ℕ) → bit_xor (bit_xor a m) m ≡ a
bit_xor_twice a m = rw (bit_xor_assoc a m m, bit_xor_self m) (bit_xor-zero a)

pub bit_and-zero_left : (b : ℕ) → bit_and 0 b ≡ 0
bit_and-zero_left b = bit_and-bitwise 0 b

bit_and-zero_below : (n a : ℕ) → a ≤ n → bit_and a 0 ≡ 0
bit_and-zero_below zero zero p = refl
bit_and-zero_below zero (suc a) p = absurd (omega arith)
bit_and-zero_below (suc n) a p =
    omega (arith, bit_and_step a 0, bit_and-zero_below n (a / 2) (omega arith))

pub bit_and-zero : (a : ℕ) → bit_and a 0 ≡ 0
bit_and-zero a = bit_and-zero_below a a (omega arith)

div-one : (a : ℕ) → a / 2 ^ 0 ≡ a
div-one a = omega arith

div-pow-suc : (a k : ℕ) → a / 2 ^ suc k ≡ a / 2 / 2 ^ k
div-pow-suc a k = rw div-div-eq-div-mul (ap (λ (t : ℕ). a / t) (omega (arith, pow-suc 2 k)))

-- Division by a power of two in two steps.
pub div-pow_add : (a d v : ℕ) → v / 2 ^ (a + d) ≡ v / 2 ^ a / 2 ^ d
div-pow_add zero d v =
    let e : 0 + d ≡ d = omega arith in
    ap (λ (k : ℕ). v / 2 ^ k) e ∙ ap (λ (w : ℕ). w / 2 ^ d) (sym (div-one v))
div-pow_add (suc a) d v =
    let e : suc a + d ≡ suc (a + d) = omega arith in
    ap (λ (k : ℕ). v / 2 ^ k) e
    ∙ div-pow-suc v (a + d)
    ∙ div-pow_add a d (v / 2)
    ∙ ap (λ (w : ℕ). w / 2 ^ d) (sym (div-pow-suc v a))

-- A mask of ones, one digit at a time.
bit_and-ones : (a m k : ℕ) → k ≡ m * 2 + 1 → bit_and a k ≡ bit_and (a / 2) m * 2 + a % 2
bit_and-ones a m k e =
    let half : k / 2 ≡ m = omega arith in rw (← half) (omega (arith, bit_and_step a k))

bit_and_one : (a : ℕ) → bit_and a 1 ≡ a % 2
bit_and_one a = omega (arith, bit_and-ones a 0 1 refl, bit_and-zero (a / 2))

bit_and_three : (a : ℕ) → bit_and a 3 ≡ a % 4
bit_and_three a = omega (arith, bit_and-ones a 1 3 refl, bit_and_one (a / 2))

bit_and_nibble : (a : ℕ) → bit_and a 15 ≡ a % 16
bit_and_nibble a =
    omega
      (arith, bit_and-ones a 7 15 refl, bit_and-ones (a / 2) 3 7 refl, bit_and_three (a / 2 / 2))

-- `a & 0xff`.
pub bit_and_byte : (a : ℕ) → bit_and a 255 ≡ a % 256
bit_and_byte a = omega (
  arith,
  bit_and-ones a 127 255 refl,
  bit_and-ones (a / 2) 63 127 refl,
  bit_and-ones (a / 2 / 2) 31 63 refl,
  bit_and-ones (a / 2 / 2 / 2) 15 31 refl,
  bit_and_nibble (a / 2 / 2 / 2 / 2),
)

pub two-pow-suc : (a k : ℕ) → a * 2 ^ suc k ≡ a * 2 ^ k * 2
two-pow-suc a k = omega (arith, ap (λ (t : ℕ). a * t) (pow-suc 2 k))

-- Exclusive or goes under a shift to the right.
pub bit_xor-shift : (k a b : ℕ) → bit_xor a b / 2 ^ k ≡ bit_xor (a / 2 ^ k) (b / 2 ^ k)
bit_xor-shift zero a b = rw (div-one, div-one, div-one)
bit_xor-shift (suc k) a b =
    rw (div-pow-suc, div-pow-suc, div-pow-suc, bit_xor_half) (bit_xor-shift k (a / 2) (b / 2))

pub bit_xor_fields : (k q r : ℕ) → r < 2 ^ k → bit_xor (q * 2 ^ k) r ≡ q * 2 ^ k + r
bit_xor_fields zero q r h = let none : r ≡ 0 = omega arith in rw (none, bit_xor-zero) (omega arith)
bit_xor_fields (suc k) q r h =
    let half : q * 2 ^ suc k / 2 ≡ q * 2 ^ k = omega (arith, two-pow-suc q k) in
    let ih = bit_xor_fields k q (r / 2) (omega (arith, pow-suc 2 k)) in
    let step : bit_xor (q * 2 ^ suc k) r
        ≡ bit_xor (q * 2 ^ k) (r / 2) * 2 + (q * 2 ^ suc k + r) % 2 =
      rw (← half) (bit_xor_step (q * 2 ^ suc k) r) in
    omega (arith, two-pow-suc q k)

pub bit_xor-lt : (k a b : ℕ) → a < 2 ^ k → b < 2 ^ k → bit_xor a b < 2 ^ k
bit_xor-lt zero a b p q =
    let na : a ≡ 0 = omega arith in let nb : b ≡ 0 = omega arith in rw (na, nb) (omega arith)
bit_xor-lt (suc k) a b p q = omega (
  arith,
  bit_xor_step a b,
  pow-suc 2 k,
  bit_xor-lt k (a / 2) (b / 2) (omega (arith, pow-suc 2 k)) (omega (arith, pow-suc 2 k)),
)
