-- ===== src/BitMask/Macros.antt =====
-- The bit array macros of sonic/std_bit_masks.h, and `std_complement_bitmaparray` and the creation of
-- arrays of src/std_bit_masks.c.
use native.Mathlib.Decide.{ℕ_discrete}
use mathlib.Core.Path.{fun_ext}
use sonic_common_utils.Base.{
  ℕ, zero, suc, ◌+◌, ◌-◌, ◌*◌, ◌/◌, ◌%◌, ◌^◌, ◌<◌, ◌≡◌, refl, ◌∙◌, inl, inr, Bool, true, false, not,
  arith, ◌==◌, ==→eq, ==→ne, leb, ltb, ◌&&◌, if◌then◌else◌, Bool-cases, put, put_self, put_ne,
}
use sonic_common_utils.BitMask.{
  bittobytelen, complement_loop, std_complement_bitmaparray, bit_array_set, bit_array_clr,
  bit_array_test,
}
use sonic_common_utils.BitMask.Bytes.{digit, set_digit, clr_digit, test_digit, flip_digit}
use sonic_common_utils.BitMask.Search.{bit_at, IsBytes, bytes_for}

bit_array_test-bit_at :
    (name : ℕ → ℕ) → IsBytes name → (i : ℕ) → bit_array_test name i ≡ bit_at name i
unfolding bit_array_test bit_at
bit_array_test-bit_at name bytes i = test_digit (name (i / 8)) (i % 8) (bytes (i / 8)) (omega arith)

module _ (name : ℕ → ℕ) (bytes : IsBytes name) where
  put-IsBytes : (i v : ℕ) → v < 256 → IsBytes (put name i v)
  put-IsBytes i v h j = elim (ℕ_discrete i j) [
    | yes e ↦ rw (e, put_self name j v) h
    | no ne ↦ rw (put_ne name i v j ne) (bytes j)
  ]

  same_bit : (i j : ℕ) → i / 8 ≡ j / 8 → (i % 8 == j % 8) ≡ (i == j)
  same_bit i j e = ground arith

  bit_at-put :
      (i j v : ℕ)
      → bit_at (put name (i / 8) v) j ≡ (if i / 8 == j / 8 then digit v (j % 8) else bit_at name j)
  unfolding bit_at
  bit_at-put i j v = elim (Bool-cases (i / 8 == j / 8)) [
    | inl e ↦ let same = ==→eq (i / 8) (j / 8) e in rw (e, same, put_self name (j / 8) v)
    | inr e ↦ rw (e, put_ne name (i / 8) v (j / 8) (==→ne (i / 8) (j / 8) e))
  ]

  set-IsBytes : (i : ℕ) → IsBytes (bit_array_set name i)
  unfolding bit_array_set
  set-IsBytes i = put-IsBytes (i / 8) _ (omega arith)

  clr-IsBytes : (i : ℕ) → IsBytes (bit_array_clr name i)
  unfolding bit_array_clr
  clr-IsBytes i = put-IsBytes (i / 8) _ (omega arith)

  other_bit : (i j : ℕ) → (i / 8 == j / 8) ≡ false → (i == j) ≡ false
  other_bit i j e = ground arith

  -- A write that makes bit `i` of its byte `c` and keeps the others.
  write-bit_at :
      (i j v : ℕ) (c : Bool)
      → digit v (j % 8) ≡ (if i % 8 == j % 8 then c else digit (name (i / 8)) (j % 8))
      → bit_at (put name (i / 8) v) j ≡ (if i == j then c else bit_at name j)
  unfolding bit_at
  write-bit_at i j v c h = elim (Bool-cases (i / 8 == j / 8)) [
    | inl e ↦
        let same = ==→eq (i / 8) (j / 8) e in bit_at-put i j v ∙ rw (e, h, same_bit i j same, same)
    | inr e ↦ bit_at-put i j v ∙ rw (e, other_bit i j e)
  ]

  set-bit_at :
      (i j : ℕ) → bit_at (bit_array_set name i) j ≡ (if i == j then true else bit_at name j)
  unfolding bit_array_set
  set-bit_at i j =
      write-bit_at i j _ true
        (set_digit (name (i / 8)) (i % 8) (j % 8) (bytes (i / 8)) (omega arith) (omega arith))

  clr-bit_at :
      (i j : ℕ) → bit_at (bit_array_clr name i) j ≡ (if i == j then false else bit_at name j)
  unfolding bit_array_clr
  clr-bit_at i j =
      write-bit_at i j _ false
        (clr_digit (name (i / 8)) (i % 8) (j % 8) (bytes (i / 8)) (omega arith) (omega arith))

  -- After `STD_BIT_ARRAY_SET` of bit `i` of an array of bytes, `STD_BIT_ARRAY_TEST` finds bit `i` set
  -- and every other bit as it was.
  pub test-set :
      (i j : ℕ)
      → bit_array_test (bit_array_set name i) j ≡ (if i == j then true else bit_array_test name j)
  test-set i j =
      rw
        (
          bit_array_test-bit_at (bit_array_set name i) (set-IsBytes i) j,
          bit_array_test-bit_at name bytes j,
        )
        (set-bit_at i j)

  -- After `STD_BIT_ARRAY_CLR` of bit `i` of an array of bytes, `STD_BIT_ARRAY_TEST` finds bit `i`
  -- clear and every other bit as it was.
  test-clr :
      (i j : ℕ)
      → bit_array_test (bit_array_clr name i) j ≡ (if i == j then false else bit_array_test name j)
  test-clr i j =
      rw
        (
          bit_array_test-bit_at (bit_array_clr name i) (clr-IsBytes i) j,
          bit_array_test-bit_at name bytes j,
        )
        (clr-bit_at i j)

-- The loop complements the bytes of its range and no other.
complement_loop_at :
    (n ix : ℕ) (bits : ℕ → ℕ) (j : ℕ)
    → complement_loop n ix bits j ≡ (if leb ix j && ltb j (ix + n) then 255 - bits j else bits j)
unfolding complement_loop put
complement_loop_at zero ix bits j = ground arith
complement_loop_at (suc n) ix bits j =
    complement_loop_at n (ix + 1) (put bits ix (255 - bits ix)) j ∙ ground arith

complement_at :
    (bits : ℕ → ℕ) (mx j : ℕ)
    → std_complement_bitmaparray bits mx j
      ≡ (if ltb j (bittobytelen mx) then 255 - bits j else bits j)
unfolding std_complement_bitmaparray
complement_at bits mx j = complement_loop_at (bittobytelen mx) 0 bits j ∙ ground arith

byte_in_range : (mx i : ℕ) → mx < 2 ^ 32 → ltb (i / 8) (bittobytelen mx) ≡ ltb i (bytes_for mx * 8)
unfolding bittobytelen
byte_in_range mx i h = let fits : mx % 2 ^ 32 ≡ mx = omega arith in rw fits (ground arith)

complement-bit_at :
    (bits : ℕ → ℕ) (mx i : ℕ)
    → IsBytes bits
    → mx < 2 ^ 32
    → bit_at (std_complement_bitmaparray bits mx) i
      ≡ (if ltb i (bytes_for mx * 8) then not (bit_at bits i) else bit_at bits i)
unfolding bit_at
complement-bit_at bits mx i bytes h =
    rw (complement_at bits mx (i / 8), byte_in_range mx i h)
      (elim (Bool-cases (ltb i (bytes_for mx * 8))) [
        | inl e ↦ rw e (flip_digit (bits (i / 8)) (i % 8) (bytes (i / 8)) (omega arith))
        | inr e ↦ rw e refl
      ])

-- `std_complement_bitmaparray` on an array of bytes flips the bits of the bytes that hold its first
-- `mx` bits, for `mx` below 2 ^ 32, and no other bit.
pub test-complement :
    (bits : ℕ → ℕ) (mx i : ℕ)
    → IsBytes bits
    → mx < 2 ^ 32
    → bit_array_test (std_complement_bitmaparray bits mx) i
      ≡ (if ltb i (bytes_for mx * 8) then not (bit_array_test bits i) else bit_array_test bits i)
test-complement bits mx i bytes h =
    rw
      (
        bit_array_test-bit_at (std_complement_bitmaparray bits mx) flipped i,
        bit_array_test-bit_at bits bytes i,
      )
      at_bit
  where
    flipped : IsBytes (std_complement_bitmaparray bits mx)
    flipped j = rw (complement_at bits mx j) (ground (arith, bytes j))

    at_bit :
        bit_at (std_complement_bitmaparray bits mx) i
        ≡ (if ltb i (bytes_for mx * 8) then not (bit_at bits i) else bit_at bits i)
    at_bit = complement-bit_at bits mx i bytes h

-- Complementing an array of bytes twice gives it back.
complement-complement :
    (bits : ℕ → ℕ) (mx : ℕ)
    → IsBytes bits
    → std_complement_bitmaparray (std_complement_bitmaparray bits mx) mx ≡ bits
complement-complement bits mx bytes = fun_ext λ j.
    complement_at (std_complement_bitmaparray bits mx) mx j
    ∙ rw (complement_at bits mx j) (ground (arith, bytes j))
