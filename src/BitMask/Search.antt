-- ===== src/BitMask/Search.antt =====
-- `std_find_first_bit` of src/std_bit_masks.c: which bit it finds.
use sonic_common_utils.Base.{
  ℕ, zero, suc, ◌+◌, ◌-◌, ◌*◌, ◌/◌, ◌%◌, ◌^◌, ◌≤◌, ◌<◌, ◌≡◌, ◌≢◌, sym, subst, ◌∙◌, Bool, true,
  false, inl, inr, Option, none, some, arith, ◌==◌, ltb, lt→leb, ltb→lt, ltb→ge, ==→eq, ==→ne,
  if◌then◌else◌, Bool-cases,
}
use sonic_common_utils.BitMask.{std_find_first_bit8, first_loop, std_find_first_bit, first_position}
use sonic_common_utils.Base.Int.{ℤ, pos, negsuc, to_int, to_int_fits}
use sonic_common_utils.BitMask.Bytes.{
  digit, first8_none, first8_some, first8_before, nonzero, zero_digit,
}

-- Bit `i` of an array.
unfoldable pub bit_at : (ℕ → ℕ) → ℕ → Bool
bit_at array i = digit (array (i / 8)) (i % 8)

abbrev pub IsBytes : (ℕ → ℕ) → Type 0
IsBytes array = (i : ℕ) → array i < 256

-- No bit is set from `from` up to `end`.
abbrev pub Clear : (ℕ → ℕ) → ℕ → ℕ → Type 0
Clear array from end = (i : ℕ) → from ≤ i → i < end → bit_at array i ≡ false

-- The answer of a search for the first set bit in a range: a set bit with none before it, or none.
abbrev pub IsFirst : (ℕ → ℕ) → ℕ → ℕ → Option ℕ → Type 0
IsFirst array from end none = Clear array from end
IsFirst array from end (some r) =
    (from ≤ r) × (r < end) × (bit_at array r ≡ true) × Clear array from r

-- The same of an `int`, where -1 stands for none.
abbrev pub IsFirstInt : (ℕ → ℕ) → ℕ → ℕ → ℤ → Type 0
IsFirstInt array from end (pos r) = IsFirst array from end (some r)
IsFirstInt array from end (negsuc zero) = IsFirst array from end none
IsFirstInt array from end (negsuc (suc n)) = ⊥

-- The number of bytes that hold `len` bits.
abbrev pub bytes_for : ℕ → ℕ
bytes_for len = len / 8 + (if len % 8 == 0 then 0 else 1)

module _ (array : ℕ → ℕ) (bytes : IsBytes array) where
  pub Clear-byte :
      (ix from : ℕ)
      → ((k : ℕ) → from ≤ k → k < 8 → digit (array ix) k ≡ false)
      → Clear array (from + ix * 8) (ix * 8 + 8)
  unfolding bit_at
  Clear-byte ix from h i p q =
      let same : i / 8 ≡ ix = omega arith in rw same (h (i % 8) (omega arith) (omega arith))

  pub Clear-join :
      (from mid end : ℕ) → Clear array from mid → Clear array mid end → Clear array from end
  Clear-join from mid end h k i p q = elim (Bool-cases (ltb i mid)) [
    | inl e ↦ h i p (ground arith)
    | inr e ↦ k i (ground arith) q
  ]

  IsFirst-extend :
      (from mid end : ℕ) (r : Option ℕ)
      → from ≤ mid
      → Clear array from mid
      → IsFirst array mid end r
      → IsFirst array from end r
  IsFirst-extend from mid end none h c f = Clear-join from mid end c f
  IsFirst-extend from mid end (some r) h c f = (omega arith, f.1, f.2, Clear-join from mid r c f.3)

  pub bit_in_byte : (i ix : ℕ) → i / 8 ≡ ix → bit_at array i ≡ digit (array ix) (i % 8)
  unfolding bit_at
  bit_in_byte i ix e = rw e

  pub bit_of_byte : (ix k : ℕ) → k < 8 → bit_at array (k + ix * 8) ≡ digit (array ix) k
  unfolding bit_at
  bit_of_byte ix k h =
      let quot : (k + ix * 8) / 8 ≡ ix = omega arith in
      let rem : (k + ix * 8) % 8 ≡ k = omega arith in rw (quot, rem)

  -- What `std_find_first_bit8` finds in byte `ix` from bit `from` on.
  byte-IsFirst :
      (ix from end : ℕ)
      → from < 8
      → ix * 8 + 8 ≤ end
      → std_find_first_bit8 (array ix) from ≢ 0
      → IsFirst array (from + ix * 8) end (some (std_find_first_bit8 (array ix) from - 1 + ix * 8))
  byte-IsFirst ix from end h e ne =
      let s = first8_some (array ix) from (bytes ix) h ne in
      let p = std_find_first_bit8 (array ix) from in
      (omega arith, omega arith, bit_of_byte ix (p - 1) (omega arith) ∙ s.2, before)
    where
      before : Clear array (from + ix * 8) (std_find_first_bit8 (array ix) from - 1 + ix * 8)
      before i q r =
          bit_in_byte i ix (omega (arith, first8_some (array ix) from (bytes ix) h ne))
          ∙ first8_before (array ix) from (bytes ix) h (i % 8)
              (omega (arith, first8_some (array ix) from (bytes ix) h ne))
              (omega (arith, first8_some (array ix) from (bytes ix) h ne)) (omega arith)

  first_loop-IsFirst :
      (fuel ix mx : ℕ)
      → mx ≤ fuel + ix
      → IsFirst array (ix * 8) (mx * 8) (first_loop fuel array ix mx)
  unfolding first_loop
  first_loop-IsFirst zero ix mx h = λ i p q. absurd (omega arith)
  first_loop-IsFirst (suc fuel) ix mx h = elim (Bool-cases (ltb ix mx)) [
    | inr e ↦ rw (e, first_loop) (λ i p q. absurd (omega (arith, ltb→ge ix mx e)))
    | inl e ↦ elim (Bool-cases (array ix == 0)) [
      | inl none_set ↦
          rw (e, none_set, first_loop)
            (IsFirst-extend (ix * 8) ((ix + 1) * 8) (mx * 8) (first_loop fuel array (ix + 1) mx)
              (omega arith)
              (λ i p q.
                bit_in_byte i ix (omega arith)
                ∙ rw (==→eq (array ix) 0 none_set) (zero_digit (i % 8)))
              (first_loop-IsFirst fuel (ix + 1) mx (omega arith)))
      | inr some_set ↦
          rw (e, some_set, first_loop)
            (let start : 0 + ix * 8 ≡ ix * 8 = omega arith in
              rw start at (
                byte-IsFirst ix 0 (mx * 8) (omega arith) (omega (arith, ltb→lt ix mx e))
                  (nonzero (array ix) (bytes ix) (==→ne (array ix) 0 some_set)).0))
    ]
  ]

  first_position-IsFirst :
      (len from : ℕ)
      → from < len
      → IsFirst array from (bytes_for len * 8) (first_position array len from)
  unfolding first_position
  first_position-IsFirst len from h =
      let ix = from / 8 in
      let bit = from % 8 in
      let mx = bytes_for len in
      let start : bit + ix * 8 ≡ from = omega arith in
      let room : ix * 8 + 8 ≤ mx * 8 = ground arith in
      rw (lt→leb len from h) (elim (Bool-cases (bit == 0)) [
        | inl e ↦
            let aligned : ix * 8 ≡ from = omega (arith, ==→eq bit 0 e) in
            rw e (rw aligned at (first_loop-IsFirst mx ix mx (omega arith)))
        | inr e ↦ elim (Bool-cases (std_find_first_bit8 (array ix) bit == 0)) [
          | inl none_set ↦
              rw (e, none_set)
                (IsFirst-extend from ((ix + 1) * 8) (mx * 8) _ (omega arith)
                  (λ i p q.
                    Clear-byte ix bit
                      (first8_none (array ix) bit (bytes ix) (omega arith)
                        (==→eq (std_find_first_bit8 (array ix) bit) 0 none_set))
                      i (omega arith) (omega arith))
                  (first_loop-IsFirst mx (ix + 1) mx (omega arith)))
          | inr some_set ↦
              rw (e, some_set)
                (rw start at (
                  byte-IsFirst ix bit (mx * 8) (omega arith) room
                    (==→ne (std_find_first_bit8 (array ix) bit) 0 some_set)))
        ]
      ])

  returned-IsFirstInt :
      (from end : ℕ) (r : Option ℕ)
      → end ≤ 2 ^ 31
      → IsFirst array from end r
      → IsFirstInt array from end (elim r [ none ↦ negsuc 0 | some position ↦ to_int position ])
  returned-IsFirstInt from end none h f = f
  returned-IsFirstInt from end (some r) h f =
      subst (IsFirstInt array from end) (sym (to_int_fits r (omega arith))) f

  -- In an array of at most 2 ^ 31 bits, from a position below `len`, `std_find_first_bit` returns the
  -- first set bit at or after it, and -1 exactly when there is none, among all the bits of the bytes
  -- that hold `len` bits.
  pub std_find_first_bit-IsFirst :
      (len from : ℕ)
      → from < len
      → len ≤ 2 ^ 31
      → IsFirstInt array from (bytes_for len * 8) (std_find_first_bit array len from)
  unfolding std_find_first_bit
  std_find_first_bit-IsFirst len from h fits =
      returned-IsFirstInt from (bytes_for len * 8) (first_position array len from) (ground arith)
        (first_position-IsFirst len from h)
