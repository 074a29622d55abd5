-- ===== src/BitMask/SearchBack.antt =====
-- `std_find_last_bit` of src/std_bit_masks.c: which bit it finds.
use sonic_common_utils.Base.{
  ℕ, zero, suc, ◌+◌, ◌-◌, ◌*◌, ◌%◌, ◌^◌, ◌≤◌, ◌<◌, ◌≡◌, ◌≢◌, refl, sym, subst, lt→ltb, ◌∙◌, true,
  false, inl, inr, Option, none, some, arith, ◌==◌, lt→leb, ==→eq, ==→ne, Bool-cases,
}
use sonic_common_utils.BitMask.{
  std_find_last_bit8, last_loop, last_from, std_find_last_bit, last_result, last_by,
}
use sonic_common_utils.Base.Int.{ℤ, pos, negsuc, to_int_fits}
use sonic_common_utils.BitMask.Bytes.{last8_none, last8_some, last8_after, nonzero, zero_digit}
use sonic_common_utils.BitMask.Search.{
  bit_at, IsBytes, Clear, bytes_for, Clear-byte, Clear-join, bit_in_byte, bit_of_byte,
}

-- The answer of a search for the last set bit below `end`.
abbrev pub IsLast : (ℕ → ℕ) → ℕ → Option ℕ → Type 0
IsLast array end none = Clear array 0 end
IsLast array end (some r) = (r < end) × (bit_at array r ≡ true) × Clear array (r + 1) end

-- The same of an `int`, where -1 stands for none.
abbrev pub IsLastInt : (ℕ → ℕ) → ℕ → ℤ → Type 0
IsLastInt array end (pos r) = IsLast array end (some r)
IsLastInt array end (negsuc zero) = IsLast array end none
IsLastInt array end (negsuc (suc n)) = ⊥

module _ (array : ℕ → ℕ) (bytes : IsBytes array) where
  -- What `std_find_last_bit8` finds in byte `mx`.
  byte-IsLast :
      (mx from : ℕ)
      → from < 8
      → std_find_last_bit8 (array mx) from ≢ 0
      → IsLast array (mx * 8 + 8) (some (std_find_last_bit8 (array mx) from - 1 + mx * 8))
  byte-IsLast mx from h ne =
      let s = last8_some (array mx) from (bytes mx) h ne in
      let p = std_find_last_bit8 (array mx) from in
      (
        omega arith,
        bit_of_byte array bytes mx (p - 1) (omega arith) ∙ s.1,
        λ i q r.
            bit_in_byte array bytes i mx (omega arith)
            ∙ last8_after (array mx) from (bytes mx) h (i % 8) ne (omega arith) (omega arith),
      )

  IsLast-extend :
      (mid end : ℕ) (r : Option ℕ)
      → mid ≤ end
      → Clear array mid end
      → IsLast array mid r
      → IsLast array end r
  IsLast-extend mid end none h c f = Clear-join array bytes 0 mid end f c
  IsLast-extend mid end (some r) h c f =
      (omega arith, f.1, Clear-join array bytes (r + 1) mid end f.2 c)

  last_loop-IsLast : (mx : ℕ) → IsLast array (mx * 8) (last_loop array mx)
  unfolding last_loop
  last_loop-IsLast zero = λ i p q. absurd (omega arith)
  last_loop-IsLast (suc mx) = elim (Bool-cases (array mx == 0)) [
    | inl none_set ↦ rw none_set (
        IsLast-extend (mx * 8) (suc mx * 8) (last_loop array mx) (omega arith)
          (λ i p q.
            bit_in_byte array bytes i mx (omega arith)
            ∙ rw (==→eq (array mx) 0 none_set) (zero_digit (i % 8)))
          (last_loop-IsLast mx))
    | inr some_set ↦
        let top : mx * 8 + 8 ≡ suc mx * 8 = omega arith in
        rw some_set (
          rw top at (
            byte-IsLast mx 0 (omega arith)
              (nonzero (array mx) (bytes mx) (==→ne (array mx) 0 some_set)).1))
  ]

  last_from-IsLast :
      (mx bit : ℕ) → bit < 8 → IsLast array (suc mx * 8) (last_from array (suc mx) bit)
  unfolding last_from
  last_from-IsLast mx bit h =
      let top : mx * 8 + 8 ≡ suc mx * 8 = omega arith in
      let down : suc mx - 1 ≡ mx = omega arith in
      let whole : mx + 1 ≡ suc mx = omega arith in
      let some_bytes : (suc mx == 0) ≡ false = ground arith in
      rw (down, whole, some_bytes)
        (elim (Bool-cases (bit == 0)) [
          | inl e ↦ rw e (last_loop-IsLast (suc mx))
          | inr e ↦ elim (Bool-cases (std_find_last_bit8 (array mx) bit == 0)) [
            | inl none_set ↦
                let above = Clear-byte array bytes mx 0 λ k p q.
                  last8_none (array mx) bit (bytes mx) h
                    (==→eq (std_find_last_bit8 (array mx) bit) 0 none_set) k q in
                let rest =
                  IsLast-extend (mx * 8) (suc mx * 8) (last_loop array mx) (omega arith)
                    (λ i p q. above i (omega arith) (omega arith)) (last_loop-IsLast mx) in
                rw (e, none_set)
                  (elim (Bool-cases (mx == 0)) [
                    | inl first ↦
                        rw first (λ i p q. above i (omega (arith, ==→eq mx 0 first)) (omega arith))
                    | inr more ↦ rw more rest
                  ])
            | inr some_set ↦
                rw (e, some_set)
                  (rw top at
                    (byte-IsLast mx bit h (==→ne (std_find_last_bit8 (array mx) bit) 0 some_set)))
          ]
        ])

  last_result-IsLastInt :
      (end : ℕ) (r : Option ℕ)
      → end ≤ 2 ^ 31
      → IsLast array end r
      → (v : ℤ) × (last_result r ≡ some v) × IsLastInt array end v
  unfolding last_result
  last_result-IsLastInt end none h f = (negsuc 0, refl, f)
  last_result-IsLastInt end (some r) h f = (pos r, rw (lt→ltb r (2 ^ 31) (omega arith)) refl, f)

  -- For `from` below `len`, with `len - from` at most 2 ^ 31, the behaviour of `std_find_last_bit` is
  -- defined, and it returns the last set bit, and -1 exactly when there is none, among all the bits of the
  -- bytes that hold the first `len - from` bits: it counts `from` from the end of the array, and
  -- rounds up to a byte. The position that it returns counts from the begin.
  pub std_find_last_bit-IsLast :
      (len from : ℕ)
      → from < len
      → len - from ≤ 2 ^ 31
      → (v : ℤ) × (std_find_last_bit array len from ≡ some v)
        × IsLastInt array (bytes_for (len - from) * 8) v
  unfolding std_find_last_bit last_by
  std_find_last_bit-IsLast len from h fits =
      let bytes = bytes_for (len - from) in
      let rest = (len - from) % 8 in
      let some_bytes : bytes ≡ suc (bytes - 1) = ground arith in
      let found : IsLast array (bytes * 8) (last_from array bytes rest) =
        subst (λ n. IsLast array (n * 8) (last_from array n rest)) (sym some_bytes)
          (last_from-IsLast (bytes - 1) rest (omega arith)) in
      let (v, e, last) =
        last_result-IsLastInt (bytes * 8) (last_from array bytes rest) (ground arith) found in
      (v, rw (lt→leb len from h, to_int_fits bytes (ground arith)) e, last)
