-- ===== src/Radix/Steps.antt =====
-- Single rounds of the searches down and up in src/std_radix.c.
use sonic_common_utils.Base.{
  ℕ, suc, ◌≤◌, ◌<◌, ◌≡◌, ◌≢◌, refl, ap, ◌∙◌, true, false, some, ◌==◌, ne→==, ge→ltb, lt→ltb,
  if◌then◌else◌,
}
use sonic_common_utils.Radix.{RtTable, rnbyte, rnbit, bit_test}
use sonic_common_utils.Radix.Lookup.{branch_for, seek_bit, matches, match_up}
use sonic_common_utils.Radix.Shape.{bit_at}

module _ (s : RtTable) (addr : ℕ → ℕ) (bitlen : ℕ) where
  module _ (a : ℕ) (ne : a ≢ 0) (fuel : ℕ) where
    pub up_found : matches s addr bitlen a ≡ true → match_up (suc fuel) s addr bitlen a ≡ some a
    unfolding match_up
    up_found e = rw (ne→== a 0 ne, e, match_up) refl

    pub up_next :
        matches s addr bitlen a ≡ false
        → match_up (suc fuel) s addr bitlen a ≡ match_up fuel s addr bitlen (s.rtn_parent a)
    unfolding match_up
    up_next e = rw (ne→== a 0 ne, e, match_up) refl

    pub down_stop : bitlen ≤ s.rtn_bit a → seek_bit (suc fuel) s addr bitlen a ≡ some a
    unfolding seek_bit
    down_stop h = rw (ne→== a 0 ne, ge→ltb (s.rtn_bit a) bitlen h, seek_bit) refl

    pub down_missing :
        s.rtn_bit a < bitlen
        → branch_for s addr a ≡ 0
        → seek_bit (suc fuel) s addr bitlen a ≡ some a
    unfolding seek_bit
    down_missing h e =
        rw (ne→== a 0 ne, lt→ltb (s.rtn_bit a) bitlen h, ap (λ c. c == 0) e, seek_bit) refl

    pub down_child :
        (c : ℕ)
        → s.rtn_bit a < bitlen
        → branch_for s addr a ≡ c
        → c ≢ 0
        → seek_bit (suc fuel) s addr bitlen a ≡ seek_bit fuel s addr bitlen c
    unfolding seek_bit
    down_child c h e n =
        let there : (branch_for s addr a == 0) ≡ false = ap (λ c. c == 0) e ∙ ne→== c 0 n in
        rw (ne→== a 0 ne, lt→ltb (s.rtn_bit a) bitlen h, there, seek_bit)
          (ap (seek_bit fuel s addr bitlen) e)

  pub goes_right :
      (a : ℕ)
      → s.rtn_tbit a ≡ rnbit (s.rtn_bit a)
      → bit_at addr (s.rtn_bit a) ≡ true
      → branch_for s addr a ≡ s.rtn_right a
  goes_right a t e =
      let b = ap (bit_test (addr (rnbyte (s.rtn_bit a)))) t ∙ e in
      ap (λ c. if c then s.rtn_right a else s.rtn_left a) b

  pub goes_left :
      (a : ℕ)
      → s.rtn_tbit a ≡ rnbit (s.rtn_bit a)
      → bit_at addr (s.rtn_bit a) ≡ false
      → branch_for s addr a ≡ s.rtn_left a
  goes_left a t e =
      let b = ap (bit_test (addr (rnbyte (s.rtn_bit a)))) t ∙ e in
      ap (λ c. if c then s.rtn_right a else s.rtn_left a) b
