-- ===== src/Radix/Candidate.antt =====
-- Which nodes of the radix tree of src/std_radix.c an address matches.
use sonic_common_utils.Base.{
  ℕ, ◌/◌, ◌≤◌, ◌<◌, ◌≡◌, ◌≢◌, refl, sym, ap, ◌∙◌, Bool, true, false, ◌&&◌, not, arith, ◌==◌, ne→==,
  leb, leb→le, le→leb, ==→ne,
}
use sonic_common_utils.Radix.{RtTable, rnbyte, rnbit, rdx_compare_address}
use sonic_common_utils.Radix.Lookup.{key_of, matches}
use sonic_common_utils.Radix.Shape.{bit_at, Side}
use sonic_common_utils.Radix.Prefix.{
  SamePrefix, compare-SamePrefix, SamePrefix-compare, SamePrefix-bit,
}

all_three : (b c d : Bool) → (b && not c && not d) ≡ true → (b ≡ true) × (c ≡ false) × (d ≡ false)
all_three true false false e = (refl, refl, refl)
all_three true false true e = absurd (cc)
all_three true true d e = absurd (cc)
all_three false c d e = absurd (cc)

not_both : {A : Type 0} (b c d : Bool) → c ≡ not b → c ≡ d → d ≡ b → A
not_both true c d e f g = absurd (cc)
not_both false c d e f g = absurd (cc)

module _ (s : RtTable) (addr : ℕ → ℕ) (bitlen : ℕ) where
  -- The node has an entry that is a prefix of the address and not longer than `bitlen`.
  abbrev pub Candidate : ℕ → Type 0
  Candidate m =
      (s.rtn_bit m ≤ bitlen) × (s.rtn_rth m ≢ 0) × SamePrefix addr (key_of s m) (s.rtn_bit m)

module _ (s : RtTable) (addr : ℕ → ℕ) (bitlen : ℕ) (own_bytes : (p i : ℕ) → s.bytes p i < 256)
    (addr_bytes : (i : ℕ) → addr i < 256) where
  abbrev Fits : ℕ → Type 0
  Fits m = Candidate s addr bitlen m

  module _ (a : ℕ) (own_bit : s.rtn_tbit a ≡ rnbit (s.rtn_bit a)) where
    differs : Bool
    differs = rdx_compare_address addr (key_of s a) (rnbyte (s.rtn_bit a)) (s.rtn_tbit a)

    matches_by :
        matches s addr bitlen a
        ≡ (leb (s.rtn_bit a) bitlen && not (s.rtn_rth a == 0) && not differs)
    unfolding matches differs
    matches_by = refl

    pub matches-Candidate : matches s addr bitlen a ≡ true → Fits a
    unfolding differs
    matches-Candidate e =
        let w =
          all_three (leb (s.rtn_bit a) bitlen) (s.rtn_rth a == 0) differs (sym matches_by ∙ e) in
        (
          leb→le (s.rtn_bit a) bitlen w.0,
          ==→ne (s.rtn_rth a) 0 w.1,
          compare-SamePrefix addr (key_of s a) (s.rtn_bit a) (addr_bytes (s.rtn_bit a / 8))
              (own_bytes (s.rdx_rth_addr (s.rtn_rth a)) (s.rtn_bit a / 8))
              (ap (λ t. rdx_compare_address addr (key_of s a) (rnbyte (s.rtn_bit a)) t)
                  (sym own_bit)
                ∙ w.2),
        )

    pub Candidate-matches : Fits a → matches s addr bitlen a ≡ true
    unfolding differs
    Candidate-matches c =
        let low = le→leb (s.rtn_bit a) bitlen c.0 in
        let there = ne→== (s.rtn_rth a) 0 c.1 in
        let same : differs ≡ false =
          ap (λ t. rdx_compare_address addr (key_of s a) (rnbyte (s.rtn_bit a)) t) own_bit
          ∙ SamePrefix-compare addr (key_of s a) (s.rtn_bit a) (addr_bytes (s.rtn_bit a / 8))
              (own_bytes (s.rdx_rth_addr (s.rtn_rth a)) (s.rtn_bit a / 8)) c.2 in
        matches_by ∙ rw (low, there, same) refl

  -- No candidate stands on the side that the address does not go to.
  pub excluded :
      (a m : ℕ) (b : Bool) → Side s a b m → bit_at addr (s.rtn_bit a) ≡ not b → ¬ (Fits m)
  excluded a m b h e c =
      let same =
        SamePrefix-bit addr (key_of s m) (s.rtn_bit m) (s.rtn_bit a) (addr_bytes (s.rtn_bit a / 8))
          (own_bytes (s.rdx_rth_addr (s.rtn_rth m)) (s.rtn_bit a / 8)) c.2 h.0 in
      let own = h.1 c.1 in
      not_both b (bit_at addr (s.rtn_bit a)) (bit_at (key_of s m) (s.rtn_bit a)) e same own

  pub too_low : (a m : ℕ) (b : Bool) → Side s a b m → bitlen ≤ s.rtn_bit a → ¬ (Fits m)
  too_low a m b h i c = let j = h.0 in let k = c.0 in absurd (omega arith)
