-- ===== src/Ip/Compare.antt =====
-- Comparisons of addresses in src/std_ip_utils.c.
use sonic_common_utils.Base.Int.{ℤ, is_zero}
use sonic_common_utils.Base.Memory.{memcmp, memcmp_same, memcmp_of_same}
use sonic_common_utils.Base.{
  ℕ, zero, suc, ◌+◌, ◌-◌, ◌%◌, ◌^◌, ◌<◌, ◌≡◌, ◌≢◌, refl, sym, ap, ◌∙◌, ◌↔◌, inl, inr, true, false,
  arith, ◌==◌, ==→eq, ==→ne, ==_refl, ne→==, ltb, Bool-cases,
}
use sonic_common_utils.Ip.{IpAddr, addr_len, std_ip_cmp_ip_addr}

module _ (af_inet af_inet6 : ℕ) (a b : IpAddr) where
  cmp_same_family :
      a.af_index ≡ b.af_index
      → std_ip_cmp_ip_addr af_inet af_inet6 a b
        ≡ memcmp (addr_len af_inet af_inet6 a.af_index) a.u b.u
  unfolding std_ip_cmp_ip_addr
  cmp_same_family e =
      let same : (a.af_index == b.af_index) ≡ true = rw e (==_refl b.af_index) in rw same

  cmp_other_family :
      a.af_index < 2 ^ 32
      → b.af_index < 2 ^ 32
      → a.af_index ≢ b.af_index
      → is_zero (std_ip_cmp_ip_addr af_inet af_inet6 a b) ≡ false
  unfolding std_ip_cmp_ip_addr
  cmp_other_family h k ne =
      elim (Bool-cases (ltb ((a.af_index + 2 ^ 32 - b.af_index) % 2 ^ 32) (2 ^ 31))) [
        | inl e ↦
            rw (ne→== a.af_index b.af_index ne, e)
              (pos_not_zero ((a.af_index + 2 ^ 32 - b.af_index) % 2 ^ 32) (omega arith))
        | inr e ↦ rw (ne→== a.af_index b.af_index ne, e)
      ]
    where
      pos_not_zero : (n : ℕ) → n ≢ 0 → is_zero (ℤ.pos n) ≡ false
      pos_not_zero zero q = absurd (q refl)
      pos_not_zero (suc n) q = refl

  -- `std_ip_cmp_ip_addr` returns 0 exactly for addresses of one family whose bytes, as many as the
  -- family has, are the same.
  pub std_ip_cmp_ip_addr-same :
      a.af_index < 2 ^ 32
      → b.af_index < 2 ^ 32
      → (is_zero (std_ip_cmp_ip_addr af_inet af_inet6 a b) ≡ true) ↔ (
          (a.af_index ≡ b.af_index)
          × ((i : ℕ) → i < addr_len af_inet af_inet6 a.af_index → a.u i ≡ b.u i))
  std_ip_cmp_ip_addr-same h k = (
    λ e. elim (Bool-cases (a.af_index == b.af_index)) [
      | inl same ↦
          let eq = ==→eq a.af_index b.af_index same in
          (
            eq,
            memcmp_same (addr_len af_inet af_inet6 a.af_index) a.u b.u
                (ap is_zero (sym (cmp_same_family eq)) ∙ e),
          )
      | inr other ↦ let no = cmp_other_family h k (==→ne a.af_index b.af_index other) in cc
    ],
    λ e.
        ap is_zero (cmp_same_family e.0)
        ∙ memcmp_of_same (addr_len af_inet af_inet6 a.af_index) a.u b.u e.1,
  )
