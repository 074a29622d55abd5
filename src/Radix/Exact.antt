-- ===== src/Radix/Exact.antt =====
-- `std_radix_getexact` of src/std_radix.c finds the entry with the address.
use mathlib.Core.Option
use sonic_common_utils.Base.{
  ℕ, ◌<◌, ◌≡◌, ◌≢◌, ◌⊎◌, refl, sym, ap, ◌∙◌, subst, inl, inr, true, false, some, arith, ◌==◌, ==→eq,
  ==→ne, Bool-cases, if◌then◌else◌,
}
use sonic_common_utils.Radix.{RtTable, rnbit}
use sonic_common_utils.Radix.Lookup.{searched, matches, too_long, exact_at, std_radix_getexact}
use sonic_common_utils.Radix.Shape.{
  Linked, AllNodes, AllNodes-at, AllNodes-mono, InTree, Ordered, IsTrie, Linked-not_null, no_nodes,
}
use sonic_common_utils.Radix.Candidate.{Candidate, matches-Candidate, Candidate-matches}
use sonic_common_utils.Radix.Chain.{Chain}
use sonic_common_utils.Radix.Chained.{seek-Chain}
use sonic_common_utils.Rbtree.Shape.{Tree, leaf, branch, depth}

-- The entry `rth` is that of the node with the address, or null where there is none that is not marked as deleted.
abbrev pub Exact : RtTable → (addr : ℕ → ℕ) → (bitlen : ℕ) → Tree → (rth : ℕ) → Type 0
Exact s addr bitlen t rth =
    ((rth ≡ 0)
      × AllNodes (λ m. Candidate s addr bitlen m → s.rtn_bit m ≡ bitlen → s.rtn_dele m ≡ true) t)
    ⊎ ((m : ℕ) × InTree m t
        × Candidate s addr bitlen m
        × (s.rtn_bit m ≡ bitlen)
        × (s.rtn_dele m ≡ false)
        × (rth ≡ s.rtn_rth m))

own_bits :
    (s : RtTable) (t : Tree) → Ordered s t → AllNodes (λ a. s.rtn_tbit a ≡ rnbit (s.rtn_bit a)) t
own_bits s leaf o = tt
own_bits s (branch l a r) o = (own_bits s l o.3, o.0, own_bits s r o.4)

module _ (s : RtTable) (addr : ℕ → ℕ) (bitlen rtn : ℕ) (ne : rtn ≢ 0) where
  exact_hit :
      s.rtn_bit rtn ≡ bitlen
      → matches s addr bitlen rtn ≡ true
      → s.rtn_dele rtn ≡ false
      → exact_at s addr bitlen rtn ≡ s.rtn_rth rtn
  unfolding exact_at matches
  exact_hit e m d = ground arith

  exact_dele : s.rtn_dele rtn ≡ true → exact_at s addr bitlen rtn ≡ 0
  unfolding exact_at matches
  exact_dele d = ground arith

  exact_miss : matches s addr bitlen rtn ≡ false → exact_at s addr bitlen rtn ≡ 0
  unfolding exact_at matches
  exact_miss m = ground arith

  exact_other : s.rtn_bit rtn ≢ bitlen → exact_at s addr bitlen rtn ≡ 0
  unfolding exact_at
  exact_other n = ground arith

module _ (s : RtTable) (addr : ℕ → ℕ) (bitlen : ℕ) (own_bytes : (p i : ℕ) → s.bytes p i < 256)
    (addr_bytes : (i : ℕ) → addr i < 256) (fuel p : ℕ) (t : Tree) (linked : Linked s 0 p t)
    (ordered : Ordered s t) (w : Chain s addr bitlen fuel 0 p t) where
  -- A node with the address is the one where the search down ends.
  only_node :
      (P : ℕ → Type 0)
      → (Candidate s addr bitlen w.node → s.rtn_bit w.node ≡ bitlen → P w.node)
      → AllNodes (λ m. Candidate s addr bitlen m → s.rtn_bit m ≡ bitlen → P m) t
  only_node P h =
      AllNodes-mono _ _ t
        (λ m f c e.
          let q = f c e in
          subst P (sym q) (h (subst (Candidate s addr bitlen) q c) (ap s.rtn_bit (sym q) ∙ e)))
        w.exact

  found_from_root : Exact s addr bitlen t (exact_at s addr bitlen w.node)
  found_from_root =
      let ne = Linked-not_null s 0 p w.node t linked w.ends_in in
      let own = AllNodes-at _ w.node t (own_bits s t ordered) w.ends_in in
      elim (Bool-cases (s.rtn_dele w.node)) [
        | inl d ↦ inl (exact_dele s addr bitlen w.node ne d, only_node _ (λ c e. d))
        | inr d ↦ elim (Bool-cases (matches s addr bitlen w.node)) [
          | inr m ↦ inl (
            exact_miss s addr bitlen w.node ne m,
            only_node _ (λ c e.
                let f = Candidate-matches s addr bitlen own_bytes addr_bytes w.node own c in
                absurd (cc)),
          )
          | inl m ↦ elim (Bool-cases (s.rtn_bit w.node == bitlen)) [
            | inl b ↦
                let e = ==→eq (s.rtn_bit w.node) bitlen b in
                inr (
                  w.node,
                  w.ends_in,
                  matches-Candidate s addr bitlen own_bytes addr_bytes w.node own m,
                  e,
                  d,
                  exact_hit s addr bitlen w.node ne e m d,
                )
            | inr b ↦
                let n = ==→ne (s.rtn_bit w.node) bitlen b in
                inl (exact_other s addr bitlen w.node ne n, only_node _ (λ c e. absurd (n e)))
          ]
        ]
      ]

-- The bytes that are compared: the address is converted in the debug block alone.
abbrev pub compared : RtTable → (addr : ℕ → ℕ) → ℕ → ℕ
compared s addr = if s.rtt_debug then searched s addr else addr

module _ (s : RtTable) (t : Tree) (trie : IsTrie s t) (addr : ℕ → ℕ) (bitlen fuel : ℕ)
    (enough : depth t < fuel) where
  -- On a table whose nodes make a trie of keys in bytes, with an address in bytes that is not longer
  -- than the debug check allows and more fuel than nodes on the longest way down, `std_radix_getexact`
  -- ends. It returns the entry of a node that has the address for its key and is not marked as
  -- deleted, or null, if there is no such node.
  pub std_radix_getexact-Exact :
      ((i : ℕ) → compared s addr i < 256)
      → too_long s bitlen ≡ false
      → (rth : ℕ) × (std_radix_getexact fuel s addr bitlen ≡ some rth)
        × Exact s (compared s addr) bitlen t rth
  unfolding std_radix_getexact
  std_radix_getexact-Exact bytes fits = elim (Bool-cases (s.rtt_root == 0)) [
    | inl e ↦ (
      0,
      rw (fits, e) refl,
      inl (refl, no_nodes _ s 0 s.rtt_root t (==→eq s.rtt_root 0 e) trie.linked),
    )
    | inr e ↦
        let w =
          seek-Chain s (compared s addr) bitlen trie.is_bytes bytes fuel 0 s.rtt_root t
            (omega arith) trie.linked trie.ordered (==→ne s.rtt_root 0 e) in
        (
          exact_at s (compared s addr) bitlen w.node,
          rw (fits, e) (ap (Option.map (exact_at s (compared s addr) bitlen)) w.seeks),
          found_from_root s (compared s addr) bitlen trie.is_bytes bytes fuel s.rtt_root t
              trie.linked trie.ordered w,
        )
  ]
