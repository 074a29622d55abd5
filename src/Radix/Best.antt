-- ===== src/Radix/Best.antt =====
-- `std_radix_getbest` and `std_radix_getexact` of src/std_radix.c find what the keys say.
use mathlib.Core.Option
use sonic_common_utils.Base.{
  ℕ, ◌≤◌, ◌<◌, ◌≡◌, ◌≢◌, ◌⊎◌, refl, sym, inl, inr, subst, List, [], ◌∷◌, All, false, some, arith,
  ◌==◌, ==→eq, ==→ne, Bool-cases, if◌then◌else◌,
}
use sonic_common_utils.Radix.{RtTable}
use sonic_common_utils.Radix.Lookup.{searched, is_live, too_long, best_node, std_radix_getbest}
use sonic_common_utils.Radix.Shape.{
  Linked, AllNodes, AllNodes-mono, InTree, IsTrie, Linked-not_null, no_nodes,
}
use sonic_common_utils.Radix.Candidate.{Candidate}
use sonic_common_utils.Radix.Chain.{InList, Matches, first_of, way_first}
use sonic_common_utils.Radix.Chained.{seek-Chain}
use sonic_common_utils.Rbtree.Shape.{Tree, depth}

-- The node `x` of the tree is the longest match of an address, or null where nothing matches.
abbrev pub Longest : RtTable → (addr : ℕ → ℕ) → (bitlen : ℕ) → Tree → (x : ℕ) → Type 0
Longest s addr bitlen t x =
    ((x ≡ 0) × AllNodes (λ m. ¬ (Candidate s addr bitlen m)) t)
    ⊎ ((x ≢ 0)
        × InTree x t
        × Candidate s addr bitlen x
        × AllNodes (λ m. Candidate s addr bitlen m → s.rtn_bit m ≤ s.rtn_bit x) t)

InList-All : (P : ℕ → Type 0) (x : ℕ) (xs : List ℕ) → All P xs → InList x xs → P x
InList-All P x [] h i = absurd i
InList-All P x (y ∷ ys) h (inl e) = subst P (sym e) h.0
InList-All P x (y ∷ ys) h (inr i) = InList-All P x ys h.1 i

-- The first of the matches is the longest.
first-Longest :
    (s : RtTable) (addr : ℕ → ℕ) (bitlen p : ℕ) (t : Tree) (xs : List ℕ)
    → Linked s 0 p t
    → Matches s addr bitlen t xs
    → Longest s addr bitlen t (first_of xs)
first-Longest s addr bitlen p t [] h m = inl (refl, AllNodes-mono _ _ t (λ x w c. w c) m.complete)
first-Longest s addr bitlen p t (x ∷ xs) h m =
    let lower : (y : ℕ) → InList y (x ∷ xs) → s.rtn_bit y ≤ s.rtn_bit x = λ y i. elim i [
      | inl e ↦ subst (λ z. s.rtn_bit z ≤ s.rtn_bit x) (sym e) (omega arith)
      | inr i ↦ let w = InList-All _ y xs m.falling.0 i in omega arith
    ] in
    inr (
      Linked-not_null s 0 p x t h m.sound.0.0,
      m.sound.0.0,
      m.sound.0.1,
      AllNodes-mono _ _ t (λ y w c. lower y (w c)) m.complete,
    )

module _ (s : RtTable) (t : Tree) (trie : IsTrie s t) (addr : ℕ → ℕ) (bitlen fuel : ℕ)
    (enough : depth t < fuel) where
  -- The node that `best_node` finds, on a table with a root and on an empty one.
  best_from_root :
      ((i : ℕ) → searched s addr i < 256)
      → (x : ℕ) × (best_node fuel s addr bitlen ≡ some x) × Longest s (searched s addr) bitlen t x
  unfolding best_node Option.bind
  best_from_root bytes = elim (Bool-cases (s.rtt_root == 0)) [
    | inl e ↦
        (0, rw e refl, inl (refl, no_nodes _ s 0 s.rtt_root t (==→eq s.rtt_root 0 e) trie.linked))
    | inr e ↦
        let w =
          seek-Chain s (searched s addr) bitlen trie.is_bytes bytes fuel 0 s.rtt_root t
            (omega arith) trie.linked trie.ordered (==→ne s.rtt_root 0 e) in
        let up =
          way_first s (searched s addr) bitlen (depth t) fuel w.node w.nodes enough w.climbs in
        (
          first_of w.nodes,
          rw (e, w.seeks) up,
          first-Longest s (searched s addr) bitlen s.rtt_root t w.nodes trie.linked w.matched,
        )
  ]

  -- On a table whose nodes make a trie of keys in bytes, with an address in bytes that is not longer
  -- than the debug check allows and more fuel than nodes on the longest way down, `std_radix_getbest`
  -- ends. It returns the entry of the node with the longest key that is a prefix of the address and
  -- not longer than `bitlen`, or null, if there is no such node or the node is marked as deleted.
  pub std_radix_getbest-Longest :
      ((i : ℕ) → searched s addr i < 256)
      → too_long s bitlen ≡ false
      → (x : ℕ) × (std_radix_getbest fuel s (some addr) bitlen
          ≡ some (if is_live s x then s.rtn_rth x else 0))
        × Longest s (searched s addr) bitlen t x
  unfolding std_radix_getbest
  std_radix_getbest-Longest bytes fits =
      let (x, e, l) = best_from_root bytes in (x, rw (fits, e) refl, l)
