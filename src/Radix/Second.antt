-- ===== src/Radix/Second.antt =====
-- `std_radix_getbest`, `std_radix_getbestandprev` and `std_radix_getnextbest` of src/std_radix.c
-- against one list of matches.
use mathlib.Core.Option
use sonic_common_utils.Base.{
  ℕ, ◌<◌, ◌≡◌, refl, ap, Bool, inl, inr, true, false, some, none, Option, List, [], ◌∷◌, arith,
  ◌==◌, ==→eq, ==→ne, Bool-cases, if◌then◌else◌,
}
use sonic_common_utils.Radix.{RtTable}
use sonic_common_utils.Radix.Lookup.{
  searched, match_up, is_live, too_long, best_node, second_best, std_radix_getbest,
  std_radix_getbestandprev, std_radix_getnextbest,
}
use sonic_common_utils.Radix.Shape.{IsTrie, no_nodes}
use sonic_common_utils.Radix.Chain.{Matches, Climbs, first_of, behind, way_first}
use sonic_common_utils.Radix.Chained.{seek-Chain}
use sonic_common_utils.Rbtree.Shape.{Tree, depth}

-- The entry that a node stands for, null for no node and for one that is marked as deleted.
abbrev pub entry_of : RtTable → ℕ → ℕ
entry_of s x = if is_live s x then s.rtn_rth x else 0

-- The three lookups return the entries of the first and of the second match; none of them looks
-- past a first match that is marked as deleted.
abbrev pub Ranked : RtTable → (fuel : ℕ) → (addr : ℕ → ℕ) → (bitlen : ℕ) → (nodes : List ℕ) → Type 0
Ranked s fuel addr bitlen nodes =
    let best = first_of nodes in
    let second = entry_of s (first_of (behind nodes)) in
    (std_radix_getbest fuel s (some addr) bitlen ≡ some (entry_of s best))
    × (std_radix_getnextbest fuel s (some addr) bitlen
        ≡ some (if is_live s best then second else 0))
    × (std_radix_getbestandprev fuel s (some addr) bitlen
        ≡ some (
            if s.rtt_root == 0
            then (0, none)
            else if is_live s best
            then (s.rtn_rth best, some second)
            else (0, some 0)))

next_by :
    (b : Bool) (m : Option ℕ) (v : ℕ)
    → (b ≡ true → m ≡ some v)
    → (if b then m else some 0) ≡ some (if b then v else 0)
next_by true m v f = f refl
next_by false m v f = refl

both_by :
    (b : Bool) (m : Option ℕ) (h v : ℕ)
    → (b ≡ true → m ≡ some v)
    → (if b then Option.map {B = ℕ × Option ℕ} (λ less. (h, some less)) m else some (0, some 0))
      ≡ some (if b then (h, some v) else (0, some 0))
both_by true m h v f = ap (Option.map {B = ℕ × Option ℕ} (λ less. (h, some less))) (f refl)
both_by false m h v f = refl

module _ (s : RtTable) (addr : ℕ → ℕ) (bitlen : ℕ) where
  way_second :
      (d fuel node : ℕ) (xs : List ℕ)
      → d < fuel
      → Climbs s addr bitlen d node 0 xs
      → is_live s (first_of xs) ≡ true
      → match_up fuel s addr bitlen (s.rtn_parent (first_of xs)) ≡ some (first_of (behind xs))
  way_second d fuel node [] h c e = absurd (cc)
  way_second d fuel node (x ∷ xs) h (k, few, run, rest) e =
      way_first s addr bitlen d fuel (s.rtn_parent x) xs h rest

module _ (s : RtTable) (t : Tree) (trie : IsTrie s t) (addr : ℕ → ℕ) (bitlen fuel : ℕ)
    (enough : depth t < fuel) (fits : too_long s bitlen ≡ false) where
  second_by :
      (xs : List ℕ)
      → match_up fuel s (searched s addr) bitlen (s.rtn_parent (first_of xs))
        ≡ some (first_of (behind xs))
      → second_best fuel s addr bitlen (first_of xs) ≡ some (entry_of s (first_of (behind xs)))
  unfolding second_best
  second_by xs e = ap (Option.map (entry_of s)) e

  lookups_by :
      (xs : List ℕ)
      → (s.rtt_root == 0) ≡ false
      → best_node fuel s addr bitlen ≡ some (first_of xs)
      → (is_live s (first_of xs) ≡ true
          → match_up fuel s (searched s addr) bitlen (s.rtn_parent (first_of xs))
            ≡ some (first_of (behind xs)))
      → Ranked s fuel addr bitlen xs
  unfolding std_radix_getbest std_radix_getbestandprev std_radix_getnextbest Option.bind
  lookups_by xs root e up =
      let second = second_best fuel s addr bitlen (first_of xs) in
      let value = entry_of s (first_of (behind xs)) in
      let live = is_live s (first_of xs) in
      let found : live ≡ true → second ≡ some value = λ l. second_by xs (up l) in
      (
        rw (fits, e) refl,
        rw (fits, e) (next_by live second value found),
        rw (fits, e, root) (both_by live second (s.rtn_rth (first_of xs)) value found),
      )

  lookups_empty : (s.rtt_root == 0) ≡ true → Ranked s fuel addr bitlen []
  unfolding std_radix_getbest std_radix_getbestandprev std_radix_getnextbest best_node Option.bind
  lookups_empty e = (rw (fits, e) refl, rw (fits, e) refl, rw (fits, e) refl)

  -- On a table whose nodes make a trie of keys in bytes, with an address in bytes that is not longer
  -- than the debug check allows and more fuel than nodes on the longest way down, there is a list of
  -- all nodes whose keys are prefixes of the address and not longer than `bitlen`, with the longest
  -- in front, by which the three lookups end and answer: `std_radix_getbest` returns the entry of the
  -- first node, `std_radix_getnextbest` that of the second, and `std_radix_getbestandprev` both, each
  -- null for a node that is marked as deleted or not there. If the first is marked as deleted, they
  -- do not return the second either. On an empty table `std_radix_getbestandprev` leaves its second
  -- result unwritten.
  pub std_radix_getbestandprev-Ranked :
      ((i : ℕ) → searched s addr i < 256)
      → (nodes : List ℕ) × Matches s (searched s addr) bitlen t nodes
        × Ranked s fuel addr bitlen nodes
  unfolding best_node Option.bind
  std_radix_getbestandprev-Ranked bytes = elim (Bool-cases (s.rtt_root == 0)) [
    | inl e ↦
        let empty = no_nodes _ s 0 s.rtt_root t (==→eq s.rtt_root 0 e) trie.linked in
        ([], record { falling = tt; sound = tt; complete = empty }, lookups_empty e)
    | inr e ↦
        let w =
          seek-Chain s (searched s addr) bitlen trie.is_bytes bytes fuel 0 s.rtt_root t
            (omega arith) trie.linked trie.ordered (==→ne s.rtt_root 0 e) in
        let up =
          way_first s (searched s addr) bitlen (depth t) fuel w.node w.nodes enough w.climbs in
        (
          w.nodes,
          w.matched,
          lookups_by w.nodes e (rw (e, w.seeks) up)
              (way_second s (searched s addr) bitlen (depth t) fuel w.node w.nodes enough w.climbs),
        )
  ]
