-- ===== src/Radix/Chained.antt =====
-- The search down of src/std_radix.c ends below all matches of an address.
use sonic_common_utils.Base.{
  ℕ, zero, suc, ◌≤◌, ◌<◌, ◌≡◌, ◌≢◌, refl, sym, ap, ◌∙◌, subst, inl, inr, Bool, true, false, not,
  some, List, [], ◌∷◌, ◌++◌, All, arith, ◌==◌, ==→eq, ==→ne, leb, leb→le, leb→gt, Bool-cases,
}
use sonic_common_utils.Base.Distinct.{All-append, All-mono}
use sonic_common_utils.Radix.{RtTable, rnbit}
use sonic_common_utils.Radix.Lookup.{branch_for, seek_bit, matches, match_up}
use sonic_common_utils.Radix.Shape.{
  Linked, AllNodes, AllNodes-at, AllNodes-mono, InTree, bit_at, Side, Ordered, no_nodes,
}
use sonic_common_utils.Rbtree.Shape.{Tree, leaf, branch, depth}
use sonic_common_utils.Radix.Candidate.{
  Candidate, matches-Candidate, Candidate-matches, excluded, too_low,
}
use sonic_common_utils.Radix.Steps.{down_stop, down_missing, down_child, goes_right, goes_left}
use sonic_common_utils.Radix.Chain.{
  InList, InList-front, InList-last, Falling, Falling-last, Climbs, way_past, way_last, way_more,
  Chain,
}

module _ (s : RtTable) (addr : ℕ → ℕ) (bitlen : ℕ) (own_bytes : (p i : ℕ) → s.bytes p i < 256)
    (addr_bytes : (i : ℕ) → addr i < 256) where
  abbrev Fits : ℕ → Type 0
  Fits m = Candidate s addr bitlen m

  abbrev NoneIn : Tree → Type 0
  NoneIn t = AllNodes (λ m. ¬ (Fits m)) t

  -- A node with the address itself could only be `x`.
  abbrev OnlyAt : ℕ → Tree → Type 0
  OnlyAt x t = AllNodes (λ m. Fits m → s.rtn_bit m ≡ bitlen → m ≡ x) t

  abbrev Covers : List ℕ → Tree → Type 0
  Covers xs t = AllNodes (λ m. Fits m → InList m xs) t

  none-Covers : (xs : List ℕ) (t : Tree) → NoneIn t → Covers xs t
  none-Covers xs t h = AllNodes-mono _ _ t (λ m n c. absurd (n c)) h

  none-OnlyAt : (x : ℕ) (t : Tree) → NoneIn t → OnlyAt x t
  none-OnlyAt x t h = AllNodes-mono _ _ t (λ m n c. absurd (n c)) h

  none_low :
      (a : ℕ) (t : Tree) (b : Bool) → bitlen ≤ s.rtn_bit a → AllNodes (Side s a b) t → NoneIn t
  none_low a t b low h =
      AllNodes-mono _ _ t (λ m w. too_low s addr bitlen own_bytes addr_bytes a m b w low) h

  none_other :
      (a : ℕ) (t : Tree) (b : Bool)
      → bit_at addr (s.rtn_bit a) ≡ not b
      → AllNodes (Side s a b) t
      → NoneIn t
  none_other a t b e h =
      AllNodes-mono _ _ t (λ m w. excluded s addr bitlen own_bytes addr_bytes a m b w e) h

  -- The matches in the trees of `a` are known, and the way up reaches `a` behind them.
  module _ (par a fuel : ℕ) (l r : Tree) (own_bit : s.rtn_tbit a ≡ rnbit (s.rtn_bit a)) (ne : a ≢ 0)
      (above : s.rtn_parent a ≡ par) where
    join :
        (d node : ℕ) (xs : List ℕ)
        → suc d ≤ depth (branch l a r)
        → seek_bit (suc fuel) s addr bitlen a ≡ some node
        → Climbs s addr bitlen d node a xs
        → Falling s xs
        → All (λ x. InTree x (branch l a r) × Fits x × (s.rtn_bit a < s.rtn_bit x)) xs
        → Covers xs l
        → Covers xs r
        → InTree node (branch l a r)
        → OnlyAt node (branch l a r)
        → Chain s addr bitlen (suc fuel) par a (branch l a r)
    join d node xs few e up falls sound in_l in_r ends_in only =
        elim (Bool-cases (matches s addr bitlen a)) [
          | inl m ↦ record {
            node = node;
            nodes = xs ++ (a ∷ []);
            seeks = e;
            ends_in = ends_in;
            exact = only;
            climbs =
                way_more s addr bitlen (suc d) (depth (branch l a r)) node par (xs ++ (a ∷ [])) few
                  (way_last s addr bitlen a par d ne above node xs m up);
            matched = record {
              falling = Falling-last s a xs (All-mono _ _ xs (λ x w. w.2) sound) falls;
              sound = All-append _ xs (a ∷ []) (All-mono _ _ xs (λ x w. (w.0, w.1)) sound) (
                (inr (inl refl), matches-Candidate s addr bitlen own_bytes addr_bytes a own_bit m),
                tt,
              );
              complete = (
                AllNodes-mono _ _ l (λ x w c. InList-front x xs (a ∷ []) (w c)) in_l,
                (λ c. InList-last a xs),
                AllNodes-mono _ _ r (λ x w c. InList-front x xs (a ∷ []) (w c)) in_r,
              );
            };
          }
          | inr m ↦ record {
            node = node;
            nodes = xs;
            seeks = e;
            ends_in = ends_in;
            exact = only;
            climbs =
                way_more s addr bitlen (suc d) (depth (branch l a r)) node par xs few
                  (way_past s addr bitlen a par d ne above node xs m up);
            matched = record {
              falling = falls;
              sound = All-mono _ _ xs (λ x w. (w.0, w.1)) sound;
              complete = (
                in_l,
                (λ c.
                    let w = Candidate-matches s addr bitlen own_bytes addr_bytes a own_bit c in
                    absurd (cc)),
                in_r,
              );
            };
          }
        ]

    at_node :
        seek_bit (suc fuel) s addr bitlen a ≡ some a
        → NoneIn l
        → NoneIn r
        → Chain s addr bitlen (suc fuel) par a (branch l a r)
    unfolding depth
    at_node e none_l none_r =
        join 0 a [] (omega arith) e
          (0, omega arith, (λ n. ap (λ k. match_up k s addr bitlen a) (omega arith))) tt tt
          (none-Covers [] l none_l) (none-Covers [] r none_r) (inr (inl refl))
          (none-OnlyAt a l none_l, (λ c e. refl), none-OnlyAt a r none_r)

    from_left :
        (c : ℕ)
        → s.rtn_bit a < bitlen
        → AllNodes (Side s a false) l
        → NoneIn r
        → seek_bit (suc fuel) s addr bitlen a ≡ seek_bit fuel s addr bitlen c
        → Chain s addr bitlen fuel a c l
        → Chain s addr bitlen (suc fuel) par a (branch l a r)
    unfolding depth
    from_left c short side none_r e f =
        join (depth l) f.node f.nodes (ground arith) (e ∙ f.seeks) f.climbs f.matched.falling
          (All-mono _ _ f.nodes
            (λ x w. (inl w.0, w.1, (AllNodes-at (Side s a false) x l side w.0).0)) f.matched.sound)
          f.matched.complete (none-Covers f.nodes r none_r) (inl f.ends_in)
          (f.exact, (λ c b. absurd (omega arith)), none-OnlyAt f.node r none_r)

    from_right :
        (c : ℕ)
        → s.rtn_bit a < bitlen
        → AllNodes (Side s a true) r
        → NoneIn l
        → seek_bit (suc fuel) s addr bitlen a ≡ seek_bit fuel s addr bitlen c
        → Chain s addr bitlen fuel a c r
        → Chain s addr bitlen (suc fuel) par a (branch l a r)
    unfolding depth
    from_right c short side none_l e f =
        join (depth r) f.node f.nodes (ground arith) (e ∙ f.seeks) f.climbs f.matched.falling
          (All-mono _ _ f.nodes
            (λ x w. (inr (inr w.0), w.1, (AllNodes-at (Side s a true) x r side w.0).0))
            f.matched.sound)
          (none-Covers f.nodes l none_l) f.matched.complete (inr (inr f.ends_in))
          (none-OnlyAt f.node l none_l, (λ c b. absurd (omega arith)), f.exact)

  -- From any node, with fuel for the longest way down.
  pub seek-Chain :
      (fuel par p : ℕ) (t : Tree)
      → depth t ≤ fuel
      → Linked s par p t
      → Ordered s t
      → p ≢ 0
      → Chain s addr bitlen fuel par p t
  unfolding depth
  seek-Chain fuel par p leaf n h o ne = absurd (ne h)
  seek-Chain zero par p (branch l a r) n h o ne = absurd (omega arith)
  seek-Chain (suc fuel) par p (branch l a r) n h o ne =
      subst (λ q. Chain s addr bitlen (suc fuel) par q (branch l a r)) (sym h.0)
        (elim (Bool-cases (leb bitlen (s.rtn_bit a))) [
          | inl e ↦
              let low = leb→le bitlen (s.rtn_bit a) e in
              at_node par a fuel l r o.0 h.1 h.2 (down_stop s addr bitlen a h.1 fuel low)
                (none_low a l false low o.1) (none_low a r true low o.2)
          | inr e ↦
              let high = leb→gt bitlen (s.rtn_bit a) e in
              elim (Bool-cases (bit_at addr (s.rtn_bit a))) [
                | inl b ↦
                    let way : branch_for s addr a ≡ s.rtn_right a =
                      goes_right s addr bitlen a o.0 b in
                    let none_l = none_other a l false b o.1 in
                    elim (Bool-cases (s.rtn_right a == 0)) [
                      | inl z ↦
                          let end = ==→eq (s.rtn_right a) 0 z in
                          at_node par a fuel l r o.0 h.1 h.2
                            (down_missing s addr bitlen a h.1 fuel high (way ∙ end)) none_l
                            (no_nodes _ s a (s.rtn_right a) r end h.4)
                      | inr z ↦
                          let there = ==→ne (s.rtn_right a) 0 z in
                          from_right par a fuel l r o.0 h.1 h.2 (s.rtn_right a) high o.2 none_l
                            (down_child s addr bitlen a h.1 fuel (s.rtn_right a) high way there)
                            (seek-Chain fuel a (s.rtn_right a) r (ground arith) h.4 o.4 there)
                    ]
                | inr b ↦
                    let way : branch_for s addr a ≡ s.rtn_left a =
                      goes_left s addr bitlen a o.0 b in
                    let none_r = none_other a r true b o.2 in
                    elim (Bool-cases (s.rtn_left a == 0)) [
                      | inl z ↦
                          let end = ==→eq (s.rtn_left a) 0 z in
                          at_node par a fuel l r o.0 h.1 h.2
                            (down_missing s addr bitlen a h.1 fuel high (way ∙ end))
                            (no_nodes _ s a (s.rtn_left a) l end h.3) none_r
                      | inr z ↦
                          let there = ==→ne (s.rtn_left a) 0 z in
                          from_left par a fuel l r o.0 h.1 h.2 (s.rtn_left a) high o.1 none_r
                            (down_child s addr bitlen a h.1 fuel (s.rtn_left a) high way there)
                            (seek-Chain fuel a (s.rtn_left a) l (ground arith) h.3 o.3 there)
                    ]
              ]
        ])
