-- ===== src/Radix/Chain.antt =====
-- All matches of an address, in the order in which the way back up of src/std_radix.c meets them, and
-- the results of the search for the first of them.
use sonic_common_utils.Base.{
  ℕ, suc, ◌+◌, ◌-◌, ◌≤◌, ◌<◌, ◌≡◌, ◌≢◌, ◌⊎◌, refl, ap, ◌∙◌, inl, inr, true, false, some, List, [],
  ◌∷◌, ◌++◌, All, arith,
}
use sonic_common_utils.Base.Distinct.{All-append}
use sonic_common_utils.Radix.{RtTable}
use sonic_common_utils.Radix.Lookup.{seek_bit, matches, match_up}
use sonic_common_utils.Radix.Shape.{AllNodes, InTree}
use sonic_common_utils.Radix.Candidate.{Candidate}
use sonic_common_utils.Radix.Steps.{up_found, up_next}
use sonic_common_utils.Rbtree.Shape.{Tree, depth}

abbrev pub InList : ℕ → List ℕ → Type 0
InList x [] = ⊥
InList x (y ∷ ys) = (x ≡ y) ⊎ InList x ys

pub InList-front : (x : ℕ) (ys zs : List ℕ) → InList x ys → InList x (ys ++ zs)
InList-front x [] zs h = absurd h
InList-front x (y ∷ ys) zs (inl e) = inl e
InList-front x (y ∷ ys) zs (inr h) = inr (InList-front x ys zs h)

pub InList-last : (x : ℕ) (ys : List ℕ) → InList x (ys ++ (x ∷ []))
InList-last x [] = inl refl
InList-last x (y ∷ ys) = inr (InList-last x ys)

module _ (s : RtTable) where
  -- Bit numbers fall along the list.
  abbrev pub Falling : List ℕ → Type 0
  Falling [] = Unit
  Falling (x ∷ xs) = All (λ y. s.rtn_bit y < s.rtn_bit x) xs × Falling xs

  pub Falling-last :
      (a : ℕ) (xs : List ℕ)
      → All (λ x. s.rtn_bit a < s.rtn_bit x) xs
      → Falling xs
      → Falling (xs ++ (a ∷ []))
  Falling-last a [] h f = (tt, tt)
  Falling-last a (x ∷ xs) h f = (
    All-append (λ y. s.rtn_bit y < s.rtn_bit x) xs (a ∷ []) f.0 (h.0, tt),
    Falling-last a xs h.1 f.1,
  )

-- The list is that of all nodes of the tree that the address matches, the longest key in front.
pub record Matches (s : RtTable) (addr : ℕ → ℕ) (bitlen : ℕ) (t : Tree) (xs : List ℕ) : Type 0 where
  pub falling : Falling s xs
  pub sound : All (λ x. InTree x t × Candidate s addr bitlen x) xs
  pub complete : AllNodes (λ m. Candidate s addr bitlen m → InList m xs) t

module _ (s : RtTable) (addr : ℕ → ℕ) (bitlen : ℕ) where
  -- The way up from `node` meets the nodes of the list, and then goes on at `par`; `d` bounds the
  -- rounds from one to the next.
  abbrev pub Climbs : (d node par : ℕ) → List ℕ → Type 0
  Climbs d node par [] =
      (k : ℕ) × (k ≤ d)
      × ((fuel : ℕ) → match_up (fuel + k) s addr bitlen node ≡ match_up fuel s addr bitlen par)
  Climbs d node par (x ∷ xs) =
      (k : ℕ) × (k ≤ d)
      × ((fuel : ℕ) → match_up (fuel + k) s addr bitlen node ≡ some x)
      × Climbs d (s.rtn_parent x) par xs

  one_more : (fuel k : ℕ) → fuel + suc k ≡ suc fuel + k
  one_more fuel k = omega arith

  module _ (a par d : ℕ) (ne : a ≢ 0) (above : s.rtn_parent a ≡ par) where
    -- The node `a` is passed over,
    pub way_past :
        (node : ℕ) (xs : List ℕ)
        → matches s addr bitlen a ≡ false
        → Climbs d node a xs
        → Climbs (suc d) node par xs
    way_past node [] e (k, few, run) = (
      suc k,
      omega arith,
      (λ fuel.
          ap (λ f. match_up f s addr bitlen node) (one_more fuel k)
          ∙ run (suc fuel)
          ∙ up_next s addr bitlen a ne fuel e
          ∙ ap (match_up fuel s addr bitlen) above),
    )
    way_past node (x ∷ xs) e (k, few, run, rest) =
        (k, omega arith, run, way_past (s.rtn_parent x) xs e rest)

    -- or it is the last match below `par`.
    pub way_last :
        (node : ℕ) (xs : List ℕ)
        → matches s addr bitlen a ≡ true
        → Climbs d node a xs
        → Climbs (suc d) node par (xs ++ (a ∷ []))
    way_last node [] e (k, few, run) = (
      suc k,
      omega arith,
      (λ fuel.
          ap (λ f. match_up f s addr bitlen node) (one_more fuel k)
          ∙ run (suc fuel)
          ∙ up_found s addr bitlen a ne fuel e),
      (
        0,
        omega arith,
        (λ fuel.
            ap (λ f. match_up f s addr bitlen (s.rtn_parent a)) (omega arith)
            ∙ ap (match_up fuel s addr bitlen) above),
      ),
    )
    way_last node (x ∷ xs) e (k, few, run, rest) =
        (k, omega arith, run, way_last (s.rtn_parent x) xs e rest)

  pub way_more :
      (d d' node par : ℕ) (xs : List ℕ) → d ≤ d' → Climbs d node par xs → Climbs d' node par xs
  way_more d d' node par [] h (k, few, run) = (k, omega arith, run)
  way_more d d' node par (x ∷ xs) h (k, few, run, rest) =
      (k, omega arith, run, way_more d d' (s.rtn_parent x) par xs h rest)

-- What the search down from a place finds, and the way back up to it.
pub record Chain (s : RtTable) (addr : ℕ → ℕ) (bitlen fuel par p : ℕ) (t : Tree) : Type 0 where
  pub node : ℕ
  pub nodes : List ℕ
  pub seeks : seek_bit fuel s addr bitlen p ≡ some node
  pub climbs : Climbs s addr bitlen (depth t) node par nodes
  pub matched : Matches s addr bitlen t nodes
  pub ends_in : InTree node t
  pub exact : AllNodes (λ m. Candidate s addr bitlen m → s.rtn_bit m ≡ bitlen → m ≡ node) t

-- The first of the list and what is behind it, null and the empty list where there is none.
abbrev pub first_of : List ℕ → ℕ
first_of [] = 0
first_of (x ∷ xs) = x

abbrev pub behind : List ℕ → List ℕ
behind [] = []
behind (x ∷ xs) = xs

module _ (s : RtTable) (addr : ℕ → ℕ) (bitlen : ℕ) where
  pub way_first :
      (d fuel node : ℕ) (xs : List ℕ)
      → d < fuel
      → Climbs s addr bitlen d node 0 xs
      → match_up fuel s addr bitlen node ≡ some (first_of xs)
  unfolding match_up
  way_first d fuel node [] h (k, few, run) =
      let split : (f : ℕ) × (fuel ≡ suc f + k) = (fuel - k - 1, omega arith) in
      ap (λ f. match_up f s addr bitlen node) split.1 ∙ run (suc split.0)
  way_first d fuel node (x ∷ xs) h (k, few, run, rest) =
      let split : (f : ℕ) × (fuel ≡ f + k) = (fuel - k, omega arith) in
      ap (λ f. match_up f s addr bitlen node) split.1 ∙ run split.0
