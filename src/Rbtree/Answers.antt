-- ===== src/Rbtree/Answers.antt =====
-- The answer of `_std_rbtree_getexactornext` of src/std_rbtree.c, in a list of nodes.
use mathlib.Core.List.{append_assoc}
use sonic_common_utils.Base.{
  ℕ, ◌≡◌, ◌≢◌, refl, sym, ap, ◌∙◌, subst, ◌⊎◌, inl, inr, true, false, List, [], ◌∷◌, ◌++◌, All,
  ◌==◌, ==_refl, ne→==, Bool-cases,
}
use sonic_common_utils.Base.Int.{ℤ, is_neg, is_zero}
use sonic_common_utils.Base.Distinct.{All-append, All-left, All-right, All-mono, All-at}
use sonic_common_utils.Rbtree.{Table, null_if_nil}
use sonic_common_utils.Rbtree.Order.{head_or, head_or-append}
use sonic_common_utils.Rbtree.Search.{IsCompare, Ordered, Ordered-at}

module _ (cmp : ℕ → ℕ → ℤ) (s : Table) where
  abbrev pub Below : ℕ → ℕ → Type 0
  Below key y = is_neg (cmp key (s.item y)) ≡ true

  abbrev pub Above : ℕ → ℕ → Type 0
  Above key y = is_neg (cmp (s.item y) key) ≡ true

  -- The answer in a list of nodes that `z` follows: a node that is equal to the key, or the node
  -- right behind all that are below the key and in front of all that are above it.
  abbrev pub Nearest : (z key : ℕ) → List ℕ → ℕ → Type 0
  Nearest z key xs r =
      (before : List ℕ) × (after : List ℕ) × (((xs ≡ before ++ (r ∷ after))
          × (is_zero (cmp key (s.item r)) ≡ true))
        ⊎ ((xs ≡ before ++ after)
            × All (Above key) before
            × All (Below key) after
            × (r ≡ head_or after z)))

  module _ (laws : IsCompare cmp) (key : ℕ) where
    Below-behind :
        (a y : ℕ)
        → is_neg (cmp key (s.item a)) ≡ true
        → is_neg (cmp (s.item y) (s.item a)) ≡ false
        → Below key y
    Below-behind a y e o = elim (Bool-cases (is_neg (cmp key (s.item y)))) [
      | inl n ↦ n
      | inr n ↦ let below = laws.between key (s.item a) (s.item y) e n in cc
    ]

    -- The answer for the list of a whole tree, from that for its left or its right part.
    pub Nearest-left :
        (a r z : ℕ) (xs ys : List ℕ)
        → is_neg (cmp key (s.item a)) ≡ true
        → Ordered cmp s (a ∷ ys)
        → Nearest a key xs r
        → Nearest z key (xs ++ (a ∷ ys)) r
    Nearest-left a r z xs ys n o (before, after, b) = elim b [
      | inl (q, w) ↦ (
        before,
        after ++ (a ∷ ys),
        inl (ap (λ zs. zs ++ (a ∷ ys)) q ∙ append_assoc before (r ∷ after) (a ∷ ys), w),
      )
      | inr (q, u, v, w) ↦ (
        before,
        after ++ (a ∷ ys),
        inr (
          ap (λ zs. zs ++ (a ∷ ys)) q ∙ append_assoc before after (a ∷ ys),
          u,
          All-append (Below key) after (a ∷ ys) v
              (n, All-mono _ _ ys (λ y h. Below-behind a y n h) o.0),
          w ∙ sym (head_or-append after ys a z),
        ),
      )
    ]

    pub Nearest-right :
        (a r z : ℕ) (xs ys : List ℕ)
        → All (Above key) (xs ++ (a ∷ []))
        → Nearest z key ys r
        → Nearest z key (xs ++ (a ∷ ys)) r
    Nearest-right a r z xs ys h (before, after, b) = elim b [
      | inl (q, w) ↦ (
        xs ++ (a ∷ before),
        after,
        inl (ap (λ zs. xs ++ (a ∷ zs)) q ∙ sym (append_assoc xs (a ∷ before) (r ∷ after)), w),
      )
      | inr (q, u, v, w) ↦ (
        xs ++ (a ∷ before),
        after,
        inr (
          ap (λ zs. xs ++ (a ∷ zs)) q ∙ sym (append_assoc xs (a ∷ before) after),
          All-append (Above key) xs (a ∷ before) (All-left (Above key) xs (a ∷ []) h)
              ((All-right (Above key) xs (a ∷ []) h).0, u),
          v,
          w,
        ),
      )
    ]

    -- What stands in front of a node above which the key is, and that node, are below the key.
    pub Above-front :
        (a : ℕ) (xs ys : List ℕ)
        → is_zero (cmp key (s.item a)) ≡ false
        → is_neg (cmp key (s.item a)) ≡ false
        → Ordered cmp s (xs ++ (a ∷ ys))
        → All (Above key) (xs ++ (a ∷ []))
    Above-front a xs ys e n o =
        let up = laws.opposite key (s.item a) e n in
        All-append (Above key) xs (a ∷ [])
          (All-mono _ _ xs (λ y h. laws.between (s.item a) key (s.item y) up h)
            (Ordered-at cmp s xs ys a o))
          (up, tt)

    -- The answer with null for the table's own node.
    pub Nearest-null :
        (xs : List ℕ) (r : ℕ)
        → All (λ x. x ≢ s.nil) xs
        → Nearest s.nil key xs r
        → Nearest 0 key xs (null_if_nil s r)
    unfolding null_if_nil
    Nearest-null xs r h (before, after, inl (q, w)) =
        let ne = All-at (λ x. x ≢ s.nil) r before after (subst (All (λ x. x ≢ s.nil)) q h) in
        rw (ne→== r s.nil ne) (before, after, inl (q, w))
    Nearest-null xs r h (before, [], inr (q, u, v, w)) =
        let own : (r == s.nil) ≡ true = rw w (==_refl s.nil) in
        rw own (before, [], inr (q, u, v, refl))
    Nearest-null xs r h (before, y ∷ after, inr (q, u, v, w)) =
        let ne = All-at (λ x. x ≢ s.nil) y before after (subst (All (λ x. x ≢ s.nil)) q h) in
        rw (w, ne→== y s.nil ne) (before, y ∷ after, inr (q, u, v, refl))
