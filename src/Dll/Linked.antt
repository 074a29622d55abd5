-- ===== src/Dll/Linked.antt =====
-- When the links of src/std_llist.c stand for a list of nodes.
use sonic_common_utils.Base.{ℕ, ◌≡◌, ◌≢◌, ◌∙◌, List, [], ◌∷◌, ◌++◌, All}
use sonic_common_utils.Dll.{Links, Head}
use sonic_common_utils.Base.Distinct.{Distinct}

-- Each of `nodes` is linked with the one behind it, both ways.
abbrev pub Linked : Links → List ℕ → Type 0
Linked s [] = Unit
Linked s (a ∷ []) = Unit
Linked s (a ∷ b ∷ nodes) = (s.next a ≡ b) × (s.back b ≡ a) × Linked s (b ∷ nodes)

-- The nodes of a list, sentinels included.
abbrev pub all_nodes : Head → List ℕ → List ℕ
all_nodes d xs = d.head ∷ (xs ++ (d.tail ∷ []))

-- The list of `d` holds the nodes `xs`, in this order; nodes and sentinels are distinct and not null.
pub record IsList (d : Head) (s : Links) (xs : List ℕ) : Type 0 where
  pub linked : Linked s (all_nodes d xs)
  pub distinct : Distinct (all_nodes d xs)
  pub not_null : All (λ x. x ≢ 0) (all_nodes d xs)

-- Links that are the same at the nodes of a chain leave it a chain.
pub Linked-frame :
    (s s' : Links) (a : ℕ) (nodes : List ℕ)
    → All (λ x. s'.next x ≡ s.next x) (a ∷ nodes)
    → All (λ x. s'.back x ≡ s.back x) nodes
    → Linked s (a ∷ nodes)
    → Linked s' (a ∷ nodes)
Linked-frame s s' a [] n b l = tt
Linked-frame s s' a (x ∷ nodes) n b l =
    (n.0 ∙ l.0, b.0 ∙ l.1, Linked-frame s s' x nodes n.1 b.1 l.2)

-- Two neighbours anywhere in a chain.
pub Linked-neighbours :
    (s : Links) (before : List ℕ) (y z : ℕ) (after : List ℕ)
    → Linked s (before ++ (y ∷ z ∷ after))
    → (s.next y ≡ z) × (s.back z ≡ y)
Linked-neighbours s [] y z after l = (l.0, l.1)
Linked-neighbours s (a ∷ []) y z after l = (l.2.0, l.2.1)
Linked-neighbours s (a ∷ b ∷ before) y z after l = Linked-neighbours s (b ∷ before) y z after l.2
