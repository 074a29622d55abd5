-- ===== src/Radix/Shape.antt =====
-- The tree that the pointers of src/std_radix.c stand for, and the order of its keys.
use sonic_common_utils.Base.{ℕ, ◌<◌, ◌≡◌, ◌≢◌, ◌⊎◌, inl, inr, sym, subst, ◌∙◌, Bool, true, false}
use sonic_common_utils.Radix.{RtTable, rnbyte, rnbit, bit_test}
use sonic_common_utils.Radix.Lookup.{key_of}
use sonic_common_utils.Rbtree.Shape.{Tree, leaf, branch}

-- The pointers from `p` on, whose parent is `par`, stand for the tree.
abbrev pub Linked : RtTable → (par p : ℕ) → Tree → Type 0
Linked s par p leaf = p ≡ 0
Linked s par p (branch l a r) =
    (p ≡ a)
    × (a ≢ 0)
    × (s.rtn_parent a ≡ par)
    × Linked s a (s.rtn_left a) l
    × Linked s a (s.rtn_right a) r

-- Every node of the tree has the property, and a node is in the tree.
abbrev pub AllNodes : (ℕ → Type 0) → Tree → Type 0
AllNodes P leaf = Unit
AllNodes P (branch l a r) = AllNodes P l × P a × AllNodes P r

abbrev pub InTree : ℕ → Tree → Type 0
InTree x leaf = ⊥
InTree x (branch l a r) = InTree x l ⊎ ((x ≡ a) ⊎ InTree x r)

pub AllNodes-at : (P : ℕ → Type 0) (x : ℕ) (t : Tree) → AllNodes P t → InTree x t → P x
AllNodes-at P x leaf h i = absurd i
AllNodes-at P x (branch l a r) h (inl i) = AllNodes-at P x l h.0 i
AllNodes-at P x (branch l a r) h (inr (inl e)) = subst P (sym e) h.1
AllNodes-at P x (branch l a r) h (inr (inr i)) = AllNodes-at P x r h.2 i

pub AllNodes-mono :
    (P Q : ℕ → Type 0) (t : Tree) → ((x : ℕ) → P x → Q x) → AllNodes P t → AllNodes Q t
AllNodes-mono P Q leaf f h = tt
AllNodes-mono P Q (branch l a r) f h =
    (AllNodes-mono P Q l f h.0, f a h.1, AllNodes-mono P Q r f h.2)

pub Linked-not_null : (s : RtTable) (par p x : ℕ) (t : Tree) → Linked s par p t → InTree x t → x ≢ 0
Linked-not_null s par p x leaf h i = absurd i
Linked-not_null s par p x (branch l a r) h (inl i) = Linked-not_null s a (s.rtn_left a) x l h.3 i
Linked-not_null s par p x (branch l a r) h (inr (inl e)) = λ z. h.1 (sym e ∙ z)
Linked-not_null s par p x (branch l a r) h (inr (inr i)) =
    Linked-not_null s a (s.rtn_right a) x r h.4 i

pub no_nodes :
    (P : ℕ → Type 0) (s : RtTable) (par p : ℕ) (t : Tree) → p ≡ 0 → Linked s par p t → AllNodes P t
no_nodes P s par p leaf e h = tt
no_nodes P s par p (branch l a r) e h = absurd (h.1 (sym h.0 ∙ e))

-- The bit that the node `a` tests, in an address.
abbrev pub bit_at : (ap : ℕ → ℕ) → (n : ℕ) → Bool
bit_at ap n = bit_test (ap (rnbyte n)) (rnbit n)

-- A node below `a`, on the side of the bit `b`.
abbrev pub Side : RtTable → (a : ℕ) → Bool → (x : ℕ) → Type 0
Side s a b x =
    (s.rtn_bit a < s.rtn_bit x) × (s.rtn_rth x ≢ 0 → bit_at (key_of s x) (s.rtn_bit a) ≡ b)

-- Bit numbers rise on every way down, and a key has the bit of a node above that its side says.
abbrev pub Ordered : RtTable → Tree → Type 0
Ordered s leaf = Unit
Ordered s (branch l a r) =
    (s.rtn_tbit a ≡ rnbit (s.rtn_bit a))
    × AllNodes (Side s a false) l
    × AllNodes (Side s a true) r
    × Ordered s l
    × Ordered s r

-- A table whose nodes are the tree; keys are bytes.
pub record IsTrie (s : RtTable) (t : Tree) : Type 0 where
  pub linked : Linked s 0 s.rtt_root t
  pub ordered : Ordered s t
  pub is_bytes : (p i : ℕ) → s.bytes p i < 256
