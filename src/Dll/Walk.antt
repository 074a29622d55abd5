-- ===== src/Dll/Walk.antt =====
-- Walking the list of src/std_llist.c from its first node.
use mathlib.Core.List.{append_assoc}
use sonic_common_utils.Base.{
  ℕ, zero, suc, ◌<◌, ◌≡◌, ◌≢◌, refl, sym, ap, subst, true, false, List, [], ◌∷◌, ◌++◌, All, length,
  arith, ◌==◌, ==_refl, ne→==, if◌then◌else◌,
}
use sonic_common_utils.Dll.{Links, Head, std_dll_getfirst, std_dll_getnext}
use sonic_common_utils.Base.Distinct.{
  Distinct, NotIn, NotIn-others, All-at, All-right, Distinct-right,
}
use sonic_common_utils.Dll.Linked.{Linked, IsList, all_nodes, Linked-neighbours}
use sonic_common_utils.Dll.Edit.{IsNew, behind}

-- The first node of a list, null if there is none.
abbrev pub first_or_null : List ℕ → ℕ
first_or_null [] = 0
first_or_null (x ∷ xs) = x

-- What a loop by `std_dll_getnext` visits from `p` on, on fuel.
unfoldable pub visit : ℕ → Head → Links → ℕ → List ℕ
visit zero d s p = []
visit (suc fuel) d s p = elim (p == 0) [
  | true ↦ []
  | false ↦ p ∷ visit fuel d s (std_dll_getnext d s p)
]

module _ (d : Head) (s : Links) where
  next_behind :
      (before ys : List ℕ) (y : ℕ)
      → Linked s (before ++ (y ∷ (ys ++ (d.tail ∷ []))))
      → s.next y ≡ behind d ys
  next_behind before [] y l = (Linked-neighbours s before y d.tail [] l).0
  next_behind before (z ∷ ys) y l = (Linked-neighbours s before y z (ys ++ (d.tail ∷ [])) l).0

  -- The chain of a list, at one of its nodes.
  at_node :
      (xs ys : List ℕ) (y : ℕ)
      → all_nodes d (xs ++ (y ∷ ys)) ≡ (d.head ∷ xs) ++ (y ∷ (ys ++ (d.tail ∷ [])))
  at_node xs ys y = ap (λ zs. d.head ∷ zs) (append_assoc xs (y ∷ ys) (d.tail ∷ []))

  pub node_ne_tail : (xs ys : List ℕ) (y : ℕ) → IsList d s (xs ++ (y ∷ ys)) → y ≢ d.tail
  node_ne_tail xs ys y l e =
      let distinct =
        Distinct-right (d.head ∷ xs) (y ∷ (ys ++ (d.tail ∷ [])))
          (subst Distinct (at_node xs ys y) l.distinct) in
      (All-right (λ x. x ≢ y) ys (d.tail ∷ []) distinct.0).0 (sym e)

  pub node_ne_null : (xs ys : List ℕ) (y : ℕ) → IsList d s (xs ++ (y ∷ ys)) → y ≢ 0
  node_ne_null xs ys y l =
      All-at (λ x. x ≢ 0) y (d.head ∷ xs) (ys ++ (d.tail ∷ []))
        (subst (All (λ x. x ≢ 0)) (at_node xs ys y) l.not_null)

  -- The node or sentinel behind a place, as `std_dll_getnext` returns it.
  behind_or_null :
      (xs ys : List ℕ)
      → IsList d s (xs ++ ys)
      → (if behind d ys == d.tail then 0 else behind d ys) ≡ first_or_null ys
  behind_or_null xs [] l = rw (==_refl d.tail)
  behind_or_null xs (y ∷ ys) l = rw (ne→== y d.tail (node_ne_tail xs ys y l))

  -- `std_dll_getfirst` returns the first node, and null for an empty list.
  pub getfirst-IsList : (xs : List ℕ) → IsList d s xs → std_dll_getfirst d s ≡ first_or_null xs
  unfolding std_dll_getfirst
  getfirst-IsList xs l = rw (next_behind [] xs d.head l.linked) (behind_or_null [] xs l)

  pub next_of_node : (xs ys : List ℕ) (y : ℕ) → IsList d s (xs ++ (y ∷ ys)) → s.next y ≡ behind d ys
  next_of_node xs ys y l =
      next_behind (d.head ∷ xs) ys y (subst (Linked s) (at_node xs ys y) l.linked)

  pub shift_node : (xs ys : List ℕ) (y : ℕ) → xs ++ (y ∷ ys) ≡ (xs ++ (y ∷ [])) ++ ys
  shift_node xs ys y = sym (append_assoc xs (y ∷ []) ys)

  -- `std_dll_getnext` returns the node behind, and null behind the last.
  pub getnext-IsList :
      (xs ys : List ℕ) (y : ℕ)
      → IsList d s (xs ++ (y ∷ ys))
      → std_dll_getnext d s y ≡ first_or_null ys
  unfolding std_dll_getnext
  getnext-IsList xs ys y l =
      rw (next_of_node xs ys y l)
        (behind_or_null (xs ++ (y ∷ [])) ys (subst (IsList d s) (shift_node xs ys y) l))

  visit-IsList :
      (fuel : ℕ) (xs ys : List ℕ)
      → length ys < fuel
      → IsList d s (xs ++ ys)
      → visit fuel d s (first_or_null ys) ≡ ys
  unfolding visit
  visit-IsList zero xs ys h l = absurd (omega arith)
  visit-IsList (suc fuel) xs [] h l = refl
  visit-IsList (suc fuel) xs (y ∷ ys) h l =
      rw (ne→== y 0 (node_ne_null xs ys y l), visit, getnext-IsList xs ys y l)
        (ap (λ zs. y ∷ zs)
          (visit-IsList fuel (xs ++ (y ∷ [])) ys (omega arith)
            (subst (IsList d s) (shift_node xs ys y) l)))

  -- From `std_dll_getfirst`, the loop by `std_dll_getnext` visits every node of the list once, in
  -- order, and ends.
  pub visit_all :
      (fuel : ℕ) (xs : List ℕ)
      → length xs < fuel
      → IsList d s xs
      → visit fuel d s (std_dll_getfirst d s) ≡ xs
  visit_all fuel xs h l = rw (getfirst-IsList xs l) (visit-IsList fuel [] xs h l)

-- A node that is taken out can be added again.
pub removed-IsNew :
    (d : Head) (s : Links) (xs ys : List ℕ) (y : ℕ)
    → IsList d s (xs ++ (y ∷ ys))
    → IsNew d (xs ++ ys) y
removed-IsNew d s xs ys y l = record {
  not_null = node_ne_null d s xs ys y l;
  unused = subst (NotIn y) (ap (λ zs. d.head ∷ zs) (sym (append_assoc xs ys (d.tail ∷ [])))) (
      NotIn-others y (d.head ∷ xs) (ys ++ (d.tail ∷ []))
        (subst Distinct (at_node d s xs ys y) l.distinct));
}
