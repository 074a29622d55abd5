-- ===== src/Dll/Edit.antt =====
-- The operations of src/std_llist.c on the list that the links stand for.
use mathlib.Core.List.{append_assoc}
use sonic_common_utils.Base.{
  ℕ, ◌≡◌, ◌≢◌, refl, sym, ap, ◌∙◌, subst, List, [], ◌∷◌, ◌++◌, All, put, put_self, put_ne,
}
use sonic_common_utils.Dll.{
  Links, Head, std_dll_insertatfront, std_dll_insertatback, std_dll_insertafter,
  std_dll_insertbefore, std_dll_remove,
}
use sonic_common_utils.Base.Distinct.{
  NotIn, Distinct, All-insert, All-drop, All-dropped, All-at, Distinct-insert, Distinct-drop,
  last_split,
}
use sonic_common_utils.Dll.Linked.{Linked, IsList, all_nodes, Linked-neighbours}
use sonic_common_utils.Dll.Splice.{splice, Linked-splice, unsplice, Linked-unsplice}

-- A node that can be added: not null, no sentinel, and not in the list.
pub record IsNew (d : Head) (xs : List ℕ) (new : ℕ) : Type 0 where
  pub not_null : new ≢ 0
  pub unused : NotIn new (all_nodes d xs)

-- What a splice at neighbours `y`, `z` of the whole chain makes of the list.
splice-IsList :
    (d : Head) (s : Links) (xs ys : List ℕ) (before after : List ℕ) (y new z : ℕ)
    → IsList d s xs
    → IsNew d xs new
    → all_nodes d xs ≡ before ++ (y ∷ z ∷ after)
    → all_nodes d ys ≡ before ++ (y ∷ new ∷ z ∷ after)
    → IsList d (splice s y new z) ys
splice-IsList d s xs ys before after y new z l n e f =
    let unused = subst (NotIn new) e n.unused in
    let distinct = subst Distinct e l.distinct in
    record {
      linked =
          subst (Linked (splice s y new z)) (sym f)
            (Linked-splice s y new z before after (subst (Linked s) e l.linked) distinct unused);
      distinct = subst Distinct (sym f) (Distinct-insert y new before (z ∷ after) unused distinct);
      not_null = subst (All (λ x. x ≢ 0)) (sym f) (
          All-insert (λ x. x ≢ 0) y new before (z ∷ after) n.not_null
            (subst (All (λ x. x ≢ 0)) e l.not_null));
    }

unsplice-IsList :
    (d : Head) (s : Links) (xs ys : List ℕ) (before after : List ℕ) (y item z : ℕ)
    → IsList d s xs
    → all_nodes d xs ≡ before ++ (y ∷ item ∷ z ∷ after)
    → all_nodes d ys ≡ before ++ (y ∷ z ∷ after)
    → IsList d (unsplice s y item z) ys
unsplice-IsList d s xs ys before after y item z l e f =
    let distinct = subst Distinct e l.distinct in
    record {
      linked =
          subst (Linked (unsplice s y item z)) (sym f)
            (Linked-unsplice s y item z before after (subst (Linked s) e l.linked) distinct);
      distinct = subst Distinct (sym f) (Distinct-drop y item before (z ∷ after) distinct);
      not_null =
          subst (All (λ x. x ≢ 0)) (sym f) (
            All-drop (λ x. x ≢ 0) y item before (z ∷ after)
              (subst (All (λ x. x ≢ 0)) e l.not_null));
    }

module _ (s : Links) (y new z : ℕ) where
  insertafter-splice : y ≢ new → s.next y ≡ z → std_dll_insertafter s y new ≡ splice s y new z
  unfolding std_dll_insertafter
  insertafter-splice ne e = rw (put_ne s.next new (s.next y) y (λ p. ne (sym p)), e)

  insertbefore-splice : z ≢ new → s.back z ≡ y → std_dll_insertbefore s z new ≡ splice s y new z
  unfolding std_dll_insertbefore
  insertbefore-splice ne e = rw (put_ne s.back new (s.back z) z (λ p. ne (sym p)), e)

  remove-unsplice : s.back new ≡ y → s.next new ≡ z → std_dll_remove s new ≡ unsplice s y new z
  unfolding std_dll_remove
  remove-unsplice p q = rw (p, q)

-- `std_dll_insertatfront` and `std_dll_insertatback` are insertions behind and before a sentinel.
front-insertafter :
    (d : Head) (s : Links) (new : ℕ)
    → std_dll_insertatfront d s new ≡ std_dll_insertafter s d.head new
unfolding std_dll_insertatfront std_dll_insertafter
front-insertafter d s new = refl

back-insertbefore :
    (d : Head) (s : Links) (new : ℕ)
    → std_dll_insertatback d s new ≡ std_dll_insertbefore s d.tail new
unfolding std_dll_insertatback std_dll_insertbefore
back-insertbefore d s new = refl

next_neighbours :
    (s : Links) (before : List ℕ) (y item z : ℕ) (after : List ℕ)
    → Linked s (before ++ (y ∷ item ∷ z ∷ after))
    → s.next item ≡ z
next_neighbours s [] y item z after l = l.2.0
next_neighbours s (a ∷ []) y item z after l = l.2.2.0
next_neighbours s (a ∷ b ∷ before) y item z after l =
    next_neighbours s (b ∷ before) y item z after l.2

-- The node behind a place in the list: the first of the rest, or the tail sentinel.
abbrev pub behind : Head → List ℕ → ℕ
behind d [] = d.tail
behind d (y ∷ ys) = y

abbrev rest_of : Head → List ℕ → List ℕ
rest_of d [] = []
rest_of d (y ∷ ys) = ys ++ (d.tail ∷ [])

behind_split : (d : Head) (ys : List ℕ) → ys ++ (d.tail ∷ []) ≡ behind d ys ∷ rest_of d ys
behind_split d [] = refl
behind_split d (y ∷ ys) = refl

module _ (d : Head) (s : Links) where
  -- An insertion behind the sentinel or the node in front of `ys`.
  after_place :
      (xs ys zs : List ℕ) (before : List ℕ) (y new : ℕ)
      → IsList d s xs
      → IsNew d xs new
      → all_nodes d xs ≡ before ++ (y ∷ (ys ++ (d.tail ∷ [])))
      → all_nodes d zs ≡ before ++ (y ∷ new ∷ (ys ++ (d.tail ∷ [])))
      → IsList d (std_dll_insertafter s y new) zs
  after_place xs ys zs before y new l n e f =
      let e' = rw (behind_split d ys) at e in
      let f' = rw (behind_split d ys) at f in
      let unused = subst (NotIn new) e' n.unused in
      let z = behind d ys in
      rw
        (insertafter-splice s y new z (All-at (λ x. x ≢ new) y before (z ∷ rest_of d ys) unused)
          (Linked-neighbours s before y z (rest_of d ys) (subst (Linked s) e' l.linked)).0)
        (splice-IsList d s xs zs before (rest_of d ys) y new z l n e' f')

  before_place :
      (xs zs : List ℕ) (before after : List ℕ) (y new z : ℕ)
      → IsList d s xs
      → IsNew d xs new
      → all_nodes d xs ≡ before ++ (y ∷ z ∷ after)
      → all_nodes d zs ≡ before ++ (y ∷ new ∷ z ∷ after)
      → IsList d (std_dll_insertbefore s z new) zs
  before_place xs zs before after y new z l n e f =
      let unused = subst (NotIn new) e n.unused in
      rw
        (insertbefore-splice s y new z (All-dropped (λ x. x ≢ new) y z before after unused)
          (Linked-neighbours s before y z after (subst (Linked s) e l.linked)).1)
        (splice-IsList d s xs zs before after y new z l n e f)

  -- The chain, taken apart around a node of the list.
  around : (xs ys : List ℕ) → all_nodes d (xs ++ ys) ≡ d.head ∷ (xs ++ (ys ++ (d.tail ∷ [])))
  around xs ys = ap (λ zs. d.head ∷ zs) (append_assoc xs ys (d.tail ∷ []))

  -- The chain, taken apart around the node in front of a place.
  in_front :
      (xs ys before : List ℕ) (y : ℕ)
      → d.head ∷ xs ≡ before ++ (y ∷ [])
      → all_nodes d (xs ++ ys) ≡ before ++ (y ∷ (ys ++ (d.tail ∷ [])))
  in_front xs ys before y e =
      around xs ys
      ∙ ap (λ zs. zs ++ (ys ++ (d.tail ∷ []))) e
      ∙ append_assoc before (y ∷ []) (ys ++ (d.tail ∷ []))

  -- `std_dll_insertafter` puts a new node right behind a node of the list.
  pub insertafter-IsList :
      (xs ys : List ℕ) (y new : ℕ)
      → IsList d s (xs ++ (y ∷ ys))
      → IsNew d (xs ++ (y ∷ ys)) new
      → IsList d (std_dll_insertafter s y new) (xs ++ (y ∷ new ∷ ys))
  insertafter-IsList xs ys y new l n =
      after_place (xs ++ (y ∷ ys)) ys (xs ++ (y ∷ new ∷ ys)) (d.head ∷ xs) y new l n
        (around xs (y ∷ ys)) (around xs (y ∷ new ∷ ys))

  -- `std_dll_insertbefore` puts a new node right before a node of the list.
  pub insertbefore-IsList :
      (xs ys : List ℕ) (z new : ℕ)
      → IsList d s (xs ++ (z ∷ ys))
      → IsNew d (xs ++ (z ∷ ys)) new
      → IsList d (std_dll_insertbefore s z new) (xs ++ (new ∷ z ∷ ys))
  insertbefore-IsList xs ys z new l n =
      let (before, y, e) = last_split d.head xs in
      before_place (xs ++ (z ∷ ys)) (xs ++ (new ∷ z ∷ ys)) before (ys ++ (d.tail ∷ [])) y new z l n
        (in_front xs (z ∷ ys) before y e) (in_front xs (new ∷ z ∷ ys) before y e)

  -- `std_dll_insertatfront` puts a new node before all others.
  pub insertatfront-IsList :
      (xs : List ℕ) (new : ℕ)
      → IsList d s xs
      → IsNew d xs new
      → IsList d (std_dll_insertatfront d s new) (new ∷ xs)
  insertatfront-IsList xs new l n =
      rw (front-insertafter d s new) (after_place xs xs (new ∷ xs) [] d.head new l n refl refl)

  -- `std_dll_insertatback` puts a new node behind all others.
  pub insertatback-IsList :
      (xs : List ℕ) (new : ℕ)
      → IsList d s xs
      → IsNew d xs new
      → IsList d (std_dll_insertatback d s new) (xs ++ (new ∷ []))
  insertatback-IsList xs new l n =
      let (before, y, e) = last_split d.head xs in
      rw (back-insertbefore d s new) (
        before_place xs (xs ++ (new ∷ [])) before [] y new d.tail l n
          (ap (λ zs. zs ++ (d.tail ∷ [])) e ∙ append_assoc before (y ∷ []) (d.tail ∷ []))
          (in_front xs (new ∷ []) before y e))

  -- `std_dll_remove` takes one node out of the list, keeps the others in order, and clears the links
  -- of the node.
  pub remove-IsList :
      (xs ys : List ℕ) (item : ℕ)
      → IsList d s (xs ++ (item ∷ ys))
      → IsList d (std_dll_remove s item) (xs ++ ys)
        × ((std_dll_remove s item).next item ≡ 0)
        × ((std_dll_remove s item).back item ≡ 0)
  remove-IsList xs ys item l =
      let (before, y, e) = last_split d.head xs in
      let z = behind d ys in
      let split = rw (behind_split d ys) at (in_front xs (item ∷ ys) before y e) in
      let closed = rw (behind_split d ys) at (in_front xs ys before y e) in
      let chain = subst (Linked s) split l.linked in
      let first = Linked-neighbours s before y item (z ∷ rest_of d ys) chain in
      let second = next_neighbours s before y item z (rest_of d ys) chain in
      rw (remove-unsplice s y item z first.1 second) (
        unsplice-IsList d s (xs ++ (item ∷ ys)) (xs ++ ys) before (rest_of d ys) y item z l split
            closed,
        put_self (put s.next y z) item 0,
        put_self (put s.back z y) item 0,
      )
