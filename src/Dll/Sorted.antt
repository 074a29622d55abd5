-- ===== src/Dll/Sorted.antt =====
-- `std_dll_insert` of src/std_llist.c: insertion in the order of a compare function.
use mathlib.Core.List.{Perm}
use mathlib.Core.List.Perm
use sonic_common_utils.Base.{
  ℕ, zero, suc, ◌<◌, ◌≡◌, refl, sym, ap, ◌∙◌, subst, inl, inr, Bool, true, false, ◌||◌, some,
  Option, List, [], ◌∷◌, ◌++◌, All, length, arith, ◌==◌, ==_refl, ne→==, if◌then◌else◌, Bool-cases,
}
use sonic_common_utils.Base.Int.{ℤ, is_neg}
use sonic_common_utils.Dll.{
  Links, Head, std_dll_getfirst, std_dll_insertatfront, std_dll_insertafter, insert_walk, insert_by,
  std_dll_insert,
}
use sonic_common_utils.Base.Distinct.{All-mono}
use sonic_common_utils.Dll.Linked.{IsList}
use sonic_common_utils.Dll.Edit.{IsNew, insertafter-IsList, insertatfront-IsList}
use sonic_common_utils.Dll.Walk.{
  getfirst-IsList, next_of_node, node_ne_tail, node_ne_null, shift_node,
}

module _ (cmp : ℕ → ℕ → ℤ) where
  -- `a` goes before `b`.
  abbrev pub less : ℕ → ℕ → Bool
  less a b = is_neg (cmp a b)

  -- The reference: a new element goes right before the first one that it is less than.
  unfoldable pub place : ℕ → List ℕ → List ℕ
  place new [] = new ∷ []
  place new (x ∷ xs) = if less new x then new ∷ x ∷ xs else x ∷ place new xs

  -- No element is less than an earlier one.
  abbrev pub InOrder : List ℕ → Type 0
  InOrder [] = Unit
  InOrder (x ∷ xs) = All (λ y. less y x ≡ false) xs × InOrder xs

  place-nil : (new : ℕ) → place new [] ≡ new ∷ []
  unfolding place
  place-nil new = refl

  place-less : (new x : ℕ) (xs : List ℕ) → less new x ≡ true → place new (x ∷ xs) ≡ new ∷ x ∷ xs
  unfolding place
  place-less new x xs e = rw e

  place-not_less :
      (new x : ℕ) (xs : List ℕ) → less new x ≡ false → place new (x ∷ xs) ≡ x ∷ place new xs
  unfolding place
  place-not_less new x xs e = rw e

  place-perm : (new : ℕ) (xs : List ℕ) → Perm (new ∷ xs) (place new xs)
  place-perm new [] = rw (place-nil new) (Perm.refl (new ∷ []))
  place-perm new (x ∷ xs) = elim (Bool-cases (less new x)) [
    | inl e ↦ rw (place-less new x xs e) (Perm.refl (new ∷ x ∷ xs))
    | inr e ↦
        rw (place-not_less new x xs e)
          (Perm.trans (Perm.swap x new xs) (Perm.cons x (place-perm new xs)))
  ]

  module _ (asym : (a b : ℕ) → less a b ≡ true → less b a ≡ false)
      (trans : (a b c : ℕ) → less a b ≡ true → less b c ≡ true → less a c ≡ true) where
    All-place :
        (x new : ℕ) (xs : List ℕ)
        → less new x ≡ false
        → All (λ y. less y x ≡ false) xs
        → All (λ y. less y x ≡ false) (place new xs)
    unfolding place
    All-place x new [] h a = (h, tt)
    All-place x new (z ∷ xs) h a = elim (Bool-cases (less new z)) [
      | inl e ↦ rw (place-less new z xs e) (h, a)
      | inr e ↦ rw (place-not_less new z xs e) (a.0, All-place x new xs h a.1)
    ]

    not_below : (new x y : ℕ) → less new x ≡ true → less y x ≡ false → less y new ≡ false
    not_below new x y e h = ground (arith, trans y new x)

    place-InOrder : (new : ℕ) (xs : List ℕ) → InOrder xs → InOrder (place new xs)
    unfolding place
    place-InOrder new [] s = (tt, tt)
    place-InOrder new (x ∷ xs) s = elim (Bool-cases (less new x)) [
      | inl e ↦
          rw (place-less new x xs e)
            ((asym new x e, All-mono _ _ xs (λ y h. not_below new x y e h) s.0), s)
      | inr e ↦ rw (place-not_less new x xs e) (All-place x new xs e s.0, place-InOrder new xs s.1)
    ]

  module _ (d : Head) where
    -- Two facts about links as one: where the walk ends, and what the links then stand for.
    abbrev pub Inserted : Option Links → List ℕ → Type 0
    Inserted r ys = (s : Links) × (r ≡ some s) × IsList d s ys

    module _ (s : Links) (new : ℕ) where
      walk_stop :
          (fuel w : ℕ)
          → (s.next w == d.tail || less new (s.next w)) ≡ true
          → insert_walk (suc fuel) d cmp s new w ≡ some (std_dll_insertafter s w new)
      unfolding insert_walk
      walk_stop fuel w e = rw (e, insert_walk)

      walk_on :
          (fuel w y : ℕ)
          → s.next w ≡ y
          → (s.next w == d.tail || less new (s.next w)) ≡ false
          → insert_walk (suc fuel) d cmp s new w ≡ insert_walk fuel d cmp s new y
      unfolding insert_walk
      walk_on fuel w y f e = rw (e, insert_walk) (ap (insert_walk fuel d cmp s new) f)

      -- The walk puts the new node at its place behind the node that it starts from.
      insert_walk-place :
          (fuel : ℕ) (xs ys : List ℕ) (w : ℕ)
          → length ys < fuel
          → IsList d s (xs ++ (w ∷ ys))
          → IsNew d (xs ++ (w ∷ ys)) new
          → Inserted (insert_walk fuel d cmp s new w) (xs ++ (w ∷ place new ys))
      insert_walk-place zero xs ys w h l n = absurd (omega arith)
      insert_walk-place (suc fuel) xs [] w h l n =
          let last : (s.next w == d.tail || less new (s.next w)) ≡ true =
            rw (next_of_node d s xs [] w l, ==_refl d.tail) in
          rw (walk_stop fuel w last, place-nil new)
            (std_dll_insertafter s w new, refl, insertafter-IsList d s xs [] w new l n)
      insert_walk-place (suc fuel) xs (y ∷ ys) w h l n =
          let l' = subst (IsList d s) (shift_node d s xs (y ∷ ys) w) l in
          let n' = subst (λ zs. IsNew d zs new) (shift_node d s xs (y ∷ ys) w) n in
          let next = next_of_node d s xs (y ∷ ys) w l in
          let other = ne→== y d.tail (node_ne_tail d s (xs ++ (w ∷ [])) ys y l') in
          elim (Bool-cases (less new y)) [
            | inl e ↦
                rw (walk_stop fuel w (rw (next, other, e)), place-less new y ys e)
                  (std_dll_insertafter s w new, refl, insertafter-IsList d s xs (y ∷ ys) w new l n)
            | inr e ↦
                let (s', f, l'') =
                  insert_walk-place fuel (xs ++ (w ∷ [])) ys y (omega arith) l' n' in
                rw (walk_on fuel w y next (rw (next, other, e)), place-not_less new y ys e)
                  (s', f, subst (IsList d s') (sym (shift_node d s xs (y ∷ place new ys) w)) l'')
          ]

      insert_by_front :
          (fuel : ℕ)
          → (std_dll_getfirst d s == 0 || less new (s.next d.head)) ≡ true
          → insert_by (some cmp) fuel d s new ≡ some (std_dll_insertatfront d s new)
      unfolding insert_by
      insert_by_front fuel e = rw e

      insert_by_walk :
          (fuel x : ℕ)
          → s.next d.head ≡ x
          → (std_dll_getfirst d s == 0 || less new (s.next d.head)) ≡ false
          → insert_by (some cmp) fuel d s new ≡ insert_walk fuel d cmp s new x
      unfolding insert_by
      insert_by_walk fuel x f e = rw e (ap (insert_walk fuel d cmp s new) f)

      insert_by-place :
          (fuel : ℕ) (xs : List ℕ)
          → length xs < fuel
          → IsList d s xs
          → IsNew d xs new
          → Inserted (insert_by (some cmp) fuel d s new) (place new xs)
      insert_by-place fuel [] h l n =
          rw (insert_by_front fuel (rw (getfirst-IsList d s [] l)), place-nil new)
            (std_dll_insertatfront d s new, refl, insertatfront-IsList d s [] new l n)
      insert_by-place fuel (x ∷ xs) h l n =
          let first : s.next d.head ≡ x = l.linked.0 in
          let some_node = ne→== x 0 (node_ne_null d s [] xs x l) in
          elim (Bool-cases (less new x)) [
            | inl e ↦
                rw
                  (
                    insert_by_front fuel (rw (getfirst-IsList d s (x ∷ xs) l, some_node, first, e)),
                    place-less new x xs e,
                  )
                  (std_dll_insertatfront d s new, refl, insertatfront-IsList d s (x ∷ xs) new l n)
            | inr e ↦
                rw
                  (
                    insert_by_walk fuel x first
                        (rw (getfirst-IsList d s (x ∷ xs) l, some_node, first, e)),
                    place-not_less new x xs e,
                  )
                  (insert_walk-place fuel [] xs x (omega arith) l n)
          ]

      -- With a compare function and more fuel than nodes, `std_dll_insert` ends, and the list gets
      -- the new node at its place in the order.
      pub std_dll_insert-place :
          (fuel : ℕ) (xs : List ℕ)
          → d.compare ≡ some cmp
          → length xs < fuel
          → IsList d s xs
          → IsNew d xs new
          → Inserted (std_dll_insert fuel d s new) (place new xs)
      unfolding std_dll_insert
      std_dll_insert-place fuel xs c h l n =
          let same : insert_by d.compare fuel d s new ≡ insert_by (some cmp) fuel d s new =
            ap (λ o. insert_by o fuel d s new) c in
          let (s', e, l') = insert_by-place fuel xs h l n in (s', same ∙ e, l')

    -- If the compare function is asymmetric and transitive, `std_dll_insert` on a list in order ends,
    -- and leaves a list in order that holds the old nodes and the new one.
    pub std_dll_insert-InOrder :
        (asym : (a b : ℕ) → less a b ≡ true → less b a ≡ false)
        (trans : (a b c : ℕ) → less a b ≡ true → less b c ≡ true → less a c ≡ true) (s : Links)
        (new fuel : ℕ) (xs : List ℕ)
        → d.compare ≡ some cmp
        → length xs < fuel
        → IsList d s xs
        → IsNew d xs new
        → InOrder xs
        → (ys : List ℕ) × Inserted (std_dll_insert fuel d s new) ys
          × InOrder ys
          × Perm (new ∷ xs) ys
    std_dll_insert-InOrder asym trans s new fuel xs c h l n o = (
      place new xs,
      std_dll_insert-place s new fuel xs c h l n,
      place-InOrder asym trans new xs o,
      place-perm new xs,
    )
