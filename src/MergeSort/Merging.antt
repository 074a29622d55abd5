-- ===== src/MergeSort/Merging.antt =====
-- Merging of lists, which the array merge of src/std_mergesort.c is proved to compute: what it does
-- to order, to the elements and to the order of equal elements.
use sonic_common_utils.Base.{
  ◌+◌, ◌≡◌, refl, sym, Bool, true, false, ◌&&◌, List, [], ◌∷◌, ◌++◌, inl, inr, arith, All,
  if◌then◌else◌, Bool-cases, length,
}
use mathlib.Core.List.{Perm, perm_middle, append-nil}
use mathlib.Core.List.Perm

module _ {ℓ} {A : Type ℓ} (le : A → A → Bool) where
  -- The reference merge: it takes from the left list as long as its head is not above the other's.
  unfoldable pub merge : List A → List A → List A
  merge [] ys = ys
  merge (x ∷ xs) [] = x ∷ xs
  merge (x ∷ xs) (y ∷ ys) = elim (le x y) [
    | true ↦ x ∷ merge xs (y ∷ ys)
    | false ↦ y ∷ merge (x ∷ xs) ys
  ]

  pub merge-take_left :
      (x y : A) (xs ys : List A) → le x y ≡ true → merge (x ∷ xs) (y ∷ ys) ≡ x ∷ merge xs (y ∷ ys)
  unfolding merge
  merge-take_left x y xs ys e = rw (e, merge)

  pub merge-take_right :
      (x y : A) (xs ys : List A) → le x y ≡ false → merge (x ∷ xs) (y ∷ ys) ≡ y ∷ merge (x ∷ xs) ys
  unfolding merge
  merge-take_right x y xs ys e = rw (e, merge)

  -- In order: every element is at most each later one.
  abbrev pub IsSorted : List A → Type 0
  IsSorted [] = Unit
  IsSorted (x ∷ xs) = All (λ y. le x y ≡ true) xs × IsSorted xs

  -- The elements that count as equal to `k`, in their order.
  pub same_as : A → List A → List A
  same_as k [] = []
  same_as k (x ∷ xs) = if le k x && le x k then x ∷ same_as k xs else same_as k xs

  pub same_as-append :
      (k : A) (xs ys : List A) → same_as k (xs ++ ys) ≡ same_as k xs ++ same_as k ys
  unfolding same_as
  same_as-append k [] ys = refl
  same_as-append k (x ∷ xs) ys = ground (arith, same_as-append k xs ys)

  pub length-merge : (xs ys : List A) → length (merge xs ys) ≡ length xs + length ys
  unfolding merge
  length-merge [] ys = omega arith
  length-merge (x ∷ xs) [] = omega arith
  length-merge (x ∷ xs) (y ∷ ys) = elim (Bool-cases (le x y)) [
    | inl e ↦ rw (merge-take_left x y xs ys e) (omega (arith, length-merge xs (y ∷ ys)))
    | inr e ↦ rw (merge-take_right x y xs ys e) (omega (arith, length-merge (x ∷ xs) ys))
  ]

  pub merge-perm : (xs ys : List A) → Perm (merge xs ys) (xs ++ ys)
  unfolding merge
  merge-perm [] ys = Perm.refl ys
  merge-perm (x ∷ xs) [] = rw append-nil (Perm.refl (x ∷ xs))
  merge-perm (x ∷ xs) (y ∷ ys) = elim (Bool-cases (le x y)) [
    | inl e ↦ rw (merge-take_left x y xs ys e) (Perm.cons x (merge-perm xs (y ∷ ys)))
    | inr e ↦
        rw (merge-take_right x y xs ys e)
          (Perm.trans (Perm.cons y (merge-perm (x ∷ xs) ys)) (Perm.symm (perm_middle (x ∷ xs) ys)))
  ]

  All-merge {κ} : (P : A → Type κ) (xs ys : List A) → All P xs → All P ys → All P (merge xs ys)
  unfolding merge
  All-merge P [] ys p q = q
  All-merge P (x ∷ xs) [] p q = p
  All-merge P (x ∷ xs) (y ∷ ys) p q = elim (Bool-cases (le x y)) [
    | inl e ↦ rw (merge-take_left x y xs ys e) (p.0, All-merge P xs (y ∷ ys) p.1 q)
    | inr e ↦ rw (merge-take_right x y xs ys e) (q.0, All-merge P (x ∷ xs) ys p q.1)
  ]

  All-mono {κ μ} :
      (P : A → Type κ) (Q : A → Type μ) (xs : List A) → ((x : A) → P x → Q x) → All P xs → All Q xs
  All-mono P Q [] f h = tt
  All-mono P Q (x ∷ xs) f h = (f x h.0, All-mono P Q xs f h.1)

  module _ (total : (a b : A) → le a b ≡ false → le b a ≡ true)
      (trans : (a b c : A) → le a b ≡ true → le b c ≡ true → le a c ≡ true) where
    above :
        (x y : A) (ys : List A)
        → le x y ≡ true
        → IsSorted (y ∷ ys)
        → All (λ z. le x z ≡ true) (y ∷ ys)
    above x y ys e s = (e, All-mono _ _ ys (λ z h. trans x y z e h) s.0)

    pub merge-IsSorted : (xs ys : List A) → IsSorted xs → IsSorted ys → IsSorted (merge xs ys)
    unfolding merge
    merge-IsSorted [] ys p q = q
    merge-IsSorted (x ∷ xs) [] p q = p
    merge-IsSorted (x ∷ xs) (y ∷ ys) p q = elim (Bool-cases (le x y)) [
      | inl e ↦
          rw (merge-take_left x y xs ys e)
            (All-merge _ xs (y ∷ ys) p.0 (above x y ys e q), merge-IsSorted xs (y ∷ ys) p.1 q)
      | inr e ↦ rw (merge-take_right x y xs ys e) (
        All-merge _ (x ∷ xs) ys (above y x xs (total x y e) p) q.0,
        merge-IsSorted (x ∷ xs) ys p q.1,
      )
    ]

    -- If all of `xs` is strictly above `y`, and `y` is not below `k`, then nothing in it equals `k`.
    none_same :
        (k y : A) (xs : List A) → le k y ≡ true → All (λ x. le x y ≡ false) xs → same_as k xs ≡ []
    unfolding same_as
    none_same k y [] e h = refl
    none_same k y (x ∷ xs) e h = ground (arith, trans x k y, none_same k y xs e h.1)

    strictly_above :
        (x y : A) (xs : List A)
        → le x y ≡ false
        → All (λ z. le x z ≡ true) xs
        → All (λ z. le z y ≡ false) (x ∷ xs)
    strictly_above x y xs e s = (e, All-mono _ _ xs (λ z h. ground (arith, trans x z y)) s)

    -- What a step from the right list does, where `y` and the left list share no class.
    same_as-step_right :
        (k y : A) (zs xs ys : List A)
        → same_as k zs ≡ same_as k xs ++ same_as k ys
        → (le k y ≡ true → same_as k xs ≡ [])
        → same_as k (y ∷ zs) ≡ same_as k xs ++ same_as k (y ∷ ys)
    unfolding same_as
    same_as-step_right k y zs xs ys h none = elim (Bool-cases (le k y)) [
      | inl e ↦ rw (none e) (ground (arith, none e))
      | inr e ↦ ground arith
    ]

    -- A merge keeps the order of equal elements, those of the left list first.
    pub same_as-merge :
        (k : A) (xs ys : List A)
        → IsSorted xs
        → same_as k (merge xs ys) ≡ same_as k xs ++ same_as k ys
    unfolding merge same_as
    same_as-merge k [] ys p = refl
    same_as-merge k (x ∷ xs) [] p = sym (append-nil _)
    same_as-merge k (x ∷ xs) (y ∷ ys) p = elim (Bool-cases (le x y)) [
      | inl e ↦ rw (merge-take_left x y xs ys e) (ground (arith, same_as-merge k xs (y ∷ ys) p.1))
      | inr e ↦ rw (merge-take_right x y xs ys e) (
          same_as-step_right k y (merge (x ∷ xs) ys) (x ∷ xs) ys (same_as-merge k (x ∷ xs) ys p)
            (λ f. none_same k y (x ∷ xs) f (strictly_above x y xs e p.0)))
    ]
