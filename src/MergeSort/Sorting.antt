-- ===== src/MergeSort/Sorting.antt =====
-- `std_merge_sort` of src/std_mergesort.c sorts: its result is ordered, holds the same elements,
-- keeps the order of equal ones, and the cells outside the range are left alone.
use mathlib.Core.List.{Perm}
use mathlib.Core.List.Perm
use sonic_common_utils.Base.{
  ℕ, zero, suc, ◌+◌, ◌-◌, ◌/◌, ◌≤◌, ◌<◌, ◌≡◌, refl, sym, ap, ◌∙◌, ap₂, subst, subst₂, true, false,
  List, [], ◌∷◌, ◌++◌, arith, lt→ltb, ge→ltb, slice, slice_ext, slice-append, length, length-slice,
}
use sonic_common_utils.Base.Int.{ℤ}
use sonic_common_utils.MergeSort.{Arrays, takes_left, merge_arrays, divide_n_sort, std_merge_sort}
use sonic_common_utils.MergeSort.Merging.{
  merge, IsSorted, same_as, same_as-append, merge-perm, merge-IsSorted, same_as-merge, length-merge,
}
use sonic_common_utils.MergeSort.Ranges.{merge_arrays-Writes}

-- The range of `n` cells from `left` on went over by `R`, and no other cell changed.
record Sorts {ℓ κ} {A : Type ℓ} (R : List A → List A → Type κ) (before after : ℕ → A) (left n : ℕ)
    : Type (ℓ ⊔ κ) where
  related : R (slice before left n) (slice after left n)
  below : (j : ℕ) → j < left → after j ≡ before j
  above : (j : ℕ) → left + n ≤ j → after j ≡ before j

module _ {ℓ κ} {A : Type ℓ} (cmp : A → A → ℤ) (R : List A → List A → Type κ)
    (base : (xs : List A) → length xs ≤ 1 → R xs xs)
    (step : (xs ys xs' ys' : List A)
      → R xs xs'
      → R ys ys'
      → R (xs ++ ys) (merge (takes_left cmp) xs' ys')) where
  -- Two sorted neighbours and their merge.
  join :
      (s s' : Arrays A) (t : ℕ → A) (left mid right p q : ℕ)
      → left + suc p ≡ mid
      → mid + q ≡ right + 1
      → Sorts R s.main t left (suc p)
      → Sorts R t s'.main mid q
      → Sorts R s.main (merge_arrays cmp left mid right s').main left (suc p + q)
  join s s' t left mid right p q el er first second =
      let w = merge_arrays-Writes cmp left mid right p q s' el er in
      let len : length (merge (takes_left cmp) (slice s'.main left (suc p)) (slice s'.main mid q))
          ≡ suc p + q =
        omega (
          arith,
          length-merge (takes_left cmp) (slice s'.main left (suc p)) (slice s'.main mid q),
          length-slice s'.main left (suc p),
          length-slice s'.main mid q,
        ) in
      record {
        related = subst₂ R (sym before) (sym (rw len at w.written)) joined;
        below = λ j h. w.below j h ∙ second.below j (omega arith) ∙ first.below j h;
        above = λ j h.
            w.above j (omega arith) ∙ second.above j (omega arith) ∙ first.above j (omega arith);
      }
    where
      right_kept : slice s.main (left + suc p) q ≡ slice t mid q
      right_kept = rw el (slice_ext s.main t mid q (λ j h k. sym (first.above j (omega arith))))

      before : slice s.main left (suc p + q) ≡ slice s.main left (suc p) ++ slice t mid q
      before =
          slice-append s.main left (suc p) q (suc p + q) refl
          ∙ ap (λ zs. slice s.main left (suc p) ++ zs) right_kept

      left_kept : slice t left (suc p) ≡ slice s'.main left (suc p)
      left_kept = slice_ext t s'.main left (suc p) (λ j h k. sym (second.below j (omega arith)))

      joined :
          R
            (slice s.main left (suc p) ++ slice t mid q)
            (merge (takes_left cmp) (slice s'.main left (suc p)) (slice s'.main mid q))
      joined =
          step _ _ _ _ (subst (λ zs. R (slice s.main left (suc p)) zs) left_kept first.related)
            second.related

  unchanged : (f : ℕ → A) (left n : ℕ) → n ≤ 1 → Sorts R f f left n
  unchanged f left n h = record {
    related = base (slice f left n) (omega (arith, length-slice f left n));
    below = λ j p. refl;
    above = λ j p. refl;
  }

  -- The recursion, on a range of at most `fuel + 1` elements.
  divide_n_sort-Sorts :
      (fuel left right n : ℕ) (s : Arrays A)
      → left + n ≡ right + 1
      → n ≤ fuel + 1
      → Sorts R s.main (divide_n_sort cmp fuel left right s).main left n
  unfolding divide_n_sort
  divide_n_sort-Sorts zero left right n s e h = unchanged s.main left n (omega arith)
  divide_n_sort-Sorts (suc fuel) left right zero s e h =
      rw (ge→ltb left right (omega arith), divide_n_sort) (unchanged s.main left zero (omega arith))
  divide_n_sort-Sorts (suc fuel) left right (suc zero) s e h =
      rw (ge→ltb left right (omega arith), divide_n_sort) (unchanged s.main left 1 (omega arith))
  divide_n_sort-Sorts (suc fuel) left right (suc (suc m)) s e h =
      let middle = (right + left) / 2 in
      let first = divide_n_sort cmp fuel left middle s in
      let count : suc (middle - left) + (right - middle) ≡ suc (suc m) = omega arith in
      rw (lt→ltb left right (omega arith), divide_n_sort)
        (subst
          (λ k.
            Sorts R s.main
              (merge_arrays cmp left (middle + 1) right
                (divide_n_sort cmp fuel (middle + 1) right first)).main
              left k)
          count
          (join s (divide_n_sort cmp fuel (middle + 1) right first) first.main left (middle + 1)
            right (middle - left) (right - middle) (omega arith) (omega arith)
            (divide_n_sort-Sorts fuel left middle (suc (middle - left)) s (omega arith)
              (omega arith))
            (divide_n_sort-Sorts fuel (middle + 1) right (right - middle) first (omega arith)
              (omega arith))))

  std_merge_sort-Sorts : (n : ℕ) (s : Arrays A) → Sorts R s.main (std_merge_sort cmp n s).main 0 n
  unfolding std_merge_sort
  std_merge_sort-Sorts zero s = unchanged s.main 0 zero (omega arith)
  std_merge_sort-Sorts (suc n) s =
      divide_n_sort-Sorts (suc n) 0 (suc n - 1) (suc n) s (omega arith) (omega arith)

-- The three relations that the ranges are carried through.
module _ {ℓ} {A : Type ℓ} (cmp : A → A → ℤ) where
  abbrev IsStable : List A → List A → Type ℓ
  IsStable xs xs' =
      IsSorted (takes_left cmp) xs'
      × ((k : A) → same_as (takes_left cmp) k xs' ≡ same_as (takes_left cmp) k xs)

  short-IsSorted : (xs : List A) → length xs ≤ 1 → IsSorted (takes_left cmp) xs
  short-IsSorted [] h = tt
  short-IsSorted (x ∷ []) h = (tt, tt)
  short-IsSorted (x ∷ y ∷ xs) h = absurd (omega arith)

  -- The sorted range holds the same elements as before, as often.
  pub std_merge_sort-perm :
      (n : ℕ) (s : Arrays A) → Perm (slice s.main 0 n) (slice (std_merge_sort cmp n s).main 0 n)
  std_merge_sort-perm n s =
      (std_merge_sort-Sorts cmp Perm (λ xs h. Perm.refl xs)
        (λ xs ys xs' ys' p q.
          Perm.trans (Perm.append p q) (Perm.symm (merge-perm (takes_left cmp) xs' ys')))
        n s).related

  -- The sort writes no cell of the array at or behind `num_elements`.
  std_merge_sort_frame :
      (n : ℕ) (s : Arrays A) (j : ℕ) → n ≤ j → (std_merge_sort cmp n s).main j ≡ s.main j
  std_merge_sort_frame n s j h =
      (std_merge_sort-Sorts cmp (λ xs ys. Unit {0}) (λ xs p. tt) (λ xs ys xs' ys' p q. tt) n
          s).above
        j (omega arith)

  module _ (total : (a b : A) → takes_left cmp a b ≡ false → takes_left cmp b a ≡ true)
      (trans : (a b c : A)
        → takes_left cmp a b ≡ true
        → takes_left cmp b c ≡ true
        → takes_left cmp a c ≡ true) where
    sort-IsStable :
        (n : ℕ) (s : Arrays A)
        → IsStable (slice s.main 0 n) (slice (std_merge_sort cmp n s).main 0 n)
    sort-IsStable n s =
        (std_merge_sort-Sorts cmp IsStable (λ xs h. (short-IsSorted xs h, λ k. refl))
          (λ xs ys xs' ys' p q. (
            merge-IsSorted (takes_left cmp) total trans xs' ys' p.0 q.0,
            λ k.
                same_as-merge (takes_left cmp) total trans k xs' ys' p.0
                ∙ ap₂ ◌++◌ (p.1 k) (q.1 k)
                ∙ sym (same_as-append (takes_left cmp) k xs ys),
          ))
          n s).related

    -- If `cmp_func` is total and transitive, each element of the sorted range is at most every
    -- later one.
    pub std_merge_sort-IsSorted :
        (n : ℕ) (s : Arrays A) → IsSorted (takes_left cmp) (slice (std_merge_sort cmp n s).main 0 n)
    std_merge_sort-IsSorted n s = (sort-IsStable n s).0

    -- If `cmp_func` is total and transitive, the elements that compare as equal to any `k` keep
    -- their order.
    pub std_merge_sort-stable :
        (n : ℕ) (s : Arrays A) (k : A)
        → same_as (takes_left cmp) k (slice (std_merge_sort cmp n s).main 0 n)
          ≡ same_as (takes_left cmp) k (slice s.main 0 n)
    std_merge_sort-stable n s k = (sort-IsStable n s).1 k
