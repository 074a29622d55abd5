-- ===== src/MergeSort/Ranges.antt =====
-- The loops of src/std_mergesort.c as writes of a list of values into a range of an array.
use mathlib.Core.List.{append-nil}
use native.Mathlib.Decide.{ℕ_discrete}
use sonic_common_utils.Base.{
  ℕ, zero, suc, ◌+◌, ◌-◌, ◌≤◌, ◌<◌, ◌≡◌, refl, ◌∙◌, ap₂, ◌⊎◌, inl, inr, List, [], ◌∷◌, ◌++◌, arith,
  le→leb, lt→leb, Bool-cases, put, put_self, put_ne, slice, slice_ext, slice-append, length-slice,
  length, length-append,
}
use sonic_common_utils.Base.Int.{ℤ}
use sonic_common_utils.MergeSort.{
  Arrays, copy_run, copy_back, takes_left, merge_loop, drain, merge_arrays,
}
use sonic_common_utils.MergeSort.Merging.{merge, merge-take_left, merge-take_right, length-merge}

-- `after` holds `values` from index `i` on, and is `before` elsewhere.
pub record Writes {ℓ} {A : Type ℓ} (before after : ℕ → A) (i : ℕ) (values : List A) : Type ℓ where
  pub written : slice after i (length values) ≡ values
  pub below : (j : ℕ) → j < i → after j ≡ before j
  pub above : (j : ℕ) → i + length values ≤ j → after j ≡ before j

module _ {ℓ} {A : Type ℓ} where
  Writes-nil : (f : ℕ → A) (i : ℕ) → Writes f f i []
  Writes-nil f i = record { written = refl; below = λ j h. refl; above = λ j h. refl }

  Writes-cons :
      {f g : ℕ → A} {i : ℕ} {vs : List A} (v : A)
      → Writes (put f i v) g (i + 1) vs
      → Writes f g i (v ∷ vs)
  Writes-cons {f} {g} {i} {vs} v w = record {
    written = ap₂ ◌∷◌ (w.below i (omega arith) ∙ put_self f i v) w.written;
    below = λ j h. w.below j (omega arith) ∙ put_ne f i v j (omega arith);
    above = λ j h. w.above j (omega arith) ∙ put_ne f i v j (omega arith);
  }

  Writes-append :
      {f g h : ℕ → A} {i k : ℕ} {xs ys : List A}
      → k ≡ i + length xs
      → Writes f g i xs
      → Writes g h k ys
      → Writes f h i (xs ++ ys)
  Writes-append {f} {g} {h} {i} {k} {xs} {ys} e w v = record {
    written = rw (length-append xs ys) (
        slice-append h i (length xs) (length ys) (length xs + length ys) refl
        ∙ ap₂ ◌++◌ (slice_ext h g i (length xs) (λ j p q. v.below j (omega arith)) ∙ w.written)
            (rw (← e) v.written));
    below = λ j p. v.below j (omega arith) ∙ w.below j p;
    above = λ j p.
        let q : k + length ys ≤ j = omega (arith, length-append xs ys) in
        v.above j q ∙ w.above j (omega arith);
  }

  copy_run-Writes :
      (fuel : ℕ) (main : ℕ → A) (from end pos n : ℕ) (tmp : ℕ → A)
      → from + n ≡ end + 1
      → n ≤ fuel
      → ((copy_run fuel main from end pos tmp).0 ≡ pos + n)
        × Writes tmp (copy_run fuel main from end pos tmp).1 pos (slice main from n)
  unfolding copy_run
  copy_run-Writes zero main from end pos zero tmp e h = (omega arith, Writes-nil tmp pos)
  copy_run-Writes zero main from end pos (suc n) tmp e h = absurd (omega arith)
  copy_run-Writes (suc fuel) main from end pos zero tmp e h =
      rw (lt→leb from end (omega arith), copy_run) (omega arith, Writes-nil tmp pos)
  copy_run-Writes (suc fuel) main from end pos (suc n) tmp e h =
      rw (le→leb from end (omega arith), copy_run)
        (let rest =
            copy_run-Writes fuel main (from + 1) end (pos + 1) n (put tmp pos (main from))
              (omega arith) (omega arith) in
          (omega arith, Writes-cons (main from) rest.1))

  -- The copy back leaves the cells outside its range, and takes those inside from the work array.
  copy_back_outside :
      (n right : ℕ) (tmp main : ℕ → A) (i : ℕ)
      → n ≤ right + 1
      → (right < i) ⊎ (i + n ≤ right)
      → copy_back n right tmp main i ≡ main i
  unfolding copy_back
  copy_back_outside zero right tmp main i h o = refl
  copy_back_outside (suc n) right tmp main i h o =
      copy_back_outside n (right - 1) tmp (put main right (tmp right)) i (omega arith) (omega arith)
      ∙ put_ne main right (tmp right) i (omega arith)

  copy_back_inside :
      (n right : ℕ) (tmp main : ℕ → A) (i : ℕ)
      → n ≤ right + 1
      → i ≤ right
      → right < i + n
      → copy_back n right tmp main i ≡ tmp i
  unfolding copy_back
  copy_back_inside zero right tmp main i h p q = absurd (omega arith)
  copy_back_inside (suc n) right tmp main i h p q = elim (ℕ_discrete i right) [
    | yes e ↦
        copy_back_outside n (right - 1) tmp (put main right (tmp right)) i (omega arith)
          (omega arith)
        ∙ rw e (put_self main right (tmp right))
    | no ne ↦
        copy_back_inside n (right - 1) tmp (put main right (tmp right)) i (omega arith)
          (omega arith) (omega arith)
  ]

  copy_back-Writes :
      {filled tmp main : ℕ → A} {vs : List A} (n right left : ℕ)
      → left + n ≡ right + 1
      → length vs ≡ n
      → Writes tmp filled left vs
      → Writes main (copy_back n right filled main) left vs
  copy_back-Writes {filled} {main} n right left e len w = record {
    written =
        slice_ext _ _ left _ (λ j p q.
          copy_back_inside n right filled main j (omega arith) (omega arith) (omega arith))
        ∙ w.written;
    below = λ j p. copy_back_outside n right filled main j (omega arith) (inr (omega arith));
    above = λ j p. copy_back_outside n right filled main j (omega arith) (inl (omega arith));
  }

module _ {ℓ} {A : Type ℓ} (cmp : A → A → ℤ) where
  drain-Writes :
      (fuel : ℕ) (main : ℕ → A) (left_end right left mid pos p q : ℕ) (tmp : ℕ → A)
      → left + p ≡ left_end + 1
      → mid + q ≡ right + 1
      → p + q ≤ fuel
      → Writes tmp
          (drain cmp fuel main left_end right
            (record { left = left; mid = mid; curr_pos = pos; tmp = tmp }))
          pos
          (slice main left p ++ slice main mid q)
  unfolding drain
  drain-Writes fuel main left_end right left mid pos p q tmp el er h =
      let first = copy_run-Writes fuel main left left_end pos p tmp el (omega arith) in
      let next : (copy_run fuel main left left_end pos tmp).0 ≡ pos + length (slice main left p) =
        omega (arith, first.0, length-slice main left p) in
      let last =
        copy_run-Writes fuel main mid right (copy_run fuel main left left_end pos tmp).0 q
          (copy_run fuel main left left_end pos tmp).1 er (omega arith) in
      Writes-append next first.1 last.1

  merge_loop-Writes :
      (fuel rounds : ℕ) (main : ℕ → A) (left_end right left mid pos p q : ℕ) (tmp : ℕ → A)
      → left + p ≡ left_end + 1
      → mid + q ≡ right + 1
      → p + q ≤ fuel
      → p + q ≤ rounds
      → Writes tmp
          (drain cmp rounds main left_end right (
            merge_loop cmp fuel main left_end right
              (record { left = left; mid = mid; curr_pos = pos; tmp = tmp })))
          pos
          (merge (takes_left cmp) (slice main left p) (slice main mid q))
  unfolding merge_loop merge
  merge_loop-Writes zero rounds main le right left mid pos zero zero tmp el er h k =
      drain-Writes rounds main le right left mid pos zero zero tmp el er k
  merge_loop-Writes zero rounds main le right left mid pos (suc p) q tmp el er h k =
      absurd (omega arith)
  merge_loop-Writes zero rounds main le right left mid pos zero (suc q) tmp el er h k =
      absurd (omega arith)
  merge_loop-Writes (suc fuel) rounds main le right left mid pos zero q tmp el er h k =
      rw (lt→leb left le (omega arith), merge_loop)
        (drain-Writes rounds main le right left mid pos zero q tmp el er k)
  merge_loop-Writes (suc fuel) rounds main le right left mid pos (suc p) zero tmp el er h k =
      rw (le→leb left le (omega arith), lt→leb mid right (omega arith), merge_loop)
        (rw (append-nil _) at
          (drain-Writes rounds main le right left mid pos (suc p) zero tmp el er k))
  merge_loop-Writes (suc fuel) rounds main le right left mid pos (suc p) (suc q) tmp el er h k =
      let in_left = le→leb left le (omega arith) in
      let in_right = le→leb mid right (omega arith) in
      elim (Bool-cases (takes_left cmp (main left) (main mid))) [
        | inl e ↦
            rw (in_left, in_right, e, merge_loop, merge-take_left _ _ _ _ _ e)
              (Writes-cons (main left) (
                merge_loop-Writes fuel rounds main le right (left + 1) mid (pos + 1) p (suc q)
                  (put tmp pos (main left)) (omega arith) (omega arith) (omega arith)
                  (omega arith)))
        | inr e ↦
            rw (in_left, in_right, e, merge_loop, merge-take_right _ _ _ _ _ e)
              (Writes-cons (main mid) (
                merge_loop-Writes fuel rounds main le right left (mid + 1) (pos + 1) (suc p) q
                  (put tmp pos (main mid)) (omega arith) (omega arith) (omega arith) (omega arith)))
      ]

  -- `std_merge_sort_merge_arrays` puts the merge of two neighbouring ranges in their place.
  pub merge_arrays-Writes :
      (left mid right p q : ℕ) (s : Arrays A)
      → left + suc p ≡ mid
      → mid + q ≡ right + 1
      → Writes s.main
          (merge_arrays cmp left mid right s).main
          left
          (merge (takes_left cmp) (slice s.main left (suc p)) (slice s.main mid q))
  unfolding merge_arrays
  merge_arrays-Writes left mid right p q s el er =
      copy_back-Writes (right - left + 1) right left (omega arith)
        (omega (
          arith,
          length-merge (takes_left cmp) (slice s.main left (suc p)) (slice s.main mid q),
          length-slice s.main left (suc p),
          length-slice s.main mid q,
        ))
        (merge_loop-Writes (right - left + 1) (right - left + 1) s.main (mid - 1) right left mid
          left (suc p) q s.tmp (omega arith) (omega arith) (omega arith) (omega arith))
