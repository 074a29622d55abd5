-- ===== src/MergeSort.antt =====
-- src/std_mergesort.c: a merge sort on an array that the caller's callbacks compare and copy.
-- The two arrays are functions from indices to elements. `copy_func` is the copy of one element that
-- its contract names; `cmp_func` is the parameter `cmp`. Each loop runs on fuel, one unit a round,
-- and is given the number of elements of the range, which is enough for it to end by its own test.
-- The C indices are `int`: the model leaves out the overflow of `right + left`, which needs more
-- than 2 ^ 30 elements.
pub mod Merging
pub mod Ranges
pub mod Sorting
mod Tests
use sonic_common_utils.Base.{ℕ, zero, suc, ◌+◌, ◌-◌, ◌/◌, Bool, true, false, ◌&&◌, leb, ltb, put}
use sonic_common_utils.Base.Int.{ℤ, is_nonpos}

-- `array` and `tmp_array`.
pub record Arrays {ℓ} (A : Type ℓ) : Type ℓ where
  pub main : ℕ → A
  pub tmp : ℕ → A

-- What the loops of the merge change: the three indices and `tmp_array`.
pub record Cursor {ℓ} (A : Type ℓ) : Type ℓ where
  pub left : ℕ
  pub mid : ℕ
  pub curr_pos : ℕ
  pub tmp : ℕ → A

module _ {ℓ} {A : Type ℓ} where
  -- `while (left <= left_end)`, and with `mid` and `right` the third loop: `curr_pos` and
  -- `tmp_array` after it.
  pub copy_run : ℕ → (ℕ → A) → (from end curr_pos : ℕ) → (ℕ → A) → ℕ × (ℕ → A)
  copy_run zero main from end curr_pos tmp = (curr_pos, tmp)
  copy_run (suc fuel) main from end curr_pos tmp = elim (leb from end) [
    | true ↦ copy_run fuel main (from + 1) end (curr_pos + 1) (put tmp curr_pos (main from))
    | false ↦ (curr_pos, tmp)
  ]

  -- `for (index = 0; index < num_elements; index++)`. After the last round `right` may be -1 in the
  -- source and is 0 here; it is not read again.
  pub copy_back : (num_elements right : ℕ) → (ℕ → A) → (ℕ → A) → ℕ → A
  copy_back zero right tmp main = main
  copy_back (suc n) right tmp main = copy_back n (right - 1) tmp (put main right (tmp right))

module _ {ℓ} {A : Type ℓ} (cmp : A → A → ℤ) where
  -- `cmp_func (context, array, left, array, mid) <= 0`
  abbrev pub takes_left : A → A → Bool
  takes_left a b = is_nonpos (cmp a b)

  -- `while ((left <= left_end) && (mid <= right))`
  pub merge_loop : ℕ → (ℕ → A) → (left_end right : ℕ) → Cursor A → Cursor A
  merge_loop zero main left_end right c = c
  merge_loop (suc fuel) main left_end right c = elim (leb c.left left_end && leb c.mid right) [
    | false ↦ c
    | true ↦ elim (takes_left (main c.left) (main c.mid)) [
      | true ↦ merge_loop fuel main left_end right (record c {
        left = c.left + 1;
        curr_pos = c.curr_pos + 1;
        tmp = put c.tmp c.curr_pos (main c.left);
      })
      | false ↦ merge_loop fuel main left_end right (record c {
        mid = c.mid + 1;
        curr_pos = c.curr_pos + 1;
        tmp = put c.tmp c.curr_pos (main c.mid);
      })
    ]
  ]

  -- The second and the third loop, from where the first one stops.
  pub drain : ℕ → (ℕ → A) → (left_end right : ℕ) → Cursor A → ℕ → A
  drain fuel main left_end right c =
      let (curr_pos, tmp) = copy_run fuel main c.left left_end c.curr_pos c.tmp in
      (copy_run fuel main c.mid right curr_pos tmp).1

  -- `std_merge_sort_merge_arrays`. Its one caller passes `mid > left`, so `mid - 1` is not negative.
  pub merge_arrays : (left mid right : ℕ) → Arrays A → Arrays A
  unfolding merge_loop drain copy_run copy_back put
  merge_arrays left mid right s =
      let left_end = mid - 1 in
      let num_elements = right - left + 1 in
      let start : Cursor A = record { left = left; mid = mid; curr_pos = left; tmp = s.tmp } in
      let c = merge_loop num_elements s.main left_end right start in
      let filled = drain num_elements s.main left_end right c in
      record { main = copy_back num_elements right filled s.main; tmp = filled }

  -- `std_merge_sort_divide_n_sort`, on fuel for the depth of the recursion.
  pub divide_n_sort : ℕ → (left right : ℕ) → Arrays A → Arrays A
  divide_n_sort zero left right s = s
  divide_n_sort (suc fuel) left right s = elim (ltb left right) [
    | false ↦ s
    | true ↦
        let mid = (right + left) / 2 in
        merge_arrays left (mid + 1) right
          (divide_n_sort fuel (mid + 1) right (divide_n_sort fuel left mid s))
  ]

  -- `num_elements - 1` is -1 in the source where `num_elements` is 0, and 0 here: in both cases
  -- `left < right` fails at once.
  pub std_merge_sort : (num_elements : ℕ) → Arrays A → Arrays A
  unfolding divide_n_sort merge_arrays
  std_merge_sort num_elements s = divide_n_sort num_elements 0 (num_elements - 1) s
