-- ===== src/MergeSort/Tests.antt =====
-- The merge sort of src/std_mergesort.c on concrete arrays.
use mathlib.Core.List.{Perm}
use sonic_common_utils.Base.{
  ℕ, ◌≡◌, refl, true, false, List, [], ◌∷◌, arith, ltb, slice, get_or, ◌==◌, if◌then◌else◌,
}
use sonic_common_utils.Base.Int.{ℤ, pos, negsuc}
use sonic_common_utils.MergeSort.{Arrays, takes_left, std_merge_sort}
use sonic_common_utils.MergeSort.Merging.{IsSorted, same_as}
use sonic_common_utils.MergeSort.Sorting.{
  std_merge_sort-perm, std_merge_sort-IsSorted, std_merge_sort-stable,
}

-- Records with a key and a tag; only the keys are compared.
abbrev Row : Type 0
Row = ℕ × ℕ

abbrev by_key : Row → Row → ℤ
by_key a b = if ltb a.0 b.0 then negsuc 0 else if a.0 == b.0 then pos 0 else pos 1

abbrev rows : List Row
rows = (3, 0) ∷ (1, 1) ∷ (3, 2) ∷ (0, 3) ∷ (1, 4) ∷ []

abbrev input : Arrays Row
input = record { main = λ i. get_or rows i (9, 9); tmp = λ i. (0, 0) }

by_key_total : (a b : Row) → takes_left by_key a b ≡ false → takes_left by_key b a ≡ true
by_key_total a b h = ground arith

by_key_trans :
    (a b c : Row)
    → takes_left by_key a b ≡ true
    → takes_left by_key b c ≡ true
    → takes_left by_key a c ≡ true
by_key_trans a b c h k = ground arith

sorted_rows :
    slice (std_merge_sort by_key 5 input).main 0 6
    ≡ (0, 3) ∷ (1, 1) ∷ (1, 4) ∷ (3, 0) ∷ (3, 2) ∷ (9, 9) ∷ []
unfolding std_merge_sort
sorted_rows = refl

std_merge_sort-perm_example :
    Perm (slice input.main 0 5) (slice (std_merge_sort by_key 5 input).main 0 5)
std_merge_sort-perm_example = std_merge_sort-perm by_key 5 input

std_merge_sort-IsSorted_example :
    IsSorted (takes_left by_key) (slice (std_merge_sort by_key 5 input).main 0 5)
std_merge_sort-IsSorted_example = std_merge_sort-IsSorted by_key by_key_total by_key_trans 5 input

std_merge_sort-stable_example :
    same_as (takes_left by_key) (3, 7) (slice (std_merge_sort by_key 5 input).main 0 5)
    ≡ same_as (takes_left by_key) (3, 7) (slice input.main 0 5)
std_merge_sort-stable_example =
    std_merge_sort-stable by_key by_key_total by_key_trans 5 input (3, 7)
