-- ===== src/IntMapping/Lookup.antt =====
-- What `std_int_translate` of src/std_int_mapping_util.c looks up.
use sonic_common_utils.Base.{
  ℕ, ◌≡◌, ◌≢◌, ◌⊎◌, refl, ap, inl, inr, Bool-cases, true, false, List, [], ◌∷◌, ◌++◌, ==→eq,
  ==_refl,
}
use sonic_common_utils.Base.Int.{ℤ, pos, negsuc}
use sonic_common_utils.IntMapping.{equal_int, std_int_translate}

-- No row has the value in the column.
abbrev pub Without : (value : ℤ) (field : ℕ) → List (ℕ → ℤ) → Type 0
Without value field [] = Unit
Without value field (row ∷ rows) = (row field ≢ value) × Without value field rows

-- The answer of a lookup of a value: the other column of the first row with it, or -1 without one.
abbrev pub FirstWith :
    (value : ℤ) (field returned_field : ℕ) (rows : List (ℕ → ℤ)) (answer : ℤ) → Type 0
FirstWith value field returned_field rows answer =
    (Without value field rows × (answer ≡ negsuc 0))
    ⊎ ((before : List (ℕ → ℤ)) × (row : ℕ → ℤ) × (after : List (ℕ → ℤ)) × (rows
          ≡ before ++ (row ∷ after))
        × Without value field before
        × (row field ≡ value)
        × (answer ≡ row returned_field))

same_int : (a b : ℤ) → equal_int a b ≡ true → a ≡ b
unfolding equal_int
same_int (pos a) (pos b) e = ap pos (==→eq a b e)
same_int (pos a) (negsuc b) e = absurd (cc)
same_int (negsuc a) (pos b) e = absurd (cc)
same_int (negsuc a) (negsuc b) e = ap negsuc (==→eq a b e)

equal_int_refl : (a : ℤ) → equal_int a a ≡ true
unfolding equal_int
equal_int_refl (pos a) = ==_refl a
equal_int_refl (negsuc a) = ==_refl a

other_int : (a b : ℤ) → equal_int a b ≡ false → a ≢ b
other_int a b e q = let same = equal_int_refl b in absurd (cc)

-- Whatever `from` is, `std_int_translate` looks up the number of the column `field`: it returns the
-- other column of the first row that has that number in the column, and -1 if no row has it.
pub std_int_translate-FirstWith :
    (from : ℤ) (field returned_field : ℕ) (rows : List (ℕ → ℤ))
    → FirstWith
        (pos field)
        field
        returned_field
        rows
        (std_int_translate from field returned_field rows)
unfolding std_int_translate
std_int_translate-FirstWith from field returned_field [] = inl (tt, refl)
std_int_translate-FirstWith from field returned_field (row ∷ rows) =
    elim (Bool-cases (equal_int (row field) (pos field))) [
      | inl e ↦ inr ([], row, rows, refl, tt, same_int (row field) (pos field) e, rw e refl)
      | inr e ↦
          let other = other_int (row field) (pos field) e in
          elim (std_int_translate-FirstWith from field returned_field rows) [
            | inl (none, r) ↦ inl ((other, none), rw e r)
            | inr (before, found, after, split, none, there, r) ↦
                inr (
                  row ∷ before,
                  found,
                  after,
                  ap (λ l. row ∷ l) split,
                  (other, none),
                  there,
                  rw e r,
                )
          ]
    ]
