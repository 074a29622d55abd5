-- ===== src/IntMapping.antt =====
-- src/std_int_mapping_util.c: translation between the columns of a table of `int`s.
-- `array_map` is the list of its rows, each a function from column numbers.
pub mod Lookup
mod Tests
use sonic_common_utils.Base.{ℕ, Bool, false, List, [], ◌∷◌, if◌then◌else◌, ◌==◌}
use sonic_common_utils.Base.Int.{ℤ, pos, negsuc}

-- `==` on `int`s.
unfoldable pub equal_int : ℤ → ℤ → Bool
equal_int (pos a) (pos b) = a == b
equal_int (pos a) (negsuc b) = false
equal_int (negsuc a) (pos b) = false
equal_int (negsuc a) (negsuc b) = a == b

-- The loop, by the rows left; like the source it compares with `field` and does not read `from`.
pub std_int_translate : (from : ℤ) (field returned_field : ℕ) → List (ℕ → ℤ) → ℤ
unfolding equal_int
std_int_translate from field returned_field [] = negsuc 0
std_int_translate from field returned_field (row ∷ rows) =
    if equal_int (row field) (pos field)
    then row returned_field
    else std_int_translate from field returned_field rows
