-- ===== src/IntMapping/Tests.antt =====
-- The lookup of src/std_int_mapping_util.c in a table of two rows and two columns.
use sonic_common_utils.Base.{ℕ, ◌≡◌, refl, List, [], ◌∷◌, ◌==◌, if◌then◌else◌}
use sonic_common_utils.Base.Int.{ℤ}
use sonic_common_utils.IntMapping.{std_int_translate}
use sonic_common_utils.IntMapping.Lookup.{FirstWith, std_int_translate-FirstWith}

abbrev rows : List (ℕ → ℤ)
rows =
    (λ c. if c == 0 then ℤ.pos 7 else ℤ.pos 70) ∷ (λ c. if c == 0 then ℤ.pos 0 else ℤ.pos 80) ∷ []

std_int_translate-FirstWith_example :
    FirstWith (ℤ.pos 0) 0 1 rows (std_int_translate (ℤ.pos 7) 0 1 rows)
std_int_translate-FirstWith_example = std_int_translate-FirstWith (ℤ.pos 7) 0 1 rows

-- The row of 7 has 70; the code returns the value of the row of 0.
translated : std_int_translate (ℤ.pos 7) 0 1 rows ≡ ℤ.pos 80
unfolding std_int_translate
translated = refl
