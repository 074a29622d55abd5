-- ===== src/Radical/Skip.antt =====
-- The searches of src/std_radical.c that pass over the markers of walks.
use sonic_common_utils.Base.{
  ℕ, zero, suc, ◌<◌, ◌≡◌, ◌≢◌, ◌∙◌, refl, ap, subst, inl, inr, Bool, true, false, some, List, [],
  ◌∷◌, ◌++◌, length, arith, ◌==◌, ne→==, Bool-cases, if◌then◌else◌,
}
use sonic_common_utils.Dll.{std_dll_getnext}
use sonic_common_utils.Dll.Linked.{IsList}
use sonic_common_utils.Dll.Walk.{
  first_or_null, getfirst-IsList, getnext-IsList, node_ne_null, shift_node,
}
use sonic_common_utils.Radical.{
  Changes, skip_dummies, std_radical_getfirst, std_radical_getnext, version_loop,
  std_radical_nextversion,
}

-- The first entry that is no marker, null if there is none, and its version, 0 if there is none.
unfoldable pub first_entry : (ℕ → Bool) → List ℕ → ℕ
first_entry is_dummy [] = 0
first_entry is_dummy (y ∷ ys) = if is_dummy y then first_entry is_dummy ys else y

unfoldable pub first_version : (ℕ → Bool) → (ℕ → ℕ) → List ℕ → ℕ
first_version is_dummy version [] = 0
first_version is_dummy version (y ∷ ys) =
    if is_dummy y then first_version is_dummy version ys else version y

module _ (s : Changes) where
  skip_dummies-first_entry :
      (fuel : ℕ) (xs ys : List ℕ)
      → length ys < fuel
      → IsList s.clhead s.links (xs ++ ys)
      → skip_dummies fuel s (first_or_null ys) ≡ some (first_entry s.is_dummy ys)
  unfolding skip_dummies first_entry
  skip_dummies-first_entry zero xs ys h l = absurd (omega arith)
  skip_dummies-first_entry (suc fuel) xs [] h l = refl
  skip_dummies-first_entry (suc fuel) xs (y ∷ ys) h l = elim (Bool-cases (s.is_dummy y)) [
    | inl e ↦
        rw
          (
            ne→== y 0 (node_ne_null s.clhead s.links xs ys y l),
            e,
            skip_dummies,
            getnext-IsList s.clhead s.links xs ys y l,
          )
          (skip_dummies-first_entry fuel (xs ++ (y ∷ [])) ys (omega arith)
            (subst (IsList s.clhead s.links) (shift_node s.clhead s.links xs ys y) l))
    | inr e ↦ rw (ne→== y 0 (node_ne_null s.clhead s.links xs ys y l), e, skip_dummies) refl
  ]

  version_step :
      (fuel y z : ℕ)
      → s.is_dummy y ≡ true
      → std_dll_getnext s.clhead s.links y ≡ z
      → z ≢ 0
      → version_loop (suc fuel) s y ≡ version_loop fuel s z
  unfolding version_loop
  version_step fuel y z e n ne =
      let n0 : (std_dll_getnext s.clhead s.links y == 0) ≡ false =
        ap (λ p. p == 0) n ∙ ne→== z 0 ne in
      rw (e, version_loop, n0) (ap (version_loop fuel s) n)

  version_loop-first_version :
      (fuel : ℕ) (xs ys : List ℕ) (y : ℕ)
      → length (y ∷ ys) < fuel
      → IsList s.clhead s.links (xs ++ (y ∷ ys))
      → version_loop fuel s y ≡ some (first_version s.is_dummy s.rth_version (y ∷ ys))
  unfolding version_loop first_version
  version_loop-first_version zero xs ys y h l = absurd (omega arith)
  version_loop-first_version (suc fuel) xs [] y h l = elim (Bool-cases (s.is_dummy y)) [
    | inl e ↦ rw (e, version_loop, getnext-IsList s.clhead s.links xs [] y l) refl
    | inr e ↦ rw (e, version_loop) refl
  ]
  version_loop-first_version (suc fuel) xs (z ∷ ys) y h l =
      let l' = subst (IsList s.clhead s.links) (shift_node s.clhead s.links xs (z ∷ ys) y) l in
      elim (Bool-cases (s.is_dummy y)) [
        | inl e ↦ rw e (
            version_step fuel y z e (getnext-IsList s.clhead s.links xs (z ∷ ys) y l)
              (node_ne_null s.clhead s.links (xs ++ (y ∷ [])) ys z l')
            ∙ version_loop-first_version fuel (xs ++ (y ∷ [])) ys z (omega arith) l')
        | inr e ↦ rw (e, version_loop) refl
      ]

  -- With more fuel than entries the searches end. `std_radical_getfirst` returns the first entry of
  -- the list that is no marker and `std_radical_getnext` the first such behind a given one, or null;
  -- `std_radical_nextversion` returns the version of the first such from its marker on, or 0.
  pub searches-first_entry :
      (fuel : ℕ) (xs ys : List ℕ) (y : ℕ)
      → IsList s.clhead s.links (xs ++ (y ∷ ys))
      → length (xs ++ (y ∷ ys)) < fuel
      → length (y ∷ ys) < fuel
      → (std_radical_getfirst fuel s ≡ some (first_entry s.is_dummy (xs ++ (y ∷ ys))))
        × (std_radical_getnext fuel s y ≡ some (first_entry s.is_dummy ys))
        × (std_radical_nextversion fuel s y
            ≡ some (first_version s.is_dummy s.rth_version (y ∷ ys)))
  unfolding std_radical_getfirst std_radical_getnext std_radical_nextversion
  searches-first_entry fuel xs ys y l h k =
      let l' = subst (IsList s.clhead s.links) (shift_node s.clhead s.links xs ys y) l in
      (
        rw (getfirst-IsList s.clhead s.links (xs ++ (y ∷ ys)) l)
            (skip_dummies-first_entry fuel [] (xs ++ (y ∷ ys)) h l),
        rw (getnext-IsList s.clhead s.links xs ys y l)
            (skip_dummies-first_entry fuel (xs ++ (y ∷ [])) ys (omega arith) l'),
        version_loop-first_version fuel xs ys y k l,
      )
