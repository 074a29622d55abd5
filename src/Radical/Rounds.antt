-- ===== src/Radical/Rounds.antt =====
-- One round of the loop of `std_radical_walkchangelist` of src/std_radical.c, and the reference that the
-- walk is compared with.
use sonic_common_utils.Base.Int.{ℤ}
use sonic_common_utils.Base.{
  ℕ, suc, ◌+◌, ◌-◌, ◌%◌, ◌^◌, ◌≡◌, ◌≢◌, refl, Bool, true, false, Option, some, List, [], ◌∷◌, ◌++◌,
  ne→==, ltb, if◌then◌else◌,
}
use sonic_common_utils.Dll.{
  std_dll_getnext, std_dll_insertatback, std_dll_insertafter, std_dll_insertbefore, std_dll_remove,
}
use sonic_common_utils.Radical.{Changes, set_version, Callback, walk_loop}

-- A callback that notes the entry and returns 0.
abbrev pub note_entry : Callback (List ℕ)
note_entry seen s rth = (seen ++ (rth ∷ []), s, ℤ.pos 0)

-- What a walk does with a list of entries: those that it visits, those that it passes, which are the
-- visited ones and the markers between them, and the rest, from the first entry with a version above
-- `max_ver` on.
module _ (is_dummy : ℕ → Bool) (version : ℕ → ℕ) (max_ver : ℕ) where
  unfoldable pub walked : List ℕ → List ℕ × List ℕ × List ℕ
  walked [] = ([], [], [])
  walked (y ∷ ys) =
      let (v, p, r) = walked ys in
      if is_dummy y
      then (v, y ∷ p, r)
      else (if ltb max_ver (version y) then ([], [], y ∷ ys) else (y ∷ v, y ∷ p, r))

  abbrev pub visited : List ℕ → List ℕ
  visited ys = (walked ys).0

  abbrev pub passed : List ℕ → List ℕ
  passed ys = (walked ys).1

  abbrev pub rest : List ℕ → List ℕ
  rest ys = (walked ys).2

  pub walked-nil : walked [] ≡ ([], [], [])
  unfolding walked
  walked-nil = refl

  pub walked-dummy :
      (y : ℕ) (ys : List ℕ)
      → is_dummy y ≡ true
      → walked (y ∷ ys) ≡ (visited ys, y ∷ passed ys, rest ys)
  unfolding walked
  walked-dummy y ys e = rw e

  pub walked-stop :
      (y : ℕ) (ys : List ℕ)
      → is_dummy y ≡ false
      → ltb max_ver (version y) ≡ true
      → walked (y ∷ ys) ≡ ([], [], y ∷ ys)
  unfolding walked
  walked-stop y ys e f = rw (e, f)

  pub walked-visit :
      (y : ℕ) (ys : List ℕ)
      → is_dummy y ≡ false
      → ltb max_ver (version y) ≡ false
      → walked (y ∷ ys) ≡ (y ∷ visited ys, y ∷ passed ys, rest ys)
  unfolding walked
  walked-visit y ys e f = rw (e, f)

module _ (dummy max_ver : ℕ) where
  abbrev pub loop : ℕ → List ℕ → Changes → (rth maxnodes : ℕ) → ℤ → Option (List ℕ × Changes × ℤ)
  loop fuel seen s rth maxnodes ret =
      walk_loop note_entry dummy max_ver fuel seen s rth maxnodes ret

  pub loop_end :
      (fuel : ℕ) (seen : List ℕ) (s : Changes) (m : ℕ)
      → loop (suc fuel) seen s 0 m (ℤ.pos 0)
        ≡ some (
          seen,
          record (set_version s dummy s.rtt_version) {
            links = std_dll_insertatback s.clhead s.links dummy;
          },
          ℤ.pos 0,
        )
  unfolding walk_loop
  loop_end fuel seen s m = refl

  pub loop_dummy :
      (fuel : ℕ) (seen : List ℕ) (s : Changes) (y m : ℕ)
      → y ≢ 0
      → s.is_dummy y ≡ true
      → loop (suc fuel) seen s y m (ℤ.pos 0)
        ≡ loop fuel seen s (std_dll_getnext s.clhead s.links y) m (ℤ.pos 0)
  unfolding walk_loop
  loop_dummy fuel seen s y m ne e = rw (ne→== y 0 ne, e, walk_loop)

  pub loop_stop :
      (fuel : ℕ) (seen : List ℕ) (s : Changes) (y m : ℕ)
      → y ≢ 0
      → s.is_dummy y ≡ false
      → ltb max_ver (s.rth_version y) ≡ true
      → loop (suc fuel) seen s y m (ℤ.pos 0)
        ≡ some (
          seen,
          record (set_version s dummy max_ver) { links = std_dll_insertbefore s.links y dummy },
          ℤ.pos 0,
        )
  unfolding walk_loop
  loop_stop fuel seen s y m ne e f = rw (ne→== y 0 ne, e, f, walk_loop)

  -- The state after a visit, with the marker behind the entry, and then taken out.
  abbrev pub marked : Changes → ℕ → Changes
  marked s y = record (set_version s dummy (s.rth_version y)) {
    links = std_dll_insertafter s.links y dummy;
  }

  abbrev pub taken : Changes → ℕ → Changes
  taken s y = record (marked s y) { links = std_dll_remove (marked s y).links dummy }

  pub loop_visit :
      (fuel : ℕ) (seen : List ℕ) (s : Changes) (y m : ℕ)
      → y ≢ 0
      → s.is_dummy y ≡ false
      → ltb max_ver (s.rth_version y) ≡ false
      → (m + 2 ^ 32 - 1) % 2 ^ 32 ≢ 0
      → loop (suc fuel) seen s y m (ℤ.pos 0)
        ≡ loop fuel
            (seen ++ (y ∷ []))
            (taken s y)
            (std_dll_getnext s.clhead (marked s y).links dummy)
            ((m + 2 ^ 32 - 1) % 2 ^ 32)
            (ℤ.pos 0)
  unfolding walk_loop
  loop_visit fuel seen s y m ne e f q =
      rw (ne→== y 0 ne, e, f, ne→== ((m + 2 ^ 32 - 1) % 2 ^ 32) 0 q, walk_loop)
