-- ===== src/Radical/Versions.antt =====
-- The versions of the entries of a change list of src/std_radical.c, along the list.
use sonic_common_utils.Base.{
  ℕ, ◌+◌, ◌%◌, ◌^◌, ◌<◌, ◌≤◌, ◌≡◌, ◌≢◌, ◌⊎◌, refl, sym, inl, inr, Bool, true, false, List, [], ◌∷◌,
  ◌++◌, All, arith, if◌then◌else◌, put, put_self, put_ne,
}
use sonic_common_utils.Base.Distinct.{NotIn, All-append, All-left, All-right}
use sonic_common_utils.Dll.{std_dll_remove}
use sonic_common_utils.Dll.Linked.{IsList}
use sonic_common_utils.Dll.Edit.{IsNew, insertatback-IsList, remove-IsList}
use sonic_common_utils.Dll.Walk.{removed-IsNew}
use sonic_common_utils.Radical.{Changes, std_radical_appendtochangelist}

-- The versions of the entries that are no markers rise along the list, up to `top`.
module _ (is_dummy : ℕ → Bool) (version : ℕ → ℕ) where
  abbrev pub BelowAll : ℕ → List ℕ → Type 0
  BelowAll y ys = All (λ z. is_dummy y ≡ false → is_dummy z ≡ false → version y < version z) ys

  abbrev pub Rising : ℕ → List ℕ → Type 0
  Rising top [] = Unit
  Rising top (y ∷ ys) = (is_dummy y ≡ false → version y ≤ top) × BelowAll y ys × Rising top ys

  -- An entry may be taken out.
  pub Rising-drop :
      (top y : ℕ) (xs ys : List ℕ) → Rising top (xs ++ (y ∷ ys)) → Rising top (xs ++ ys)
  Rising-drop top y [] ys r = r.2
  Rising-drop top y (x ∷ xs) ys r =
      let Q : ℕ → Type 0 = (λ z. is_dummy x ≡ false → is_dummy z ≡ false → version x < version z) in
      (
        r.0,
        All-append Q xs ys (All-left Q xs (y ∷ ys) r.1) (All-right Q xs (y ∷ ys) r.1).1,
        Rising-drop top y xs ys r.2,
      )

module _ (is_dummy : ℕ → Bool) (version : ℕ → ℕ) (top rth value top' : ℕ) (up : top ≤ top')
    (fits : is_dummy rth ≡ false → (top < value) × (value ≤ top')) where
  abbrev later : ℕ → ℕ
  later = put version rth value

  abbrev new_version : later rth ≡ value
  new_version = put_self version rth value

  abbrev kept : (z : ℕ) → z ≢ rth → later z ≡ version z
  kept z ne = put_ne version rth value z (λ e. ne (sym e))

  BelowAll-snoc :
      (y : ℕ) (ys : List ℕ)
      → y ≢ rth
      → NotIn rth ys
      → (is_dummy y ≡ false → version y ≤ top)
      → BelowAll is_dummy version y ys
      → BelowAll is_dummy later y (ys ++ (rth ∷ []))
  BelowAll-snoc y [] ne n b r = (
    (λ e f. let low = b e in let high = (fits f).0 in rw (new_version, kept y ne) (omega arith)),
    tt,
  )
  BelowAll-snoc y (z ∷ ys) ne n b r =
      ((λ e f. rw (kept y ne, kept z n.0) (r.0 e f)), BelowAll-snoc y ys ne n.1 b r.1)

  -- An entry behind all others may have a version above the top, and a marker any.
  pub Rising-snoc :
      (ys : List ℕ)
      → NotIn rth ys
      → Rising is_dummy version top ys
      → Rising is_dummy later top' (ys ++ (rth ∷ []))
  Rising-snoc [] n r = ((λ e. rw new_version (fits e).1), tt, tt)
  Rising-snoc (y ∷ ys) n r = (
    (λ e. let h = r.0 e in rw (kept y n.0) (omega arith)),
    BelowAll-snoc y ys n.0 n.1 r.0 r.1,
    Rising-snoc ys n.1 r.2,
  )

-- The list of a table holds `xs`, and the versions of its entries rise along it up to the version of
-- the table.
pub record Versioned (s : Changes) (xs : List ℕ) : Type 0 where
  pub list : IsList s.clhead s.links xs
  pub rising : Rising s.is_dummy s.rth_version s.rtt_version xs

-- `rth` is included, and stands between `xs` and `ys`; or it is not, and is new to the list.
abbrev pub Appendable : Changes → (rth : ℕ) (xs ys : List ℕ) → Type 0
Appendable s rth xs ys =
    ((s.is_included rth ≡ true) × Versioned s (xs ++ (rth ∷ ys)))
    ⊎ ((s.is_included rth ≡ false) × Versioned s (xs ++ ys) × IsNew s.clhead (xs ++ ys) rth)

-- What is left of the list, before `rth` is put at its end.
record Ready (s : Changes) (rth : ℕ) (xs : List ℕ) : Type 0 where
  list : IsList s.clhead (if s.is_included rth then std_dll_remove s.links rth else s.links) xs
  new : IsNew s.clhead xs rth
  rising : Rising s.is_dummy s.rth_version s.rtt_version xs

Appendable-Ready :
    (s : Changes) (rth : ℕ) (xs ys : List ℕ) → Appendable s rth xs ys → Ready s rth (xs ++ ys)
Appendable-Ready s rth xs ys (inl (e, v)) = record {
  list = rw e (remove-IsList s.clhead s.links xs ys rth v.list).0;
  new = removed-IsNew s.clhead s.links xs ys rth v.list;
  rising = Rising-drop s.is_dummy s.rth_version s.rtt_version rth xs ys v.rising;
}
Appendable-Ready s rth xs ys (inr (e, v, n)) = record {
  list = rw e v.list;
  new = n;
  rising = v.rising;
}

-- If the next version fits 64 bits, `std_radical_appendtochangelist` moves an included entry to the
-- end of the list, or puts one there that is not included, marks it as included and gives it the next
-- version: versions still rise along the list, and the entry has the version of the table.
pub std_radical_appendtochangelist-Versioned :
    (s : Changes) (rth : ℕ) (xs ys : List ℕ)
    → Appendable s rth xs ys
    → s.rtt_version + 1 < 2 ^ 64
    → let s' = std_radical_appendtochangelist s rth in
      Versioned s' ((xs ++ ys) ++ (rth ∷ []))
      × (s'.rth_version rth ≡ s.rtt_version + 1)
      × (s'.rtt_version ≡ s.rtt_version + 1)
      × (s'.is_included rth ≡ true)
unfolding std_radical_appendtochangelist
std_radical_appendtochangelist-Versioned s rth xs ys a fits =
    let r = Appendable-Ready s rth xs ys a in
    let next : (s.rtt_version + 1) % 2 ^ 64 ≡ s.rtt_version + 1 = omega arith in
    rw next (
      record {
        list =
            insertatback-IsList s.clhead
              (if s.is_included rth then std_dll_remove s.links rth else s.links) (xs ++ ys) rth
              r.list r.new;
        rising =
            Rising-snoc s.is_dummy s.rth_version s.rtt_version rth (s.rtt_version + 1)
              (s.rtt_version + 1) (omega arith) (λ e. (omega arith, omega arith)) (xs ++ ys)
              (All-left (λ x. x ≢ rth) (xs ++ ys) (s.clhead.tail ∷ []) r.new.unused.1) r.rising;
      },
      put_self s.rth_version rth (s.rtt_version + 1),
      refl,
      put_self s.is_included rth true,
    )
