-- ===== src/Radical/Wrap.antt =====
-- `std_radical_procverwrap` of src/std_radical.c: the versions are counted anew.
use mathlib.Core.List.{append_assoc, append-nil}
use sonic_common_utils.Base.{
  ℕ, zero, suc, ◌+◌, ◌%◌, ◌^◌, ◌<◌, ◌≡◌, ◌≢◌, ◌∙◌, refl, sym, ap, subst, put, put_self, put_ne, inl,
  inr, Bool, true, false, some, List, [], ◌∷◌, ◌++◌, length, arith, ne→==, Bool-cases,
  if◌then◌else◌,
}
use sonic_common_utils.Base.Distinct.{NotIn, All-left, All-right}
use sonic_common_utils.Dll.Linked.{IsList}
use sonic_common_utils.Dll.Walk.{
  first_or_null, getfirst-IsList, getnext-IsList, node_ne_null, removed-IsNew, shift_node,
}
use sonic_common_utils.Radical.{Changes, set_version, wrap_loop, std_radical_procverwrap}
use sonic_common_utils.Radical.Versions.{Rising, Rising-snoc}

-- How many of the entries are no markers.
unfoldable pub entries : (ℕ → Bool) → List ℕ → ℕ
entries is_dummy [] = 0
entries is_dummy (y ∷ ys) = if is_dummy y then entries is_dummy ys else 1 + entries is_dummy ys

-- The count at a node, from the one before it: only an entry that is no marker adds to it.
abbrev pub reached : (ℕ → Bool) → (count y : ℕ) → ℕ
reached is_dummy count y = if is_dummy y then count else count + 1

-- Every node of the list has the count at it for a version.
abbrev pub Numbered : (ℕ → Bool) → (version : ℕ → ℕ) → (count : ℕ) → List ℕ → Type 0
Numbered is_dummy version count [] = Unit
Numbered is_dummy version count (y ∷ ys) =
    (version y ≡ reached is_dummy count y) × Numbered is_dummy version (reached is_dummy count y) ys

-- What the loop does to `ys` from a count on: the nodes are numbered, no other version changes, the
-- versions rise up to the one returned, which is the last count, and the marks and the list are as
-- before.
pub record Counted (is_dummy : ℕ → Bool) (old : ℕ → ℕ) (s' : Changes) (start version : ℕ)
    (xs ys : List ℕ) : Type 0 where
  pub numbered : Numbered is_dummy s'.rth_version start ys
  pub others : (x : ℕ) → NotIn x ys → s'.rth_version x ≡ old x
  pub list : IsList s'.clhead s'.links (xs ++ ys)
  pub rising : Rising is_dummy s'.rth_version version (xs ++ ys)
  pub marks : s'.is_dummy ≡ is_dummy
  pub count : version ≡ start + entries is_dummy ys

Counted-step :
    (m : ℕ → Bool) (old : ℕ → ℕ) (s' : Changes) (start start' version : ℕ) (xs ys : List ℕ) (y : ℕ)
    → NotIn y ys
    → start' ≡ reached m start y
    → Counted m (put old y start') s' start' version (xs ++ (y ∷ [])) ys
    → start' + entries m ys ≡ start + entries m (y ∷ ys)
    → Counted m old s' start version xs (y ∷ ys)
Counted-step m old s' start start' version xs ys y new at_y c e =
    let shift = append_assoc xs (y ∷ []) ys in
    record {
      numbered = (
        c.others y new ∙ put_self old y start' ∙ at_y,
        subst (λ n. Numbered m s'.rth_version n ys) at_y c.numbered,
      );
      others = λ x h. c.others x h.1 ∙ put_ne old y start' x h.0;
      list = subst (IsList s'.clhead s'.links) shift c.list;
      rising = subst (Rising m s'.rth_version version) shift c.rising;
      marks = c.marks;
      count = c.count ∙ e;
    }

module _ (s : Changes) (xs : List ℕ) (y : ℕ) (ys : List ℕ)
    (l : IsList s.clhead s.links (xs ++ (y ∷ ys))) where
  not_before : NotIn y xs
  not_before =
      All-left (λ x. x ≢ y) xs (ys ++ (s.clhead.tail ∷ []))
        (subst (NotIn y) (append_assoc xs ys (s.clhead.tail ∷ []))
          (removed-IsNew s.clhead s.links xs ys y l).unused.1)

  not_behind : NotIn y ys
  not_behind =
      All-left (λ x. x ≢ y) ys (s.clhead.tail ∷ [])
        (All-right (λ x. x ≢ y) xs (ys ++ (s.clhead.tail ∷ []))
          (subst (NotIn y) (append_assoc xs ys (s.clhead.tail ∷ []))
            (removed-IsNew s.clhead s.links xs ys y l).unused.1))

  wrap_dummy :
      (fuel version : ℕ)
      → s.is_dummy y ≡ true
      → wrap_loop (suc fuel) s y version
        ≡ wrap_loop fuel (set_version s y version) (first_or_null ys) version
  unfolding wrap_loop
  wrap_dummy fuel version e = rw (
    ne→== y 0 (node_ne_null s.clhead s.links xs ys y l),
    e,
    wrap_loop,
    getnext-IsList s.clhead s.links xs ys y l,
  )

  wrap_entry :
      (fuel version : ℕ)
      → s.is_dummy y ≡ false
      → version + 1 < 2 ^ 64
      → wrap_loop (suc fuel) s y version
        ≡ wrap_loop fuel (set_version s y (version + 1)) (first_or_null ys) (version + 1)
  unfolding wrap_loop
  wrap_entry fuel version e fits =
      let next : (version + 1) % 2 ^ 64 ≡ version + 1 = omega arith in
      rw (
        ne→== y 0 (node_ne_null s.clhead s.links xs ys y l),
        e,
        next,
        wrap_loop,
        getnext-IsList s.clhead s.links xs ys y l,
      )

  shifted : IsList s.clhead s.links ((xs ++ (y ∷ [])) ++ ys)
  shifted = subst (IsList s.clhead s.links) (shift_node s.clhead s.links xs ys y) l

wrap_end : (s : Changes) (fuel version : ℕ) → wrap_loop (suc fuel) s 0 version ≡ some (s, version)
unfolding wrap_loop
wrap_end s fuel version = refl

entries-nil : (m : ℕ → Bool) (n : ℕ) → n ≡ n + entries m []
unfolding entries
entries-nil m n = omega arith

entries-dummy :
    (m : ℕ → Bool) (start y : ℕ) (ys : List ℕ)
    → m y ≡ true
    → start + entries m ys ≡ start + entries m (y ∷ ys)
unfolding entries
entries-dummy m start y ys e = rw e refl

entries-entry :
    (m : ℕ → Bool) (start y : ℕ) (ys : List ℕ)
    → m y ≡ false
    → start + 1 + entries m ys ≡ start + entries m (y ∷ ys)
unfolding entries
entries-entry m start y ys e = rw e (omega arith)

-- The loop from `ys` on ends, if `version` and the entries left fit 64 bits.
wrap_loop-Counted :
    (fuel : ℕ) (s : Changes) (xs ys : List ℕ) (version : ℕ)
    → length ys < fuel
    → version + length ys < 2 ^ 64
    → IsList s.clhead s.links (xs ++ ys)
    → Rising s.is_dummy s.rth_version version xs
    → (s' : Changes) × (v : ℕ) × (wrap_loop fuel s (first_or_null ys) version ≡ some (s', v))
      × Counted s.is_dummy s.rth_version s' version v xs ys
wrap_loop-Counted zero s xs ys version h fits l r = absurd (omega arith)
wrap_loop-Counted (suc fuel) s xs [] version h fits l r = (
  s,
  version,
  wrap_end s fuel version,
  record {
    numbered = tt;
    others = λ x h. refl;
    list = l;
    rising = subst (Rising s.is_dummy s.rth_version version) (sym (append-nil xs)) r;
    marks = refl;
    count = entries-nil s.is_dummy version;
  },
)
wrap_loop-Counted (suc fuel) s xs (y ∷ ys) version h fits l r = elim (Bool-cases (s.is_dummy y)) [
  | inl e ↦
      let (s', v, f, c) =
        wrap_loop-Counted fuel (set_version s y version) (xs ++ (y ∷ [])) ys version (omega arith)
          (omega arith) (shifted s xs y ys l)
          (Rising-snoc s.is_dummy s.rth_version version y version version (omega arith)
            (λ q. absurd (cc)) xs (not_before s xs y ys l) r) in
      (
        s',
        v,
        wrap_dummy s xs y ys l fuel version e ∙ f,
        Counted-step s.is_dummy s.rth_version s' version version v xs ys y (not_behind s xs y ys l)
            (sym (ap (λ b. if b then version else version + 1) e)) c
            (entries-dummy s.is_dummy version y ys e),
      )
  | inr e ↦
      let (s', v, f, c) =
        wrap_loop-Counted fuel (set_version s y (version + 1)) (xs ++ (y ∷ [])) ys (version + 1)
          (omega arith) (omega arith) (shifted s xs y ys l)
          (Rising-snoc s.is_dummy s.rth_version version y (version + 1) (version + 1) (omega arith)
            (λ q. (omega arith, omega arith)) xs (not_before s xs y ys l) r) in
      (
        s',
        v,
        wrap_entry s xs y ys l fuel version e (omega arith) ∙ f,
        Counted-step s.is_dummy s.rth_version s' version (version + 1) v xs ys y
            (not_behind s xs y ys l) (sym (ap (λ b. if b then version else version + 1) e)) c
            (entries-entry s.is_dummy version y ys e),
      )
]

-- On a list whose length fits 64 bits `std_radical_procverwrap` ends. The list is as before, and so is
-- which nodes are markers. Every entry has its position among the entries, counted from 1, for its
-- version, every marker the version of the entry in front of it, or 0 if there is none, and no node
-- outside the list gets another version. The version returned is the number of entries, up to which
-- the versions rise.
pub std_radical_procverwrap-Counted :
    (fuel : ℕ) (s : Changes) (xs : List ℕ)
    → IsList s.clhead s.links xs
    → length xs < fuel
    → length xs < 2 ^ 64
    → (s' : Changes) × (v : ℕ) × (std_radical_procverwrap fuel s ≡ some (s', v))
      × Counted s.is_dummy s.rth_version s' 0 v [] xs
unfolding std_radical_procverwrap
std_radical_procverwrap-Counted fuel s xs l h fits =
    rw (getfirst-IsList s.clhead s.links xs l)
      (wrap_loop-Counted fuel s [] xs 0 h (omega arith) l tt)
