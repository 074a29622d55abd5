-- ===== src/Radical/Walk.antt =====
-- `std_radical_walkchangelist` of src/std_radical.c: which entries a walk visits, and where it leaves
-- its marker.
use mathlib.Core.List.{append_assoc, append-nil}
use sonic_common_utils.Base.Int.{ℤ}
use sonic_common_utils.Base.{
  ℕ, zero, suc, ◌+◌, ◌-◌, ◌%◌, ◌^◌, ◌<◌, ◌≡◌, ◌≢◌, refl, sym, ap, ◌∙◌, subst, inl, inr, Bool, true,
  false, Option, some, List, [], ◌∷◌, ◌++◌, All, length, arith, ◌==◌, ltb, Bool-cases,
  if◌then◌else◌, put, put_ne,
}
use sonic_common_utils.Base.Distinct.{NotIn, All-left, All-right}
use sonic_common_utils.Dll.{
  Head, std_dll_getnext, std_dll_insertatback, std_dll_insertbefore, std_dll_remove,
}
use sonic_common_utils.Dll.Linked.{IsList}
use sonic_common_utils.Dll.Edit.{
  IsNew, insertafter-IsList, insertbefore-IsList, insertatback-IsList, remove-IsList,
}
use sonic_common_utils.Dll.Walk.{
  first_or_null, getnext-IsList, node_ne_null, removed-IsNew, shift_node,
}
use sonic_common_utils.Radical.{Changes, set_version, std_radical_walkchangelist}
use sonic_common_utils.Radical.Rounds.{
  note_entry, walked, visited, passed, rest, walked-nil, walked-dummy, walked-stop, walked-visit,
  loop, loop_end, loop_dummy, loop_stop, loop_visit, marked, taken,
}

All-same : (f : ℕ → ℕ) (ys : List ℕ) → All (λ y. f y ≡ f y) ys
All-same f [] = tt
All-same f (y ∷ ys) = (refl, All-same f ys)

module _ (is_dummy : ℕ → Bool) (version : ℕ → ℕ) (dummy max_ver : ℕ) where
  -- A state whose entries `ys` have the versions and the marks of the reference.
  pub record Agrees (s : Changes) (ys : List ℕ) : Type 0 where
    pub marks : s.is_dummy ≡ is_dummy
    pub versions : All (λ y. s.rth_version y ≡ version y) ys

  -- The outcome of a walk that has `seen` behind it, `xs` in front of it, and what `walked` says of
  -- the entries that follow.
  abbrev pub Done :
      Head → (seen xs : List ℕ) → List ℕ × List ℕ × List ℕ → Option (List ℕ × Changes × ℤ) → Type 0
  Done d seen xs w r =
      (s : Changes) × (r ≡ some (seen ++ w.0, s, ℤ.pos 0))
      × IsList d s.links (xs ++ (w.1 ++ (dummy ∷ w.2)))

  -- The rest of a walk behind one more entry that is passed.
  Done-cons :
      (d : Head) (seen xs : List ℕ) (y : ℕ) (v p r : List ℕ) (o : Option (List ℕ × Changes × ℤ))
      → Done d (seen ++ (y ∷ [])) (xs ++ (y ∷ [])) (v, p, r) o
      → Done d seen xs (y ∷ v, y ∷ p, r) o
  Done-cons d seen xs y v p r o (s, e, l) = (
    s,
    e ∙ ap (λ zs. some (zs, s, ℤ.pos 0)) (append_assoc seen (y ∷ []) v),
    subst (IsList d s.links) (append_assoc xs (y ∷ []) (p ++ (dummy ∷ r))) l,
  )

  Done-pass :
      (d : Head) (seen xs : List ℕ) (y : ℕ) (v p r : List ℕ) (o : Option (List ℕ × Changes × ℤ))
      → Done d seen (xs ++ (y ∷ [])) (v, p, r) o
      → Done d seen xs (v, y ∷ p, r) o
  Done-pass d seen xs y v p r o (s, e, l) =
      (s, e, subst (IsList d s.links) (append_assoc xs (y ∷ []) (p ++ (dummy ∷ r))) l)

  -- A visit of `y` leaves the list as it was, and the next entry is the one behind `y`.
  visit-IsList :
      (s : Changes) (xs ys : List ℕ) (y : ℕ)
      → IsList s.clhead s.links (xs ++ (y ∷ ys))
      → IsNew s.clhead (xs ++ (y ∷ ys)) dummy
      → (std_dll_getnext s.clhead (marked dummy max_ver s y).links dummy ≡ first_or_null ys)
        × IsList s.clhead (taken dummy max_ver s y).links ((xs ++ (y ∷ [])) ++ ys)
  visit-IsList s xs ys y l n =
      let l' =
        subst (IsList s.clhead (marked dummy max_ver s y).links)
          (shift_node s.clhead s.links xs (dummy ∷ ys) y)
          (insertafter-IsList s.clhead s.links xs ys y dummy l n) in
      (
        getnext-IsList s.clhead (marked dummy max_ver s y).links (xs ++ (y ∷ [])) ys dummy l',
        (remove-IsList s.clhead (marked dummy max_ver s y).links (xs ++ (y ∷ [])) ys dummy l').0,
      )

  taken-Agrees :
      (s : Changes) (y : ℕ) (ys : List ℕ)
      → NotIn dummy ys
      → Agrees s (y ∷ ys)
      → Agrees (taken dummy max_ver s y) ys
  taken-Agrees s y ys n a = record { marks = a.marks; versions = kept ys n a.versions.1 }
    where
      kept :
          (zs : List ℕ)
          → NotIn dummy zs
          → All (λ z. s.rth_version z ≡ version z) zs
          → All (λ z. put s.rth_version dummy (s.rth_version y) z ≡ version z) zs
      kept [] n a = tt
      kept (z ∷ zs) n a =
          (put_ne s.rth_version dummy (s.rth_version y) z (λ e. n.0 (sym e)) ∙ a.0, kept zs n.1 a.1)

  -- The walk stands between `xs` and `ys`, with its marker out of the list.
  pub record Between (s : Changes) (xs ys : List ℕ) : Type 0 where
    pub list : IsList s.clhead s.links (xs ++ ys)
    pub new : IsNew s.clhead (xs ++ ys) dummy
    pub agrees : Agrees s ys

  Between-pass :
      (s : Changes) (xs ys : List ℕ) (y : ℕ) → Between s xs (y ∷ ys) → Between s (xs ++ (y ∷ [])) ys
  Between-pass s xs ys y b =
      let e = shift_node s.clhead s.links xs ys y in
      record {
        list = subst (IsList s.clhead s.links) e b.list;
        new = subst (λ zs. IsNew s.clhead zs dummy) e b.new;
        agrees = record { marks = b.agrees.marks; versions = b.agrees.versions.1 };
      }

  NotIn-behind : (d : Head) (xs ys : List ℕ) → IsNew d (xs ++ ys) dummy → NotIn dummy ys
  NotIn-behind d xs ys n =
      All-right (λ x. x ≢ dummy) xs ys
        (All-left (λ x. x ≢ dummy) (xs ++ ys) (d.tail ∷ []) n.unused.1)

  Between-visit :
      (s : Changes) (xs ys : List ℕ) (y : ℕ)
      → Between s xs (y ∷ ys)
      → Between (taken dummy max_ver s y) (xs ++ (y ∷ [])) ys
  Between-visit s xs ys y b = record {
    list = (visit-IsList s xs ys y b.list b.new).1;
    new = subst (λ zs. IsNew s.clhead zs dummy) (shift_node s.clhead s.links xs ys y) b.new;
    agrees = taken-Agrees s y ys (NotIn-behind s.clhead xs (y ∷ ys) b.new).1 b.agrees;
  }

  abbrev reference : List ℕ → List ℕ × List ℕ × List ℕ
  reference ys = walked is_dummy version max_ver ys

  -- `o` ends as the reference says of `ys`.
  abbrev pub Ends : (s : Changes) (seen xs ys : List ℕ) → Option (List ℕ × Changes × ℤ) → Type 0
  Ends s seen xs ys o = Done s.clhead seen xs (reference ys) o

  abbrev round : ℕ → List ℕ → Changes → ℕ → ℕ → Option (List ℕ × Changes × ℤ)
  round fuel seen s rth m = loop dummy max_ver fuel seen s rth m (ℤ.pos 0)

  Ends-nil :
      (fuel : ℕ) (seen xs : List ℕ) (s : Changes) (m : ℕ)
      → Between s xs []
      → Ends s seen xs [] (round (suc fuel) seen s 0 m)
  Ends-nil fuel seen xs s m b =
      rw
        (walked-nil is_dummy version max_ver, loop_end dummy max_ver fuel seen s m, append-nil seen)
        (
          record (set_version s dummy s.rtt_version) {
            links = std_dll_insertatback s.clhead s.links dummy;
          },
          refl,
          insertatback-IsList s.clhead s.links xs dummy
              (subst (IsList s.clhead s.links) (append-nil xs) b.list)
              (subst (λ zs. IsNew s.clhead zs dummy) (append-nil xs) b.new),
        )

  module _ (fuel : ℕ) (seen xs : List ℕ) (s : Changes) (y : ℕ) (ys : List ℕ) (m : ℕ)
      (b : Between s xs (y ∷ ys)) where
    not_null : y ≢ 0
    not_null = node_ne_null s.clhead s.links xs ys y b.list

    behind_y : std_dll_getnext s.clhead s.links y ≡ first_or_null ys
    behind_y = getnext-IsList s.clhead s.links xs ys y b.list

    mark_of : s.is_dummy y ≡ is_dummy y
    mark_of = ap (λ f. f y) b.agrees.marks

    Ends-dummy :
        is_dummy y ≡ true
        → Ends s seen (xs ++ (y ∷ [])) ys (round fuel seen s (first_or_null ys) m)
        → Ends s seen xs (y ∷ ys) (round (suc fuel) seen s y m)
    Ends-dummy e done =
        rw
          (
            walked-dummy is_dummy version max_ver y ys e,
            loop_dummy dummy max_ver fuel seen s y m not_null (mark_of ∙ e),
            behind_y,
          )
          (Done-pass s.clhead seen xs y (reference ys).0 (reference ys).1 (reference ys).2
            (round fuel seen s (first_or_null ys) m) done)

    Ends-stop :
        is_dummy y ≡ false
        → ltb max_ver (version y) ≡ true
        → Ends s seen xs (y ∷ ys) (round (suc fuel) seen s y m)
    Ends-stop e f =
        let above : ltb max_ver (s.rth_version y) ≡ true =
          ap (ltb max_ver) b.agrees.versions.0 ∙ f in
        rw
          (
            walked-stop is_dummy version max_ver y ys e f,
            loop_stop dummy max_ver fuel seen s y m not_null (mark_of ∙ e) above,
            append-nil seen,
          )
          (
            record (set_version s dummy max_ver) { links = std_dll_insertbefore s.links y dummy },
            refl,
            insertbefore-IsList s.clhead s.links xs ys y dummy b.list b.new,
          )

    Ends-visit :
        is_dummy y ≡ false
        → ltb max_ver (version y) ≡ false
        → 1 < m
        → m < 2 ^ 32
        → Ends s
            (seen ++ (y ∷ []))
            (xs ++ (y ∷ []))
            ys
            (round fuel (seen ++ (y ∷ [])) (taken dummy max_ver s y) (first_or_null ys) (m - 1))
        → Ends s seen xs (y ∷ ys) (round (suc fuel) seen s y m)
    Ends-visit e f n w done =
        let below : ltb max_ver (s.rth_version y) ≡ false =
          ap (ltb max_ver) b.agrees.versions.0 ∙ f in
        let left : (m + 2 ^ 32 - 1) % 2 ^ 32 ≡ m - 1 = omega arith in
        let more : (m + 2 ^ 32 - 1) % 2 ^ 32 ≢ 0 = omega arith in
        rw
          (
            walked-visit is_dummy version max_ver y ys e f,
            loop_visit dummy max_ver fuel seen s y m not_null (mark_of ∙ e) below more,
            left,
            (visit-IsList s xs ys y b.list b.new).0,
          )
          (Done-cons s.clhead seen xs y (reference ys).0 (reference ys).1 (reference ys).2
            (round fuel (seen ++ (y ∷ [])) (taken dummy max_ver s y) (first_or_null ys) (m - 1))
            done)

  -- From any place in the list the loop ends as the reference says.
  pub loop-Ends :
      (fuel : ℕ) (seen xs ys : List ℕ) (s : Changes) (m : ℕ)
      → length ys < fuel
      → length ys < m
      → m < 2 ^ 32
      → Between s xs ys
      → Ends s seen xs ys (round fuel seen s (first_or_null ys) m)
  loop-Ends zero seen xs ys s m h n w b = absurd (omega arith)
  loop-Ends (suc fuel) seen xs [] s m h n w b = Ends-nil fuel seen xs s m b
  loop-Ends (suc fuel) seen xs (y ∷ ys) s m h n w b = elim (Bool-cases (is_dummy y)) [
    | inl e ↦ Ends-dummy fuel seen xs s y ys m b e (
        loop-Ends fuel seen (xs ++ (y ∷ [])) ys s m (omega arith) (omega arith) w
          (Between-pass s xs ys y b))
    | inr e ↦ elim (Bool-cases (ltb max_ver (version y))) [
      | inl f ↦ Ends-stop fuel seen xs s y ys m b e f
      | inr f ↦ Ends-visit fuel seen xs s y ys m b e f (omega arith) w (
          loop-Ends fuel (seen ++ (y ∷ [])) (xs ++ (y ∷ [])) ys (taken dummy max_ver s y) (m - 1)
            (omega arith) (omega arith) (omega arith) (Between-visit s xs ys y b))
    ]
  ]

-- The limit that `std_radical_walkchangelist` takes for `maxnodes`.
abbrev pub limit : ℕ → ℕ
limit maxnodes = if maxnodes == 0 then 0xffffffff else maxnodes

-- If the list holds the marker `dummy` with `ys` behind it, fewer of them than `maxnodes` allows, and
-- the callback notes each entry and returns 0, the walk ends: it visits once and in order every entry
-- of `ys` that is no marker, up to the first with a version above `max_ver`, where a version that is
-- `max_ver` itself is not above it, and leaves the marker behind all that it passed, with every other
-- node in its place.
pub std_radical_walkchangelist-walked :
    (s : Changes) (xs ys : List ℕ) (dummy max_ver fuel maxnodes : ℕ)
    → IsList s.clhead s.links (xs ++ (dummy ∷ ys))
    → length ys < fuel
    → length ys < limit maxnodes
    → maxnodes < 2 ^ 32
    → (s' : Changes) × (std_radical_walkchangelist note_entry dummy max_ver fuel [] s maxnodes
        ≡ some (visited s.is_dummy s.rth_version max_ver ys, s', ℤ.pos 0))
      × IsList s.clhead s'.links (
          xs
          ++ (passed s.is_dummy s.rth_version max_ver ys
              ++ (dummy ∷ rest s.is_dummy s.rth_version max_ver ys)))
unfolding std_radical_walkchangelist
std_radical_walkchangelist-walked s xs ys dummy max_ver fuel maxnodes l enough room w =
    rw (getnext-IsList s.clhead s.links xs ys dummy l) (
      loop-Ends s.is_dummy s.rth_version dummy max_ver fuel [] xs ys
        (record s { links = std_dll_remove s.links dummy }) (limit maxnodes) enough room
        (ground arith)
        (record {
          list = (remove-IsList s.clhead s.links xs ys dummy l).0;
          new = removed-IsNew s.clhead s.links xs ys dummy l;
          agrees = record { marks = refl; versions = All-same s.rth_version ys };
        }))
