-- ===== src/Tlv/Nested.antt =====
-- `std_tlv_efind` of sonic/std_tlv.h: records inside records, by a path of tags.
use mathlib.Core.Option
use sonic_common_utils.Base.{
  ℕ, ◌+◌, ◌/◌, ◌≤◌, ◌<◌, ◌≡◌, ◌≢◌, refl, ◌∙◌, ◌⊎◌, inl, inr, true, false, some, List, [], ◌∷◌,
  arith, ◌==◌, ne→==,
}
use sonic_common_utils.Tlv.{
  hdr_len, std_tlv_len, std_tlv_tag, std_tlv_data, std_tlv_find_next, efind_loop, std_tlv_efind,
}
use sonic_common_utils.Tlv.Find.{LenFits, std_tlv_find_next-InBuffer}

abbrev pub last_tag : ℕ → List ℕ → ℕ
last_tag tag [] = tag
last_tag tag (next ∷ tags) = last_tag next tags

module _ (mem : ℕ → ℕ) where
  -- What a search by a path may return: null and `*dlen` as it was, or a record with the last tag of
  -- the path that stands inside the buffer.
  abbrev pub Reached : (p len dlen tag : ℕ) → ℕ × ℕ → Type 0
  Reached p len dlen tag r =
      (r ≡ (0, dlen))
      ⊎ ((p ≤ r.0)
          × (r.0 + r.1 ≤ p + len)
          × (std_tlv_len mem r.0 + hdr_len ≤ r.1)
          × (std_tlv_tag mem r.0 ≡ tag))

  module _ (fuel dlen : ℕ) where
    loop_missing :
        (p len tag : ℕ) (tags : List ℕ) (r : ℕ × ℕ)
        → std_tlv_find_next fuel mem p len tag ≡ some r
        → (r.0 == 0) ≡ true
        → efind_loop fuel mem p len dlen (tag ∷ tags) ≡ some (0, dlen)
    unfolding efind_loop Option.bind
    loop_missing p len tag [] r e f = rw (e, f)
    loop_missing p len tag (next ∷ tags) r e f = rw (e, Option.bind, f)

    loop_last :
        (p len tag : ℕ) (r : ℕ × ℕ)
        → std_tlv_find_next fuel mem p len tag ≡ some r
        → (r.0 == 0) ≡ false
        → efind_loop fuel mem p len dlen (tag ∷ []) ≡ some r
    unfolding efind_loop Option.bind
    loop_last p len tag r e f = rw (e, f)

    loop_inner :
        (p len tag next : ℕ) (tags : List ℕ) (r : ℕ × ℕ)
        → std_tlv_find_next fuel mem p len tag ≡ some r
        → (r.0 == 0) ≡ false
        → efind_loop fuel mem p len dlen (tag ∷ next ∷ tags)
          ≡ efind_loop fuel mem (std_tlv_data r.0) (std_tlv_len mem r.0) dlen (next ∷ tags)
    unfolding efind_loop Option.bind
    loop_inner p len tag next tags r e f = rw (e, Option.bind, f)

    efind_loop-Reached :
        (p len tag : ℕ) (tags : List ℕ)
        → ((q : ℕ) → p ≤ q → q ≤ p + len → LenFits mem q)
        → len / 16 < fuel
        → p ≢ 0
        → (r : ℕ × ℕ) × (efind_loop fuel mem p len dlen (tag ∷ tags) ≡ some r)
          × Reached p len dlen (last_tag tag tags) r
    unfolding std_tlv_data
    efind_loop-Reached p len tag [] fits h ne =
        let (r, e, b) = std_tlv_find_next-InBuffer mem tag fuel p len fits h ne in
        elim b [
          | inl z ↦ ((0, dlen), loop_missing p len tag [] r e (rw z), inl refl)
          | inr (q, w, l, t) ↦
              (r, loop_last p len tag r e (ne→== r.0 0 (omega arith)), inr (q, omega arith, l, t))
        ]
    efind_loop-Reached p len tag (next ∷ tags) fits h ne =
        let (r, e, b) = std_tlv_find_next-InBuffer mem tag fuel p len fits h ne in
        elim b [
          | inl z ↦ ((0, dlen), loop_missing p len tag (next ∷ tags) r e (rw z), inl refl)
          | inr (q, w, l, t) ↦
              let (r', e', b') =
                efind_loop-Reached (std_tlv_data r.0) (std_tlv_len mem r.0) next tags
                  (λ x y z. fits x (omega arith) (omega arith)) (omega arith) (omega arith) in
              (
                r',
                loop_inner p len tag next tags r e (ne→== r.0 0 (omega arith)) ∙ e',
                elim b' [
                  | inl z ↦ inl z
                  | inr (q', w', l', t') ↦ inr (omega arith, omega arith, l', t')
                ],
              )
        ]

  -- If no address of the buffer or right behind it holds a length that wraps with the header,
  -- `std_tlv_efind` by a path of at least one tag ends, with one unit of fuel for every 16 bytes and
  -- one more, and returns null with `*dlen` unchanged, or a record with the last tag of the path that
  -- lies in the buffer as a whole.
  pub std_tlv_efind-Reached :
      (fuel p dlen tag : ℕ) (tags : List ℕ)
      → ((q : ℕ) → p ≤ q → q ≤ p + dlen → LenFits mem q)
      → dlen / 16 < fuel
      → p ≢ 0
      → (r : ℕ × ℕ) × (std_tlv_efind fuel mem p dlen (tag ∷ tags) ≡ some r)
        × Reached p dlen dlen (last_tag tag tags) r
  unfolding std_tlv_efind
  std_tlv_efind-Reached fuel p dlen tag tags fits h ne =
      efind_loop-Reached fuel dlen p dlen tag tags fits h ne
