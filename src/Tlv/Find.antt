-- ===== src/Tlv/Find.antt =====
-- `std_tlv_find_next` of sonic/std_tlv.h: what it finds, and that it ends inside the buffer.
use sonic_common_utils.Base.{
  ℕ, zero, suc, ◌+◌, ◌-◌, ◌/◌, ◌^◌, ◌≤◌, ◌<◌, ◌≡◌, ◌≢◌, refl, ap, ◌∙◌, subst, ◌⊎◌, inl, inr, true,
  false, some, List, [], ◌∷◌, length, arith, ◌==◌, leb, le→leb, ge→ltb, leb→le, leb→gt, ==→eq,
  ne→==, Bool-cases, if◌then◌else◌,
}
use sonic_common_utils.Tlv.{
  hdr_len, add64, std_tlv_len, std_tlv_tag, std_tlv_total_len, std_tlv_valid, std_tlv_next,
  std_tlv_find_next,
}
use sonic_common_utils.Tlv.Add.{Item}
use sonic_common_utils.Tlv.Chain.{size, Stored}

-- The reference: the first record with the tag, and the bytes from it to the end of the buffer;
-- null if there is none.
unfoldable pub first_with : ℕ → (p dlen : ℕ) → List Item → ℕ × ℕ
first_with tag p dlen [] = (0, dlen)
first_with tag p dlen (t ∷ ts) =
    if t.tag == tag
    then (p, dlen)
    else first_with tag (p + (t.len + hdr_len)) (dlen - (t.len + hdr_len)) ts

module _ (mem : ℕ → ℕ) where
  -- A header whose length leaves room for the header in 64 bits.
  abbrev pub LenFits : ℕ → Type 0
  LenFits p = std_tlv_len mem p + hdr_len < 2 ^ 64

  total_len-LenFits : (p : ℕ) → LenFits p → std_tlv_total_len mem p ≡ std_tlv_len mem p + hdr_len
  unfolding std_tlv_total_len add64
  total_len-LenFits p h = omega arith

  valid_room :
      (p dlen : ℕ)
      → p ≢ 0
      → LenFits p
      → std_tlv_len mem p + hdr_len ≤ dlen
      → std_tlv_valid mem p dlen ≡ true
  unfolding std_tlv_valid
  valid_room p dlen ne f h =
      rw (total_len-LenFits p f, ne→== p 0 ne, le→leb (std_tlv_len mem p + hdr_len) dlen h)

  valid_no_room :
      (p dlen : ℕ)
      → p ≢ 0
      → LenFits p
      → dlen < std_tlv_len mem p + hdr_len
      → std_tlv_valid mem p dlen ≡ false
  unfolding std_tlv_valid
  valid_no_room p dlen ne f h = rw (total_len-LenFits p f, ne→== p 0 ne) (ground arith)

  next_room :
      (p dlen : ℕ)
      → p ≢ 0
      → LenFits p
      → std_tlv_len mem p + hdr_len ≤ dlen
      → std_tlv_next mem p dlen
        ≡ (p + (std_tlv_len mem p + hdr_len), dlen - (std_tlv_len mem p + hdr_len))
  unfolding std_tlv_next
  next_room p dlen ne f h =
      rw (total_len-LenFits p f, ne→== p 0 ne, ge→ltb dlen (std_tlv_len mem p + hdr_len) h)

  module _ (tag : ℕ) where
    find_invalid :
        (fuel p dlen : ℕ)
        → std_tlv_valid mem p dlen ≡ false
        → std_tlv_find_next (suc fuel) mem p dlen tag ≡ some (0, dlen)
    unfolding std_tlv_find_next
    find_invalid fuel p dlen e = rw (e, std_tlv_find_next)

    find_here :
        (fuel p dlen : ℕ)
        → std_tlv_valid mem p dlen ≡ true
        → (std_tlv_tag mem p == tag) ≡ true
        → std_tlv_find_next (suc fuel) mem p dlen tag ≡ some (p, dlen)
    unfolding std_tlv_find_next
    find_here fuel p dlen e f = rw (e, f, std_tlv_find_next)

    find_on :
        (fuel p dlen q rest : ℕ)
        → std_tlv_valid mem p dlen ≡ true
        → (std_tlv_tag mem p == tag) ≡ false
        → std_tlv_next mem p dlen ≡ (q, rest)
        → q ≢ 0
        → std_tlv_find_next (suc fuel) mem p dlen tag ≡ std_tlv_find_next fuel mem q rest tag
    unfolding std_tlv_find_next
    find_on fuel p dlen q rest e f g ne =
        rw (e, f, g, ne→== q 0 ne, std_tlv_find_next)
          (ap (λ r. std_tlv_find_next fuel mem r.0 r.1 tag) g)

    -- On a buffer that holds records and nothing else, `std_tlv_find_next` ends and finds the first
    -- one with the tag, with the bytes left from there, or null. The 16 bytes behind the buffer,
    -- which it reads as a header too, must not hold a length that wraps with the header.
    pub std_tlv_find_next-first_with :
        (fuel p dlen : ℕ) (ts : List Item)
        → length ts < fuel
        → p ≢ 0
        → Stored mem p ts
        → dlen ≡ size ts
        → dlen + hdr_len < 2 ^ 64
        → LenFits (p + dlen)
        → std_tlv_find_next fuel mem p dlen tag ≡ some (first_with tag p dlen ts)
    unfolding first_with size
    std_tlv_find_next-first_with zero p dlen ts h ne s e k f = absurd (omega arith)
    std_tlv_find_next-first_with (suc fuel) p dlen [] h ne s e k f =
        let at_end : p + dlen ≡ p = omega arith in
        let fits = subst LenFits at_end f in
        find_invalid fuel p dlen (valid_no_room p dlen ne fits (omega arith))
    std_tlv_find_next-first_with (suc fuel) p dlen (t ∷ ts) h ne s e k f =
        let len = s.0.len in
        let fits : LenFits p = omega arith in
        let room : std_tlv_len mem p + hdr_len ≤ dlen = omega arith in
        let valid = valid_room p dlen ne fits room in
        elim (Bool-cases (t.tag == tag)) [
          | inl same ↦ rw same (find_here fuel p dlen valid (ap (λ x. x == tag) s.0.tag ∙ same))
          | inr other ↦
              let next : std_tlv_next mem p dlen
                  ≡ (p + (t.len + hdr_len), dlen - (t.len + hdr_len)) =
                subst (λ n. std_tlv_next mem p dlen ≡ (p + (n + hdr_len), dlen - (n + hdr_len))) len
                  (next_room p dlen ne fits room) in
              let end : p + dlen ≡ p + (t.len + hdr_len) + (dlen - (t.len + hdr_len)) =
                omega arith in
              rw other (
                find_on fuel p dlen (p + (t.len + hdr_len)) (dlen - (t.len + hdr_len)) valid
                  (ap (λ x. x == tag) s.0.tag ∙ other) next (omega arith)
                ∙ std_tlv_find_next-first_with fuel (p + (t.len + hdr_len))
                    (dlen - (t.len + hdr_len)) ts (omega arith) (omega arith) s.1 (omega arith)
                    (omega arith) (subst LenFits end f))
        ]

    -- What a search may return: null, or a record with the tag that stands inside the buffer.
    abbrev pub InBuffer : (p dlen : ℕ) → ℕ × ℕ → Type 0
    InBuffer p dlen r =
        (r.0 ≡ 0)
        ⊎ ((p ≤ r.0)
            × (r.0 + r.1 ≡ p + dlen)
            × (std_tlv_len mem r.0 + hdr_len ≤ r.1)
            × (std_tlv_tag mem r.0 ≡ tag))

    -- If no address of the buffer or right behind it holds a length that wraps with the header, `std_tlv_find_next` on any
    -- bytes ends, with one unit of fuel for every 16 bytes and one more, and what it returns is null
    -- or a record with the tag that lies in the buffer as a whole.
    pub std_tlv_find_next-InBuffer :
        (fuel p dlen : ℕ)
        → ((q : ℕ) → p ≤ q → q ≤ p + dlen → LenFits q)
        → dlen / 16 < fuel
        → p ≢ 0
        → (r : ℕ × ℕ) × (std_tlv_find_next fuel mem p dlen tag ≡ some r) × InBuffer p dlen r
    std_tlv_find_next-InBuffer zero p dlen f h ne = absurd (omega arith)
    std_tlv_find_next-InBuffer (suc fuel) p dlen f h ne =
        let n = std_tlv_len mem p + hdr_len in
        let fits : LenFits p = f p (omega arith) (omega arith) in
        elim (Bool-cases (leb n dlen)) [
          | inr e ↦ (
            (0, dlen),
            find_invalid fuel p dlen (valid_no_room p dlen ne fits (leb→gt n dlen e)),
            inl refl,
          )
          | inl e ↦
              let room = leb→le n dlen e in
              let valid = valid_room p dlen ne fits room in
              elim (Bool-cases (std_tlv_tag mem p == tag)) [
                | inl same ↦ (
                  (p, dlen),
                  find_here fuel p dlen valid same,
                  inr (omega arith, refl, room, ==→eq (std_tlv_tag mem p) tag same),
                )
                | inr other ↦
                    let (r, g, b) =
                      std_tlv_find_next-InBuffer fuel (p + n) (dlen - n)
                        (λ q a b. f q (omega arith) (omega arith)) (omega arith) (omega arith) in
                    (
                      r,
                      find_on fuel p dlen (p + n) (dlen - n) valid other
                            (next_room p dlen ne fits room) (omega arith)
                          ∙ g,
                      elim b [
                        | inl z ↦ inl z
                        | inr (q, w, l, t) ↦ inr (omega arith, omega arith, l, t)
                      ],
                    )
              ]
        ]
