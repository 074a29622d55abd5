-- ===== src/Crc/Detection.antt =====
-- What the CRC of src/std_crc32.c detects: its register can be shifted back, so one changed byte
-- changes the result.
use Prim.Native.Nat.{bit_xor}
use sonic_common_utils.Base.{
  ℕ, zero, suc, ◌+◌, ◌*◌, ◌/◌, ◌%◌, ◌^◌, ◌<◌, ◌≡◌, ◌≢◌, refl, sym, ap, ◌∙◌, inl, inr, List, [], ◌∷◌,
  ◌++◌, arith, ◌==◌, leb, le→leb, lt→leb, if◌then◌else◌, All, Bool-cases,
}
use sonic_common_utils.Base.Bits.{
  bit_xor_comm, bit_xor_twice, bit_xor-shift, bit_xor-lt, bit_xor-zero,
}
use sonic_common_utils.Crc.{std_crc32}
use sonic_common_utils.Crc.Bitwise.{shift_once, shift_times}
use sonic_common_utils.Crc.Reference.{IsByte, register_byte, register, std_crc32-register}

abbrev IsWord : ℕ → Type 0
IsWord c = c < 2 ^ 32

shift_once-IsWord : (c : ℕ) → IsWord c → IsWord (shift_once c)
unfolding shift_once
shift_once-IsWord c h = elim (Bool-cases (c % 2 == 1)) [
  | inl e ↦ rw e (bit_xor-lt 32 (c / 2) 0xedb88320 (omega arith) (omega arith))
  | inr e ↦ rw e (bit_xor-lt 32 (c / 2) 0 (omega arith) (omega arith))
]

-- The top digit of a shifted register tells whether the polynomial was fed back.
unshift : ℕ → ℕ
unshift c = if leb (2 ^ 31) c then bit_xor c 0xedb88320 * 2 + 1 else c * 2

unshift-shift_once : (c : ℕ) → IsWord c → unshift (shift_once c) ≡ c
unfolding unshift shift_once
unshift-shift_once c h = elim (Bool-cases (c % 2 == 1)) [
  | inl e ↦
      let none : c / 2 / 2 ^ 31 ≡ 0 = omega arith in
      let top : bit_xor (c / 2) 0xedb88320 / 2 ^ 31 ≡ 1 =
        bit_xor-shift 31 (c / 2) 0xedb88320 ∙ ap (λ t. bit_xor t 1) none in
      rw
        (
          e,
          le→leb (2 ^ 31) (bit_xor (c / 2) 0xedb88320) (omega arith),
          bit_xor_twice (c / 2) 0xedb88320,
        )
        (ground arith)
  | inr e ↦ rw (e, bit_xor-zero (c / 2), lt→leb (2 ^ 31) (c / 2) (omega arith)) (ground arith)
]

shift_times-injective :
    (n a b : ℕ) → IsWord a → IsWord b → shift_times n a ≡ shift_times n b → a ≡ b
unfolding shift_times
shift_times-injective zero a b p q e = e
shift_times-injective (suc n) a b p q e =
    let once =
      shift_times-injective n (shift_once a) (shift_once b) (shift_once-IsWord a p)
        (shift_once-IsWord b q) e in
    sym (unshift-shift_once a p) ∙ ap unshift once ∙ unshift-shift_once b q

shift_times-IsWord : (n c : ℕ) → IsWord c → IsWord (shift_times n c)
unfolding shift_times
shift_times-IsWord zero c h = h
shift_times-IsWord (suc n) c h = shift_times-IsWord n (shift_once c) (shift_once-IsWord c h)

xor_cancel : (a b m : ℕ) → bit_xor a m ≡ bit_xor b m → a ≡ b
xor_cancel a b m e = sym (bit_xor_twice a m) ∙ ap (λ t. bit_xor t m) e ∙ bit_xor_twice b m

register_byte-IsWord : (c b : ℕ) → IsWord c → IsByte b → IsWord (register_byte c b)
unfolding register_byte
register_byte-IsWord c b p q =
    shift_times-IsWord 8 (bit_xor c b) (bit_xor-lt 32 c b p (omega arith))

register_byte-cancel :
    (a b x y : ℕ)
    → IsWord a
    → IsWord b
    → IsByte x
    → IsByte y
    → register_byte a x ≡ register_byte b y
    → bit_xor a x ≡ bit_xor b y
unfolding register_byte
register_byte-cancel a b x y pa pb px py e =
    shift_times-injective 8 (bit_xor a x) (bit_xor b y) (bit_xor-lt 32 a x pa (omega arith))
      (bit_xor-lt 32 b y pb (omega arith)) e

register-IsWord : (c : ℕ) (buf : List ℕ) → IsWord c → All IsByte buf → IsWord (register c buf)
unfolding register
register-IsWord c [] p h = p
register-IsWord c (x ∷ buf) p h =
    register-IsWord (register_byte c x) buf (register_byte-IsWord c x p h.0) h.1

register-injective :
    (a b : ℕ) (buf : List ℕ)
    → IsWord a
    → IsWord b
    → All IsByte buf
    → register a buf ≡ register b buf
    → a ≡ b
unfolding register
register-injective a b [] p q h e = e
register-injective a b (x ∷ buf) p q h e = xor_cancel a b x (
    register_byte-cancel a b x x p q h.0 h.0 (
      register-injective (register_byte a x) (register_byte b x) buf
        (register_byte-IsWord a x p h.0) (register_byte-IsWord b x q h.0) h.1 e))

register-append : (c : ℕ) (xs ys : List ℕ) → register c (xs ++ ys) ≡ register (register c xs) ys
unfolding register
register-append c [] ys = refl
register-append c (x ∷ xs) ys = register-append (register_byte c x) xs ys

changed_byte :
    (c x y : ℕ) (before after : List ℕ)
    → IsWord c
    → All IsByte before
    → All IsByte (x ∷ after)
    → All IsByte (y ∷ after)
    → register c (before ++ (x ∷ after)) ≡ register c (before ++ (y ∷ after))
    → x ≡ y
unfolding register
changed_byte c x y before after p h hx hy e =
    let r = register c before in
    let word = register-IsWord c before p h in
    let split : register r (x ∷ after) ≡ register r (y ∷ after) =
      sym (register-append c before (x ∷ after)) ∙ e ∙ register-append c before (y ∷ after) in
    let rest =
      register-injective (register_byte r x) (register_byte r y) after
        (register_byte-IsWord r x word hx.0) (register_byte-IsWord r y word hy.0) hx.1 split in
    let same = register_byte-cancel r r x y word word hx.0 hy.0 rest in
    xor_cancel x y r (bit_xor_comm x r ∙ same ∙ bit_xor_comm r y)

All-append {ℓ κ} :
    {A : Type ℓ} (P : A → Type κ) (xs ys : List A) → All P xs → All P ys → All P (xs ++ ys)
All-append P [] ys p q = q
All-append P (x ∷ xs) ys p q = (p.0, All-append P xs ys p.1 q)

-- Two buffers of bytes that differ in exactly one byte, from the same 32-bit initial value, have
-- different CRCs.
pub std_crc32-one_byte :
    (crc x y : ℕ) (before after : List ℕ)
    → crc < 2 ^ 32
    → All IsByte before
    → All IsByte (x ∷ after)
    → All IsByte (y ∷ after)
    → x ≢ y
    → std_crc32 crc (before ++ (x ∷ after)) ≢ std_crc32 crc (before ++ (y ∷ after))
std_crc32-one_byte crc x y before after p h hx hy ne e =
    let start = bit_xor crc 0xffffffff in
    let same =
      sym (std_crc32-register crc (before ++ (x ∷ after)) (All-append IsByte before _ h hx))
      ∙ e
      ∙ std_crc32-register crc (before ++ (y ∷ after)) (All-append IsByte before _ h hy) in
    ne (
      changed_byte start x y before after (bit_xor-lt 32 crc 0xffffffff p (omega arith)) h hx hy
        (xor_cancel _ _ 0xffffffff same))

-- From a 32-bit initial value the CRC of a buffer of bytes fits 32 bits.
std_crc32-lt : (crc : ℕ) (buf : List ℕ) → crc < 2 ^ 32 → All IsByte buf → std_crc32 crc buf < 2 ^ 32
std_crc32-lt crc buf p h = rw (std_crc32-register crc buf h) (
    bit_xor-lt 32 (register (bit_xor crc 0xffffffff) buf) 0xffffffff
      (register-IsWord (bit_xor crc 0xffffffff) buf (bit_xor-lt 32 crc 0xffffffff p (omega arith))
        h)
      (omega arith))
