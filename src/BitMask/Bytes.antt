-- ===== src/BitMask/Bytes.antt =====
-- The two tables of src/std_bit_masks.c and the macros of sonic/std_bit_masks.h on one byte, checked
-- at every byte.
use Prim.Native.Nat.{bit_and, bit_or}
use native.Mathlib.Nat.{zero-div}
use sonic_common_utils.Base.Every.{every, every_at}
use sonic_common_utils.Base.{
  ℕ, ◌+◌, ◌-◌, ◌/◌, ◌%◌, ◌^◌, ◌≤◌, ◌<◌, ◌≡◌, ◌≢◌, refl, Bool, true, false, ◌&&◌, ◌||◌, not, arith,
  ◌==◌, leb, ltb, if◌then◌else◌,
}
use sonic_common_utils.BitMask.{std_find_first_bit8, std_find_last_bit8}

-- Digit `k` of a number.
abbrev pub digit : ℕ → ℕ → Bool
digit b k = b / 2 ^ k % 2 == 1

-- `check` at every byte and every two bit positions.
pub all_bytes : (ℕ → ℕ → ℕ → Bool) → Bool
unfolding every
all_bytes check = every (λ b. every (λ f. every (check b f) 8) 8) 256

pub all_bytes_sound :
    (check : ℕ → ℕ → ℕ → Bool) (b f k : ℕ)
    → all_bytes check ≡ true
    → b < 256
    → f < 8
    → k < 8
    → check b f k ≡ true
unfolding all_bytes
all_bytes_sound check b f k h hb hf hk = every_at (check b f) 8 k hk (
    every_at (λ f'. every (check b f') 8) 8 f hf
      (every_at (λ b'. every (λ f'. every (check b' f') 8) 8) 256 b hb h))

first_check : ℕ → ℕ → ℕ → Bool
unfolding std_find_first_bit8
first_check b f k =
    let p = std_find_first_bit8 b f in
    if p == 0
    then not (leb f k && digit b k)
    else ltb f p && leb p 8 && digit b (p - 1) && not (leb f k && ltb (k + 1) p && digit b k)

first_table : all_bytes first_check ≡ true
unfolding all_bytes first_check
first_table = refl

-- What a passed check says, with the digits as unknowns.
first_parts :
    (p f : ℕ) (u d x : Bool)
    → (if p == 0 then u else ltb f p && leb p 8 && d && x) ≡ true
    → p ≢ 0
    → (f < p) × (p ≤ 8) × (d ≡ true) × (x ≡ true)
first_parts p f u d x h ne = ground arith

last_parts :
    (p : ℕ) (u d x : Bool)
    → (if p == 0 then u else leb p 8 && d && x) ≡ true
    → p ≢ 0
    → (p ≤ 8) × (d ≡ true) × (x ≡ true)
last_parts p u d x h ne = ground arith

before_part :
    (p f k : ℕ) (d : Bool)
    → not (leb f k && ltb (k + 1) p && d) ≡ true
    → f ≤ k
    → k + 1 < p
    → d ≡ false
before_part p f k d h q r = ground arith

after_part : (p k : ℕ) (d : Bool) → not (leb p k && d) ≡ true → p ≤ k → d ≡ false
after_part p k d h q = ground arith

module _ (b f : ℕ) (hb : b < 256) (hf : f < 8) where
  first_facts :
      (k : ℕ)
      → k < 8
      → std_find_first_bit8 b f ≢ 0
      → (f < std_find_first_bit8 b f)
        × (std_find_first_bit8 b f ≤ 8)
        × (digit b (std_find_first_bit8 b f - 1) ≡ true)
        × (not (leb f k && ltb (k + 1) (std_find_first_bit8 b f) && digit b k) ≡ true)
  unfolding first_check
  first_facts k hk ne =
      first_parts (std_find_first_bit8 b f) f _ _ _
        (all_bytes_sound first_check b f k first_table hb hf hk) ne

  -- `std_find_first_bit8` is 0 if no bit from `from` on is set,
  pub first8_none : std_find_first_bit8 b f ≡ 0 → (k : ℕ) → f ≤ k → k < 8 → digit b k ≡ false
  unfolding first_check
  first8_none e k p q = ground (arith, all_bytes_sound first_check b f k first_table hb hf q)

  -- and else one more than the position of the first one.
  pub first8_some :
      std_find_first_bit8 b f ≢ 0
      → (f < std_find_first_bit8 b f)
        × (std_find_first_bit8 b f ≤ 8)
        × (digit b (std_find_first_bit8 b f - 1) ≡ true)
  first8_some ne = let h = first_facts 0 (omega arith) ne in (h.0, h.1, h.2)

  pub first8_before : (k : ℕ) → f ≤ k → k + 1 < std_find_first_bit8 b f → k < 8 → digit b k ≡ false
  first8_before k p q r =
      before_part (std_find_first_bit8 b f) f k (digit b k) (first_facts k r (omega arith)).3 p q

last_check : ℕ → ℕ → ℕ → Bool
unfolding std_find_last_bit8
last_check b f k =
    let p = std_find_last_bit8 b f in
    if p == 0 then not (digit b k) else leb p 8 && digit b (p - 1) && not (leb p k && digit b k)

last_table : all_bytes last_check ≡ true
unfolding all_bytes last_check
last_table = refl

-- `std_find_last_bit8` looks at the whole byte, whatever `from` below 8 it is given.
module _ (b f : ℕ) (hb : b < 256) (hf : f < 8) where
  last_facts :
      (k : ℕ)
      → k < 8
      → std_find_last_bit8 b f ≢ 0
      → (std_find_last_bit8 b f ≤ 8)
        × (digit b (std_find_last_bit8 b f - 1) ≡ true)
        × (not (leb (std_find_last_bit8 b f) k && digit b k) ≡ true)
  unfolding last_check
  last_facts k hk ne =
      last_parts (std_find_last_bit8 b f) _ _ _
        (all_bytes_sound last_check b f k last_table hb hf hk) ne

  pub last8_none : std_find_last_bit8 b f ≡ 0 → (k : ℕ) → k < 8 → digit b k ≡ false
  unfolding last_check
  last8_none e k q = ground (arith, all_bytes_sound last_check b f k last_table hb hf q)

  pub last8_some :
      std_find_last_bit8 b f ≢ 0
      → (std_find_last_bit8 b f ≤ 8) × (digit b (std_find_last_bit8 b f - 1) ≡ true)
  last8_some ne = let h = last_facts 0 (omega arith) ne in (h.0, h.1)

  pub last8_after :
      (k : ℕ) → std_find_last_bit8 b f ≢ 0 → std_find_last_bit8 b f ≤ k → k < 8 → digit b k ≡ false
  last8_after k ne p r = after_part (std_find_last_bit8 b f) k (digit b k) (last_facts k r ne).2 p

set_check : ℕ → ℕ → ℕ → Bool
set_check b f k =
    if f == k
    then digit (bit_or b (2 ^ f) % 256) k
    else (if digit b k
        then digit (bit_or b (2 ^ f) % 256) k
        else not (digit (bit_or b (2 ^ f) % 256) k))

set_table : all_bytes set_check ≡ true
unfolding all_bytes set_check
set_table = refl

clr_check : ℕ → ℕ → ℕ → Bool
clr_check b f k =
    let c = bit_and b (0xffffffff - 2 ^ f) % 256 in
    if f == k then not (digit c k) else (if digit b k then digit c k else not (digit c k))

clr_table : all_bytes clr_check ≡ true
unfolding all_bytes clr_check
clr_table = refl

test_check : ℕ → ℕ → ℕ → Bool
test_check b f k = if digit b f then not (bit_and b (2 ^ f) == 0) else bit_and b (2 ^ f) == 0

test_table : all_bytes test_check ≡ true
unfolding all_bytes test_check
test_table = refl

module _ (b f k : ℕ) (hb : b < 256) (hf : f < 8) (hk : k < 8) where
  pub set_digit : digit (bit_or b (2 ^ f) % 256) k ≡ (if f == k then true else digit b k)
  unfolding set_check
  set_digit = ground (arith, all_bytes_sound set_check b f k set_table hb hf hk)

  pub clr_digit :
      digit (bit_and b (0xffffffff - 2 ^ f) % 256) k ≡ (if f == k then false else digit b k)
  unfolding clr_check
  clr_digit = ground (arith, all_bytes_sound clr_check b f k clr_table hb hf hk)

pub test_digit : (b f : ℕ) → b < 256 → f < 8 → not (bit_and b (2 ^ f) == 0) ≡ digit b f
unfolding test_check
test_digit b f hb hf =
    ground (arith, all_bytes_sound test_check b f 0 test_table hb hf (omega arith))

-- A byte that is not 0 has a first and a last bit.
nonzero_table :
    every
      (λ b. b == 0 || (not (std_find_first_bit8 b 0 == 0) && not (std_find_last_bit8 b 0 == 0)))
      256
    ≡ true
unfolding every std_find_first_bit8 std_find_last_bit8
nonzero_table = refl

nonzero_parts :
    (b p q : ℕ) → (b == 0 || (not (p == 0) && not (q == 0))) ≡ true → b ≢ 0 → (p ≢ 0) × (q ≢ 0)
nonzero_parts b p q h ne = ground arith

pub nonzero :
    (b : ℕ) → b < 256 → b ≢ 0 → (std_find_first_bit8 b 0 ≢ 0) × (std_find_last_bit8 b 0 ≢ 0)
nonzero b h ne =
    nonzero_parts b (std_find_first_bit8 b 0) (std_find_last_bit8 b 0)
      (every_at
        (λ c. c == 0 || (not (std_find_first_bit8 c 0 == 0) && not (std_find_last_bit8 c 0 == 0)))
        256 b h nonzero_table)
      ne

pub zero_digit : (k : ℕ) → digit 0 k ≡ false
zero_digit k = rw zero-div refl

flip_check : ℕ → ℕ → ℕ → Bool
flip_check b f k = if digit b k then not (digit (255 - b) k) else digit (255 - b) k

flip_table : all_bytes flip_check ≡ true
unfolding all_bytes flip_check
flip_table = refl

pub flip_digit : (b k : ℕ) → b < 256 → k < 8 → digit (255 - b) k ≡ not (digit b k)
unfolding flip_check
flip_digit b k hb hk =
    ground (arith, all_bytes_sound flip_check b 0 k flip_table hb (omega arith) hk)
