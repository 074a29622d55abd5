-- ===== src/BitMask.antt =====
-- src/std_bit_masks.c and the bit array macros of sonic/std_bit_masks.h.
-- A bit array is a function from byte indices to bytes. The searches compute positions as
-- `size_t`, with `none` where the code returns -1, and return them as `int`.
pub mod Bytes
pub mod Macros
pub mod Search
pub mod SearchBack
mod Tests
use Prim.Native.Nat.{bit_and, bit_or}
use sonic_common_utils.Base.{
  ℕ, zero, suc, ◌+◌, ◌-◌, ◌*◌, ◌/◌, ◌%◌, ◌^◌, Bool, true, false, not, Option, none, some, List, [],
  ◌∷◌, if◌then◌else◌, ◌==◌, leb, ltb, get_or, put, replicate, ◌&&◌,
}
use sonic_common_utils.Base.Int.{ℤ, pos, negsuc, to_int}

-- `bittobytelen`, whose `unsigned int` parameter takes 32 bits of its argument.
pub bittobytelen : ℕ → ℕ
bittobytelen len = let len' = len % 2 ^ 32 in len' / 8 + (if len' % 8 == 0 then 0 else 1)

-- `allocated` says whether `malloc` returns memory.
pub std_bitmap_create_array_with_pattern : Bool → ℕ → ℕ → Option (List ℕ)
unfolding bittobytelen
std_bitmap_create_array_with_pattern allocated len pattern =
    if allocated then some (replicate (bittobytelen len) (pattern % 256)) else none

pub std_bitmap_create_array_clear_bits : Bool → ℕ → Option (List ℕ)
unfolding std_bitmap_create_array_with_pattern
std_bitmap_create_array_clear_bits allocated len =
    std_bitmap_create_array_with_pattern allocated len 0

pub std_bitmap_create_array : Bool → ℕ → Option (List ℕ)
unfolding std_bitmap_create_array_with_pattern
std_bitmap_create_array allocated len = std_bitmap_create_array_with_pattern allocated len 0xff

-- The loop of `std_complement_bitmaparray`, by the rounds left; `~` of a byte is `255 - b`.
pub complement_loop : (rounds ix : ℕ) → (ℕ → ℕ) → ℕ → ℕ
complement_loop zero ix bits = bits
complement_loop (suc n) ix bits = complement_loop n (ix + 1) (put bits ix (255 - bits ix))

pub std_complement_bitmaparray : (ℕ → ℕ) → ℕ → ℕ → ℕ
unfolding complement_loop bittobytelen put
std_complement_bitmaparray bits mx = complement_loop (bittobytelen mx) 0 bits

-- `static int highest_bit[]`.
pub highest_bit : List ℕ
highest_bit =
    0 ∷ 1 ∷ 2 ∷ 2 ∷ 3 ∷ 3 ∷ 3 ∷ 3 ∷ 4 ∷ 4 ∷ 4 ∷ 4 ∷ 4 ∷ 4 ∷ 4 ∷ 4 ∷ 5 ∷ 5 ∷ 5 ∷ 5 ∷ 5 ∷ 5 ∷ 5 ∷ 5
    ∷ 5 ∷ 5 ∷ 5 ∷ 5 ∷ 5 ∷ 5 ∷ 5 ∷ 5 ∷ 6 ∷ 6 ∷ 6 ∷ 6 ∷ 6 ∷ 6 ∷ 6 ∷ 6 ∷ 6 ∷ 6 ∷ 6 ∷ 6 ∷ 6 ∷ 6 ∷ 6 ∷ 6
    ∷ 6 ∷ 6 ∷ 6 ∷ 6 ∷ 6 ∷ 6 ∷ 6 ∷ 6 ∷ 6 ∷ 6 ∷ 6 ∷ 6 ∷ 6 ∷ 6 ∷ 6 ∷ 6 ∷ 7 ∷ 7 ∷ 7 ∷ 7 ∷ 7 ∷ 7 ∷ 7 ∷ 7
    ∷ 7 ∷ 7 ∷ 7 ∷ 7 ∷ 7 ∷ 7 ∷ 7 ∷ 7 ∷ 7 ∷ 7 ∷ 7 ∷ 7 ∷ 7 ∷ 7 ∷ 7 ∷ 7 ∷ 7 ∷ 7 ∷ 7 ∷ 7 ∷ 7 ∷ 7 ∷ 7 ∷ 7
    ∷ 7 ∷ 7 ∷ 7 ∷ 7 ∷ 7 ∷ 7 ∷ 7 ∷ 7 ∷ 7 ∷ 7 ∷ 7 ∷ 7 ∷ 7 ∷ 7 ∷ 7 ∷ 7 ∷ 7 ∷ 7 ∷ 7 ∷ 7 ∷ 7 ∷ 7 ∷ 7 ∷ 7
    ∷ 7 ∷ 7 ∷ 7 ∷ 7 ∷ 7 ∷ 7 ∷ 7 ∷ 7 ∷ 8 ∷ 8 ∷ 8 ∷ 8 ∷ 8 ∷ 8 ∷ 8 ∷ 8 ∷ 8 ∷ 8 ∷ 8 ∷ 8 ∷ 8 ∷ 8 ∷ 8 ∷ 8
    ∷ 8 ∷ 8 ∷ 8 ∷ 8 ∷ 8 ∷ 8 ∷ 8 ∷ 8 ∷ 8 ∷ 8 ∷ 8 ∷ 8 ∷ 8 ∷ 8 ∷ 8 ∷ 8 ∷ 8 ∷ 8 ∷ 8 ∷ 8 ∷ 8 ∷ 8 ∷ 8 ∷ 8
    ∷ 8 ∷ 8 ∷ 8 ∷ 8 ∷ 8 ∷ 8 ∷ 8 ∷ 8 ∷ 8 ∷ 8 ∷ 8 ∷ 8 ∷ 8 ∷ 8 ∷ 8 ∷ 8 ∷ 8 ∷ 8 ∷ 8 ∷ 8 ∷ 8 ∷ 8 ∷ 8 ∷ 8
    ∷ 8 ∷ 8 ∷ 8 ∷ 8 ∷ 8 ∷ 8 ∷ 8 ∷ 8 ∷ 8 ∷ 8 ∷ 8 ∷ 8 ∷ 8 ∷ 8 ∷ 8 ∷ 8 ∷ 8 ∷ 8 ∷ 8 ∷ 8 ∷ 8 ∷ 8 ∷ 8 ∷ 8
    ∷ 8 ∷ 8 ∷ 8 ∷ 8 ∷ 8 ∷ 8 ∷ 8 ∷ 8 ∷ 8 ∷ 8 ∷ 8 ∷ 8 ∷ 8 ∷ 8 ∷ 8 ∷ 8 ∷ 8 ∷ 8 ∷ 8 ∷ 8 ∷ 8 ∷ 8 ∷ 8 ∷ 8
    ∷ 8 ∷ 8 ∷ 8 ∷ 8 ∷ 8 ∷ 8 ∷ 8 ∷ 8 ∷ 8 ∷ 8 ∷ 8 ∷ 8 ∷ 8 ∷ 8 ∷ 8 ∷ 8 ∷ []

-- `static int lowest_bit[]`.
pub lowest_bit : List ℕ
lowest_bit =
    0 ∷ 1 ∷ 2 ∷ 1 ∷ 3 ∷ 1 ∷ 2 ∷ 1 ∷ 4 ∷ 1 ∷ 2 ∷ 1 ∷ 3 ∷ 1 ∷ 2 ∷ 1 ∷ 5 ∷ 1 ∷ 2 ∷ 1 ∷ 3 ∷ 1 ∷ 2 ∷ 1
    ∷ 4 ∷ 1 ∷ 2 ∷ 1 ∷ 3 ∷ 1 ∷ 2 ∷ 1 ∷ 6 ∷ 1 ∷ 2 ∷ 1 ∷ 3 ∷ 1 ∷ 2 ∷ 1 ∷ 4 ∷ 1 ∷ 2 ∷ 1 ∷ 3 ∷ 1 ∷ 2 ∷ 1
    ∷ 5 ∷ 1 ∷ 2 ∷ 1 ∷ 3 ∷ 1 ∷ 2 ∷ 1 ∷ 4 ∷ 1 ∷ 2 ∷ 1 ∷ 3 ∷ 1 ∷ 2 ∷ 1 ∷ 7 ∷ 1 ∷ 2 ∷ 1 ∷ 3 ∷ 1 ∷ 2 ∷ 1
    ∷ 4 ∷ 1 ∷ 2 ∷ 1 ∷ 3 ∷ 1 ∷ 2 ∷ 1 ∷ 5 ∷ 1 ∷ 2 ∷ 1 ∷ 3 ∷ 1 ∷ 2 ∷ 1 ∷ 4 ∷ 1 ∷ 2 ∷ 1 ∷ 3 ∷ 1 ∷ 2 ∷ 1
    ∷ 6 ∷ 1 ∷ 2 ∷ 1 ∷ 3 ∷ 1 ∷ 2 ∷ 1 ∷ 4 ∷ 1 ∷ 2 ∷ 1 ∷ 3 ∷ 1 ∷ 2 ∷ 1 ∷ 5 ∷ 1 ∷ 2 ∷ 1 ∷ 3 ∷ 1 ∷ 2 ∷ 1
    ∷ 4 ∷ 1 ∷ 2 ∷ 1 ∷ 3 ∷ 1 ∷ 2 ∷ 1 ∷ 8 ∷ 1 ∷ 2 ∷ 1 ∷ 3 ∷ 1 ∷ 2 ∷ 1 ∷ 4 ∷ 1 ∷ 2 ∷ 1 ∷ 3 ∷ 1 ∷ 2 ∷ 1
    ∷ 5 ∷ 1 ∷ 2 ∷ 1 ∷ 3 ∷ 1 ∷ 2 ∷ 1 ∷ 4 ∷ 1 ∷ 2 ∷ 1 ∷ 3 ∷ 1 ∷ 2 ∷ 1 ∷ 6 ∷ 1 ∷ 2 ∷ 1 ∷ 3 ∷ 1 ∷ 2 ∷ 1
    ∷ 4 ∷ 1 ∷ 2 ∷ 1 ∷ 3 ∷ 1 ∷ 2 ∷ 1 ∷ 5 ∷ 1 ∷ 2 ∷ 1 ∷ 3 ∷ 1 ∷ 2 ∷ 1 ∷ 4 ∷ 1 ∷ 2 ∷ 1 ∷ 3 ∷ 1 ∷ 2 ∷ 1
    ∷ 7 ∷ 1 ∷ 2 ∷ 1 ∷ 3 ∷ 1 ∷ 2 ∷ 1 ∷ 4 ∷ 1 ∷ 2 ∷ 1 ∷ 3 ∷ 1 ∷ 2 ∷ 1 ∷ 5 ∷ 1 ∷ 2 ∷ 1 ∷ 3 ∷ 1 ∷ 2 ∷ 1
    ∷ 4 ∷ 1 ∷ 2 ∷ 1 ∷ 3 ∷ 1 ∷ 2 ∷ 1 ∷ 6 ∷ 1 ∷ 2 ∷ 1 ∷ 3 ∷ 1 ∷ 2 ∷ 1 ∷ 4 ∷ 1 ∷ 2 ∷ 1 ∷ 3 ∷ 1 ∷ 2 ∷ 1
    ∷ 5 ∷ 1 ∷ 2 ∷ 1 ∷ 3 ∷ 1 ∷ 2 ∷ 1 ∷ 4 ∷ 1 ∷ 2 ∷ 1 ∷ 3 ∷ 1 ∷ 2 ∷ 1 ∷ []

pub std_find_last_bit8 : ℕ → ℕ → ℕ
unfolding highest_bit
std_find_last_bit8 byte from =
    let mask = 0xffffffff / 2 ^ from in get_or highest_bit (bit_and byte mask) 0

pub std_find_first_bit8 : ℕ → ℕ → ℕ
unfolding lowest_bit
std_find_first_bit8 byte from =
    let mask = 0xffffffff * 2 ^ from % 2 ^ 32 in get_or lowest_bit (bit_and byte mask) 0

-- `for (; ix < mx ; ++ix )`, on fuel.
pub first_loop : ℕ → (ℕ → ℕ) → (ix mx : ℕ) → Option ℕ
first_loop zero array ix mx = none
first_loop (suc fuel) array ix mx = elim (ltb ix mx) [
  | false ↦ none
  | true ↦ elim (array ix == 0) [
    | true ↦ first_loop fuel array (ix + 1) mx
    | false ↦ some (std_find_first_bit8 (array ix) 0 - 1 + ix * 8)
  ]
]

-- The position that `std_find_first_bit` finds, before it is returned as an `int`.
pub first_position : (ℕ → ℕ) → (len from : ℕ) → Option ℕ
first_position array len from =
    if leb len from
    then none
    else (let ix = from / 8 in
        let mx = len / 8 + (if len % 8 == 0 then 0 else 1) in
        let bit = from % 8 in
        let pos = std_find_first_bit8 (array ix) bit in
        if bit == 0
        then first_loop mx array ix mx
        else if pos == 0
        then first_loop mx array (ix + 1) mx
        else some (pos - 1 + ix * 8))

pub std_find_first_bit : (ℕ → ℕ) → (len from : ℕ) → ℤ
unfolding first_position to_int
std_find_first_bit array len from = elim (first_position array len from) [
  | none ↦ negsuc 0
  | some position ↦ to_int position
]

-- `for ( ; mx >=0 ; --mx)`: the argument is `mx + 1`, the number of bytes still to look at.
pub last_loop : (ℕ → ℕ) → ℕ → Option ℕ
last_loop array zero = none
last_loop array (suc mx) =
    let rest = last_loop array mx in
    if array mx == 0 then rest else some (std_find_last_bit8 (array mx) 0 - 1 + mx * 8)

-- `std_find_last_bit` from `if (mx==0)` on; `bytes` is `mx` before it is decreased.
pub last_from : (ℕ → ℕ) → (bytes bit : ℕ) → Option ℕ
unfolding last_loop
last_from array bytes bit =
    let mx = bytes - 1 in
    let pos = std_find_last_bit8 (array mx) bit in
    if bytes == 0
    then none
    else (if bit == 0
        then last_loop array (mx + 1)
        else (if pos == 0
            then (if mx == 0 then none else last_loop array mx)
            else some (pos - 1 + mx * 8)))

-- The result for a position: `mx*8` is an `int`, so that from 2 ^ 31 on there is none.
last_result : Option ℕ → Option ℤ
last_result none = some (negsuc 0)
last_result (some position) = if ltb position (2 ^ 31) then some (pos position) else none

-- `mx` as an `int`. If it is negative, the loop does not run, and a rest of `bit` bits is looked for in
-- front of the array; `--mx` overflows at the least `int`.
last_by : (ℕ → ℕ) → (mx : ℤ) → (bit : ℕ) → Option ℤ
unfolding last_from last_result
last_by array (pos bytes) bit = last_result (last_from array bytes bit)
last_by array (negsuc n) bit = if bit == 0 && ltb (n + 1) (2 ^ 31) then some (negsuc 0) else none

-- `none` stands for undefined behaviour.
pub std_find_last_bit : (ℕ → ℕ) → (len from : ℕ) → Option ℤ
unfolding last_by to_int
std_find_last_bit array len from =
    if leb len from
    then some (negsuc 0)
    else (let from' = len - from in
        last_by array (to_int (from' / 8 + (if from' % 8 == 0 then 0 else 1))) (from' % 8))

-- `STD_BIT_ARRAY_SET`, `STD_BIT_ARRAY_CLR` and `STD_BIT_ARRAY_TEST`.
pub bit_array_set : (ℕ → ℕ) → ℕ → ℕ → ℕ
unfolding put
bit_array_set name i = put name (i / 8) (bit_or (name (i / 8)) (2 ^ (i % 8)) % 256)

pub bit_array_clr : (ℕ → ℕ) → ℕ → ℕ → ℕ
unfolding put
bit_array_clr name i = put name (i / 8) (bit_and (name (i / 8)) (0xffffffff - 2 ^ (i % 8)) % 256)

pub bit_array_test : (ℕ → ℕ) → ℕ → Bool
bit_array_test name i = not (bit_and (name (i / 8)) (2 ^ (i % 8)) == 0)
