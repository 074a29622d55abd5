-- ===== src/Base/Memory.antt =====
-- The C library's `memcpy`, `memset` and `memcmp` on memory as a function from addresses to bytes.
use Prim.Native.Nat.{ℕ, zero, suc, ◌+◌, ◌-◌, ◌≤◌, ◌<◌}
use mathlib.Core.Path.{◌≡◌, refl}
use mathlib.Core.Bool.{◌&&◌, true}
use native.Mathlib.Omega.{arith}
use sonic_common_utils.Base.Tests.{if◌then◌else◌, ◌==◌, ==_refl, leb, ltb}
use sonic_common_utils.Base.Int.{ℤ, is_zero}

-- `memcpy` of `n` bytes, the source given by its offsets.
unfoldable pub memcpy : ℕ → (ℕ → ℕ) → ℕ → (ℕ → ℕ) → ℕ → ℕ
memcpy n mem p content j = if leb p j && ltb j (p + n) then content (j - p) else mem j

unfoldable pub memset : ℕ → (ℕ → ℕ) → ℕ → ℕ → ℕ → ℕ
unfolding memcpy
memset n mem p value = memcpy n mem p (λ i. value)

-- `memcmp` of `n` bytes, the operands given by their offsets: the sign of the first difference.
unfoldable pub memcmp : ℕ → (ℕ → ℕ) → (ℕ → ℕ) → ℤ
memcmp zero a b = ℤ.pos 0
memcmp (suc n) a b =
    let rest = memcmp n (λ i. a (suc i)) (λ i. b (suc i)) in
    if a 0 == b 0 then rest else if ltb (a 0) (b 0) then ℤ.negsuc 0 else ℤ.pos 1

pub memcpy_at :
    (n : ℕ) (mem : ℕ → ℕ) (p : ℕ) (content : ℕ → ℕ) (i : ℕ)
    → i < n
    → memcpy n mem p content (p + i) ≡ content i
unfolding memcpy
memcpy_at n mem p content i h = let offset : p + i - p ≡ i = omega arith in ground arith

pub memcpy_before :
    (n : ℕ) (mem : ℕ → ℕ) (p : ℕ) (content : ℕ → ℕ) (j : ℕ)
    → j < p
    → memcpy n mem p content j ≡ mem j
unfolding memcpy
memcpy_before n mem p content j h = ground arith

pub memcpy_behind :
    (n : ℕ) (mem : ℕ → ℕ) (p : ℕ) (content : ℕ → ℕ) (j : ℕ)
    → p + n ≤ j
    → memcpy n mem p content j ≡ mem j
unfolding memcpy
memcpy_behind n mem p content j h = ground arith

pub memset_at : (n : ℕ) (mem : ℕ → ℕ) (p value i : ℕ) → i < n → memset n mem p value (p + i) ≡ value
unfolding memset
memset_at n mem p value i h = memcpy_at n mem p (λ j. value) i h

pub memset_before : (n : ℕ) (mem : ℕ → ℕ) (p value j : ℕ) → j < p → memset n mem p value j ≡ mem j
unfolding memset
memset_before n mem p value j h = memcpy_before n mem p (λ i. value) j h

memcmp_head :
    (n : ℕ) (a b : ℕ → ℕ)
    → is_zero (memcmp (suc n) a b) ≡ true
    → (a 0 ≡ b 0) × (is_zero (memcmp n (λ i. a (suc i)) (λ i. b (suc i))) ≡ true)
unfolding memcmp
memcmp_head n a b e = ground arith

-- `memcmp` finds no difference exactly where the bytes are the same.
pub memcmp_same :
    (n : ℕ) (a b : ℕ → ℕ) → is_zero (memcmp n a b) ≡ true → (i : ℕ) → i < n → a i ≡ b i
memcmp_same zero a b e i h = absurd (omega arith)
memcmp_same (suc n) a b e zero h = (memcmp_head n a b e).0
memcmp_same (suc n) a b e (suc i) h =
    memcmp_same n (λ j. a (suc j)) (λ j. b (suc j)) (memcmp_head n a b e).1 i (omega arith)

pub memcmp_of_same :
    (n : ℕ) (a b : ℕ → ℕ) → ((i : ℕ) → i < n → a i ≡ b i) → is_zero (memcmp n a b) ≡ true
unfolding memcmp
memcmp_of_same zero a b h = refl
memcmp_of_same (suc n) a b h =
    let first : (a 0 == b 0) ≡ true = rw (h 0 (omega arith)) (==_refl (b 0)) in
    rw first (memcmp_of_same n (λ j. a (suc j)) (λ j. b (suc j)) (λ i q. h (suc i) (omega arith)))
