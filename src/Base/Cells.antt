-- ===== src/Base/Cells.antt =====
-- Memory as a function from addresses or indices to values, with one-cell writes and slices.
use Prim.Native.Nat.{ℕ, zero, suc, ◌+◌, ◌≤◌, ◌<◌}
use mathlib.Core.Path.{◌≡◌, refl, ap₂}
use mathlib.Core.Logic.{◌≢◌}
use mathlib.Core.List.{List, [], ◌∷◌, ◌++◌}
use native.Mathlib.Omega.{arith}
use sonic_common_utils.Base.Tests.{◌==◌, if◌then◌else◌}
use sonic_common_utils.Base.Lists.{length}

module _ {ℓ} {A : Type ℓ} where
  -- `cells[i] = v`
  unfoldable pub put : (ℕ → A) → ℕ → A → ℕ → A
  put cells i v j = if i == j then v else cells j

  pub put_self : (cells : ℕ → A) (i : ℕ) (v : A) → put cells i v i ≡ v
  unfolding put
  put_self cells i v = ground arith

  pub put_ne : (cells : ℕ → A) (i : ℕ) (v : A) (j : ℕ) → i ≢ j → put cells i v j ≡ cells j
  unfolding put
  put_ne cells i v j h = ground arith

  -- The `n` cells from index `i` on.
  abbrev pub slice : (ℕ → A) → ℕ → ℕ → List A
  slice cells i zero = []
  slice cells i (suc n) = cells i ∷ slice cells (i + 1) n

  pub length-slice : (cells : ℕ → A) (i n : ℕ) → length (slice cells i n) ≡ n
  length-slice cells i zero = refl
  length-slice cells i (suc n) = omega (arith, length-slice cells (i + 1) n)

  -- Equal cells make equal slices.
  pub slice_ext :
      (f g : ℕ → A) (i n : ℕ)
      → ((j : ℕ) → i ≤ j → j < i + n → f j ≡ g j)
      → slice f i n ≡ slice g i n
  slice_ext f g i zero h = refl
  slice_ext f g i (suc n) h =
      ap₂ ◌∷◌ (h i (omega arith) (omega arith))
        (slice_ext f g (i + 1) n λ j p q. h j (omega arith) (omega arith))

  pub slice-append :
      (f : ℕ → A) (i m n k : ℕ) → m + n ≡ k → slice f i k ≡ slice f i m ++ slice f (i + m) n
  slice-append f i zero n k e = rw (← e) (ap₂ (slice f) (omega arith) (omega arith))
  slice-append f i (suc m) n zero e = absurd (omega arith)
  slice-append f i (suc m) n (suc k) e =
      let same : i + 1 + m ≡ i + suc m = omega arith in
      ap₂ ◌∷◌ refl (rw (← same) (slice-append f (i + 1) m n k (omega arith)))
