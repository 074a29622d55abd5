-- ===== src/Base/Every.antt =====
-- A Boolean test at every number below a bound: with `refl` it proves a finite table of facts.
use Prim.Native.Nat.{ℕ, zero, suc, ◌<◌}
use mathlib.Core.Path.{◌≡◌}
use mathlib.Core.Bool.{Bool, true, false}
use native.Mathlib.Omega.{arith}
use sonic_common_utils.Base.Tests.{if◌then◌else◌}

module _ (check : ℕ → Bool) where
  -- `check` at every number below `end`.
  unfoldable pub every : ℕ → Bool
  every zero = true
  every (suc end) = if check end then every end else false

  pub every_at : (end i : ℕ) → i < end → every end ≡ true → check i ≡ true
  unfolding every
  every_at zero i below e = absurd (omega arith)
  every_at (suc end) i below e = ground (arith, every_at end i)
