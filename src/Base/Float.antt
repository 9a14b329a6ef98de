-- ===== src/Base/Float.antt =====
-- Go's float64 as the keepers use it: a parameter, since its rounding is not modelled.
use nuvex.Base.Word.{Uint64}
use Prim.Native.Nat.{ℕ}
use mathlib.Core.Bool.{Bool}

pub record Float : Type 1 where
  pub F : Type 0
  -- `float64(n)` and `uint64(math.Floor(x))`
  pub of_uint : Uint64 → F
  pub floor : F → Uint64
  -- `d.Hours()` of a duration in nanoseconds
  pub hours : ℕ → F
  -- the constant with this numerator and denominator
  pub literal : ℕ → ℕ → F
  pub add : F → F → F
  pub sub : F → F → F
  pub mul : F → F → F
  pub div : F → F → F
  pub min : F → F → F
  pub abs : F → F
  pub sqrt : F → F
  pub le : F → F → Bool
  pub lt : F → F → Bool
