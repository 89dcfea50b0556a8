-- ===== src/Base/Float.antt =====
-- The `f64` operations of the money paths. They belong to the hardware, so they are a parameter,
-- with the one documented law that the code relies on.
use Prim.Native.Nat.{ℕ, ◌≤◌}
use mathlib.Core.Path.{◌≡◌}
use mathlib.Core.Bool.{Bool, false}

pub record Float : Type 1 where
  pub F : Type 0
  pub zero_f : F
  -- `n as f64` of an integer that is not negative.
  pub of_int : ℕ → F
  pub add : F → F → F
  pub mul : F → F → F
  pub div : F → F → F
  pub floor : F → F
  pub ceil : F → F
  pub le : F → F → Bool
  pub lt : F → F → Bool
  pub eq : F → F → Bool
  pub is_finite : F → Bool
  -- `x as i64` and `x as u64` of a value that is not negative, where no value is above the type.
  pub to_int : F → ℕ
  -- A cast rounds towards zero, and a NaN is cast to 0: what is not at least `r` is cast to at most `r`.
  pub to_int_below : (r : ℕ) (x : F) → le (of_int r) x ≡ false → to_int x ≤ r
