-- ===== src/Prelude/Integers.antt =====
-- Python's `int`, with a sign, over the native numbers.
use Prim.Native.Nat.{ℕ}
use mathlib.Core.Option.{Option, none, some}

pub data ℤ : Type 0 where
  pos : ℕ → ℤ
  negsuc : ℕ → ℤ

-- `max(0, n)`
unfoldable pub max_zero : ℤ → ℕ
max_zero (pos n) = n
max_zero (negsuc n) = 0

-- `max(0, int(n or 0))`
unfoldable pub at_least_zero : Option ℤ → ℕ
at_least_zero none = 0
at_least_zero (some n) = max_zero n
