-- ===== src/Base/Int.antt =====
-- Go's `int`, as far as the program needs it: ports and codes that a request may give negative.
use zent_proxy.Base.Tests.{leb, ◌==◌}
use Prim.Native.Nat.{ℕ, ◌≤◌}
use mathlib.Core.Bool.{Bool, true, false, ◌&&◌}
use mathlib.Core.Path.{◌≡◌, refl}
use native.Mathlib.Omega.{arith}

-- `negsuc n` is -(n + 1).
pub data ℤ : Type 0 where
  pos : ℕ → ℤ
  negsuc : ℕ → ℤ

-- `!(v < lo || v > hi)`
unfoldable pub between : ℕ → ℕ → ℤ → Bool
between lo hi (pos n) = leb lo n && leb n hi
between lo hi (negsuc n) = false

-- `v == 0`
unfoldable pub is_zero : ℤ → Bool
is_zero (pos n) = n == 0
is_zero (negsuc n) = false

-- `v >= 1`
unfoldable pub is_positive : ℤ → Bool
is_positive (pos n) = leb 1 n
is_positive (negsuc n) = false

-- The number from `lo` to `hi` that an `int` is.
pub between-inv :
    (lo hi : ℕ) (v : ℤ) → between lo hi v ≡ true → (n : ℕ) × (v ≡ pos n) × (lo ≤ n) × (n ≤ hi)
unfolding between
between-inv lo hi (pos n) h = (n, refl, ground arith, ground arith)
between-inv lo hi (negsuc n) h = cc
