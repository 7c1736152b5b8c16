-- ===== src/Prelude/Words.antt =====
-- Unsigned integers of a width that a template parameter decides: arithmetic modulo `m`.
use Prim.Native.Nat.{ℕ, ◌+◌, ◌-◌, ◌%◌, ◌≤◌, ◌<◌}
use mathlib.Core.Path.{◌≡◌}
use native.Mathlib.Omega.{arith}

-- `(T)x` for an unsigned type `T` with `m` values.
unfoldable pub cast : (m x : ℕ) → ℕ
cast m x = x % m

-- `a - b` in that type; both operands are values of the type.
unfoldable pub sub_mod : (m a b : ℕ) → ℕ
sub_mod m a b = (a + m - b) % m

pub cast-small : (m x : ℕ) → x < m → cast m x ≡ x
unfolding cast
cast-small m x h = grind arith

pub sub_mod-small : (m a b : ℕ) → b ≤ a → a < m → sub_mod m a b ≡ a - b
unfolding sub_mod
sub_mod-small m a b le lt = grind arith

pub cast-lt : (m x : ℕ) → 0 < m → cast m x < m
unfolding cast
cast-lt m x h = grind arith
