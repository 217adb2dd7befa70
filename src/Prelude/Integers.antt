-- ===== src/Prelude/Integers.antt =====
-- The integers over native numbers, for the `int` of a configuration and of a C function.
use Prim.Native.Nat.{ℕ}
use mathlib.Core.Bool.{Bool, false}
use cyborgdb_embed.Prelude.Tests.{◌==◌}

pub data ℤ : Type 0 where
  pos negsuc : ℕ → ℤ

abbrev pub is_zero : ℤ → Bool
is_zero (pos n) = n == 0
is_zero (negsuc n) = false
