-- ===== src/Prelude/Int.antt =====
-- Go's `int` where the source tests its sign. Its bounds play no part there.
use coderoom.Prelude.Tests.{leb}
use Prim.Native.Nat.{ℕ, zero, suc}
use mathlib.Core.Bool.{Bool, true, false}

-- `negsuc n` is -(n + 1).
pub data ℤ : Type 0 where
  pos : ℕ → ℤ
  negsuc : ℕ → ℤ

-- `n <= 0`
abbrev pub is_nonpos : ℤ → Bool
is_nonpos (pos zero) = true
is_nonpos (pos (suc n)) = false
is_nonpos (negsuc n) = true

-- `len >= n` for a length
abbrev pub length_reaches : ℕ → ℤ → Bool
length_reaches len (pos n) = leb n len
length_reaches len (negsuc n) = true
