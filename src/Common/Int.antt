-- ===== src/Common/Int.antt =====
-- The signed integers of C: an `int` argument, and the integer that a bit pattern stands for.
use Prim.Native.Nat.{ℕ, ◌-◌, ◌%◌, ◌^◌, ◌<◌}
use mathlib.Core.Path.{◌≡◌}
use native.Mathlib.Omega.{arith}
use af_ipc.Common.Tests.{ltb, if◌then◌else◌}

-- `negsuc n` is -(n + 1).
pub data ℤ : Type 0 where
  pos : ℕ → ℤ
  negsuc : ℕ → ℤ

-- The bit pattern of a signed integer in `w` bits, by two's complement.
abbrev pub to_word : ℕ → ℤ → ℕ
to_word w (pos n) = n % 2 ^ w
to_word w (negsuc n) = 2 ^ w - 1 - n % 2 ^ w

-- The signed integer that a pattern of `w` bits stands for.
abbrev pub from_word : ℕ → ℕ → ℤ
from_word w n = if ltb n (2 ^ (w - 1)) then pos n else negsuc (2 ^ w - 1 - n)

-- The integers of `w` bits.
abbrev pub IsSigned : ℕ → ℤ → Type 0
IsSigned w (pos n) = n < 2 ^ (w - 1)
IsSigned w (negsuc n) = n < 2 ^ (w - 1)

pub from_word-to_word8 : (z : ℤ) → IsSigned 8 z → from_word 8 (to_word 8 z) ≡ z
from_word-to_word8 (pos n) h = ground arith
from_word-to_word8 (negsuc n) h = ground arith

pub from_word-to_word16 : (z : ℤ) → IsSigned 16 z → from_word 16 (to_word 16 z) ≡ z
from_word-to_word16 (pos n) h = ground arith
from_word-to_word16 (negsuc n) h = ground arith

pub from_word-to_word32 : (z : ℤ) → IsSigned 32 z → from_word 32 (to_word 32 z) ≡ z
from_word-to_word32 (pos n) h = ground arith
from_word-to_word32 (negsuc n) h = ground arith
