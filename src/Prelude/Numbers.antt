-- ===== src/Prelude/Numbers.antt =====
-- A JavaScript number as the checks of the program see it: a non-negative integer, or something
-- that every check refuses (a negative, fractional or infinite number, or NaN).
use Prim.Native.Nat.{ℕ}
use mathlib.Core.Bool.{Bool}
use chatwca.Prelude.Tests.{leb}

pub data Number : Type 0 where
  nat : ℕ → Number
  other : Number

-- `Number.MAX_SAFE_INTEGER`.
abbrev pub max_safe : ℕ
max_safe = 9_007_199_254_740_991

-- `Number.isSafeInteger(n)` of a non-negative integer.
abbrev pub is_safe : ℕ → Bool
is_safe n = leb n max_safe
