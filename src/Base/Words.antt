-- ===== src/Base/Words.antt =====
-- 64-bit machine words as native numbers. A C `int` that is returned through a word is kept as its
-- sign extension to 64 bits.
use Prim.Native.Nat.{ℕ, ◌+◌, ◌-◌, ◌%◌, ◌^◌, bit_and}
use mathlib.Core.Bool.{Bool}
use vmpl_apps.Base.Tests.{◌!=◌}

abbrev pub word_mod : ℕ
word_mod = 2 ^ 64

infixl 65 ◌+w◌ ◌-w◌
-- Unsigned addition and subtraction wrap.
abbrev pub ◌+w◌ : ℕ → ℕ → ℕ
a +w b = (a + b) % word_mod

abbrev pub ◌-w◌ : ℕ → ℕ → ℕ
a -w b = (a + word_mod - b) % word_mod

-- `-e` for a positive `int`, sign-extended.
abbrev pub neg : ℕ → ℕ
neg e = (word_mod - e) % word_mod

-- The low 32 bits, and whether the `int` that they stand for is negative.
abbrev pub low32 : ℕ → ℕ
low32 x = x % 2 ^ 32

-- `x & mask` as a condition.
abbrev pub has_bit : ℕ → ℕ → Bool
has_bit x mask = bit_and x mask != 0
