-- ===== src/Base/Words.antt =====
-- Unsigned machine arithmetic of 16, 32 and 64 bits: every result is taken modulo the width.
use Prim.Native.Nat.{ℕ, ◌+◌, ◌-◌, ◌%◌, ◌^◌}
use mathlib.Core.Bool.{Bool}
use robu_microkernel.Base.Tests.{ltb}

abbrev pub u16 : ℕ
u16 = 2 ^ 16

abbrev pub u32 : ℕ
u32 = 2 ^ 32

abbrev pub u64 : ℕ
u64 = 2 ^ 64

abbrev pub add16 : ℕ → ℕ → ℕ
add16 a b = (a + b) % u16

abbrev pub add32 : ℕ → ℕ → ℕ
add32 a b = (a + b) % u32

-- `a - b`; the second argument is below the modulus.
abbrev pub sub32 : ℕ → ℕ → ℕ
sub32 a b = (a + u32 - b) % u32

abbrev pub add64 : ℕ → ℕ → ℕ
add64 a b = (a + b) % u64

abbrev pub sub64 : ℕ → ℕ → ℕ
sub64 a b = (a + u64 - b) % u64

-- The first word that stands for a negative number in 32 bits.
abbrev pub i32_min : ℕ
i32_min = 2 ^ 31

-- `a < b` for two words that are read as signed numbers of 32 bits.
abbrev pub slt32 : ℕ → ℕ → Bool
slt32 a b = ltb (add32 a i32_min) (add32 b i32_min)
