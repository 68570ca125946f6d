-- ===== src/Prelude/Word.antt =====
-- Unsigned machine words as native numbers that stay below their modulus.
use Prim.Native.Nat.{ℕ, ◌+◌, ◌-◌, ◌%◌, ◌^◌}

abbrev pub u32_mod : ℕ
u32_mod = 2 ^ 32

abbrev pub u64_mod : ℕ
u64_mod = 2 ^ 64

infixl 65 ◌+u32◌ ◌-u32◌ ◌-u64◌
abbrev pub ◌+u32◌ : ℕ → ℕ → ℕ
a +u32 b = (a + b) % u32_mod

-- `-` on ℕ stops at 0, so the modulus goes first.
abbrev pub ◌-u32◌ : ℕ → ℕ → ℕ
a -u32 b = (a + u32_mod - b) % u32_mod

abbrev pub ◌-u64◌ : ℕ → ℕ → ℕ
a -u64 b = (a + u64_mod - b) % u64_mod
