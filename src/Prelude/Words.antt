-- ===== src/Prelude/Words.antt =====
-- Machine words: a w-bit unsigned integer is a number whose operations wrap.
use Prim.Native.Nat.{ℕ, ◌+◌, ◌-◌, ◌/◌, ◌%◌, ◌^◌, compare, Ordering}
use mathlib.Core.Bool.{Bool, true, false}

abbrev pub u8 : ℕ → ℕ
u8 n = n % 256

abbrev pub u16 : ℕ → ℕ
u16 n = n % 65536

abbrev pub u32 : ℕ → ℕ
u32 n = n % 4294967296

abbrev pub u64 : ℕ → ℕ
u64 n = n % 18446744073709551616

-- `(uint32_t)(a - b)`, the time since `b` on a 32-bit millisecond clock.
abbrev pub sub32 : ℕ → ℕ → ℕ
sub32 a b = (a + 4294967296 - b) % 4294967296

-- `(uint16_t)(a - b)`.
abbrev pub sub16 : ℕ → ℕ → ℕ
sub16 a b = (a + 65536 - b) % 65536

-- Bit `i` of `m`: `(m & (1u << i)) != 0`.
abbrev pub bit : ℕ → ℕ → Bool
bit m i = elim (compare ((m / 2 ^ i) % 2) 1) [ Ordering.eq ↦ true | _ ↦ false ]
