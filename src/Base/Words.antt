-- ===== src/Base/Words.antt =====
-- Unsigned words of C and the wrapping comparisons of sequence numbers, tickets and clocks.
use Prim.Native.Nat.{ℕ, ◌+◌, ◌-◌, ◌%◌, ◌^◌}
use mathlib.Core.Bool.{Bool}
use keemash_core.Base.Tests.{leb}

abbrev pub u8 : ℕ → ℕ
u8 n = n % 2 ^ 8

abbrev pub u16 : ℕ → ℕ
u16 n = n % 2 ^ 16

abbrev pub u32 : ℕ → ℕ
u32 n = n % 2 ^ 32

abbrev pub inc32 : ℕ → ℕ
inc32 n = u32 (n + 1)

-- `(uint32_t)(a - b)`: 2^32 is added first, since `-` stops at 0.
abbrev pub sub32 : ℕ → ℕ → ℕ
sub32 a b = (a + 2 ^ 32 - b) % 2 ^ 32

-- `(int32_t)(a - b) < 0`
abbrev pub before32 : ℕ → ℕ → Bool
before32 a b = leb (2 ^ 31) (sub32 a b)
