-- ===== src/Base/Word.antt =====
-- Fixed-width arithmetic of C: casts, wrapping sums and differences, shifts and complements.
use Prim.Native.Nat.{ℕ, ◌+◌, ◌-◌, ◌*◌, ◌/◌, ◌%◌, ◌^◌}

abbrev pub u8 : ℕ → ℕ
u8 n = n % 2 ^ 8

abbrev pub u16 : ℕ → ℕ
u16 n = n % 2 ^ 16

abbrev pub u32 : ℕ → ℕ
u32 n = n % 2 ^ 32

abbrev pub u64 : ℕ → ℕ
u64 n = n % 2 ^ 64

-- `a - b` on 64-bit, 32-bit and 16-bit words; the modulus comes first, since `-` stops at 0.
abbrev pub sub64 : ℕ → ℕ → ℕ
sub64 a b = (a + 2 ^ 64 - b) % 2 ^ 64

abbrev pub sub32 : ℕ → ℕ → ℕ
sub32 a b = (a + 2 ^ 32 - b) % 2 ^ 32

abbrev pub sub16 : ℕ → ℕ → ℕ
sub16 a b = (a + 2 ^ 16 - b) % 2 ^ 16

abbrev pub add64 : ℕ → ℕ → ℕ
add64 a b = (a + b) % 2 ^ 64

abbrev pub add32 : ℕ → ℕ → ℕ
add32 a b = (a + b) % 2 ^ 32

-- `w << k` and `w >> k` on 64-bit words, for k below 64.
abbrev pub shl64 : ℕ → ℕ → ℕ
shl64 w k = w * 2 ^ k % 2 ^ 64

abbrev pub shr64 : ℕ → ℕ → ℕ
shr64 w k = w / 2 ^ k

-- `~w` on a 64-bit word.
abbrev pub not64 : ℕ → ℕ
not64 w = 2 ^ 64 - 1 - w

abbrev pub ones64 : ℕ
ones64 = 2 ^ 64 - 1
