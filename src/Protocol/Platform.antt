-- ===== src/Protocol/Platform.antt =====
-- The parts of protocol/platform/generic.h that the protocol computes with: time comparisons on
-- wrapping 64-bit numbers, single bits of an array of words, and the searches for a set bit.
-- `unsigned long` has 64 bits.
use flexplane.Base.{
  ℕ, suc, ◌-◌, ◌/◌, ◌%◌, ◌^◌, bit_and, bit_or, Bool, List, ltb, leb, ◌==◌, if◌then◌else◌, get_or,
  set, sub64, shl64, shr64, not64,
}
use flexplane.Base.Bits.{ctz, clz}

-- A negative `__s64` is a word of at least 2 ^ 63.
abbrev pub time_after64 : ℕ → ℕ → Bool
time_after64 a b = leb (2 ^ 63) (sub64 b a)

abbrev pub time_before64 : ℕ → ℕ → Bool
time_before64 a b = time_after64 b a

abbrev pub time_after_eq64 : ℕ → ℕ → Bool
time_after_eq64 a b = ltb (sub64 a b) (2 ^ 63)

abbrev pub time_before_eq64 : ℕ → ℕ → Bool
time_before_eq64 a b = time_after_eq64 b a

abbrev pub bits_per_long : ℕ
bits_per_long = 64

abbrev pub bit_mask : ℕ → ℕ
bit_mask nr = shl64 1 (nr % bits_per_long)

abbrev pub bit_word : ℕ → ℕ
bit_word nr = nr / bits_per_long

unfoldable pub set_bit : ℕ → List ℕ → List ℕ
set_bit nr addr = set addr (bit_word nr) (bit_or (get_or addr (bit_word nr) 0) (bit_mask nr))

unfoldable pub clear_bit : ℕ → List ℕ → List ℕ
clear_bit nr addr =
    set addr (bit_word nr) (bit_and (get_or addr (bit_word nr) 0) (not64 (bit_mask nr)))

unfoldable pub test_bit : ℕ → List ℕ → ℕ
test_bit nr addr = bit_and 1 (shr64 (get_or addr (bit_word nr) 0) (bit_and nr (bits_per_long - 1)))

-- `__builtin_ffsl` is one more than the index of the lowest set bit, and 0 for no bit;
-- `__builtin_clzl` counts the zeros above the highest one.
unfoldable pub ffs : ℕ → ℕ
ffs x = (if x == 0 then 0 else suc (ctz 64 x)) - 1

unfoldable pub fls : ℕ → ℕ
fls x = bits_per_long - 1 - clz 64 x
