-- ===== src/Protocol/BitArray.antt =====
-- protocol/platform/generic.h: the bit operations, by bits.
use flexplane.Base.{
  ℕ, ◌+◌, ◌-◌, ◌*◌, ◌/◌, ◌%◌, ◌^◌, ◌≤◌, ◌<◌, bit_and, bit_or, ◌≡◌, ap, ◌∙◌, Bool, true, false,
  Bool-cases, inl, inr, not, ◌&&◌, ◌||◌, List, ◌==◌, length, get_or, length-set, get_or-set,
  get_or-set_ne, ◌≢◌, not64, arith,
}
use flexplane.Base.Bits.{
  bit, bit-one, bit_lowest, bit-bit_and, bit-bit_or, bit-div, bit-mul, bit-mod, bit-complement,
  bit_and-mask, bit_and-lt-pow, bit_or-lt-pow, ne_zero_of_bit, bit_of_ne_zero, ctz_lowest,
  clz_highest,
}
use flexplane.Protocol.Platform.{bit_mask, set_bit, clear_bit, test_bit, ffs, fls}

-- Bit p of an array of 64-bit words.
abbrev pub bit_at : List ℕ → ℕ → Bool
bit_at ws p = bit (get_or ws (p / 64) 0) (p % 64)

abbrev pub AreWords : List ℕ → Type 0
AreWords ws = (i : ℕ) → get_or ws i 0 < 2 ^ 64

pub bit_mask-lt : (nr : ℕ) → bit_mask nr < 2 ^ 64
bit_mask-lt nr = omega arith

pub bit-bit_mask : (nr i : ℕ) → bit (bit_mask nr) i ≡ (nr % 64 == i)
bit-bit_mask nr i =
    bit-mod 64 (1 * 2 ^ (nr % 64)) i ∙ ground (arith, bit-mul (nr % 64) 1 i, bit-one (i - nr % 64))

-- `__set_bit` sets its bit and no other.
pub bit_at-set_bit :
    (p q : ℕ) (ws : List ℕ)
    → p < 64 * length ws
    → bit_at (set_bit p ws) q ≡ ((p == q) || bit_at ws q)
unfolding set_bit
bit_at-set_bit p q ws h = ground (
  arith,
  get_or-set ws (p / 64) (q / 64) (bit_or (get_or ws (p / 64) 0) (bit_mask p)) 0,
  bit-bit_or (get_or ws (p / 64) 0) (bit_mask p) (q % 64),
  bit-bit_mask p (q % 64),
)

-- `__clear_bit` clears its bit and no other.
pub bit_at-clear_bit :
    (p q : ℕ) (ws : List ℕ)
    → p < 64 * length ws
    → bit_at (clear_bit p ws) q ≡ (not (p == q) && bit_at ws q)
unfolding clear_bit
bit_at-clear_bit p q ws h = ground (
  arith,
  get_or-set ws (p / 64) (q / 64) (bit_and (get_or ws (p / 64) 0) (not64 (bit_mask p))) 0,
  bit-bit_and (get_or ws (p / 64) 0) (not64 (bit_mask p)) (q % 64),
  bit-complement 64 (bit_mask p) (q % 64) (bit_mask-lt p),
  bit-bit_mask p (q % 64),
)

-- The other words stay.
pub get_or-set_bit :
    (p k : ℕ) (ws : List ℕ) → p / 64 ≢ k → get_or (set_bit p ws) k 0 ≡ get_or ws k 0
unfolding set_bit
get_or-set_bit p k ws ne = get_or-set_ne ws (p / 64) k _ 0 ne

pub get_or-clear_bit :
    (p k : ℕ) (ws : List ℕ) → p / 64 ≢ k → get_or (clear_bit p ws) k 0 ≡ get_or ws k 0
unfolding clear_bit
get_or-clear_bit p k ws ne = get_or-set_ne ws (p / 64) k _ 0 ne

bit_and-one : (w : ℕ) → bit_and 1 w < 2
bit_and-one w = bit_and-lt-pow 1 1 w (omega arith)

-- `test_bit` reads one bit.
pub test_bit-eq-bit_at : (p : ℕ) (ws : List ℕ) → not (test_bit p ws == 0) ≡ bit_at ws p
unfolding test_bit
test_bit-eq-bit_at p ws =
    let word = get_or ws (p / 64) 0 in
    let shift = bit_and p 63 in
    ground (
      arith,
      bit_lowest (bit_and 1 (word / 2 ^ shift)),
      bit_and-one (word / 2 ^ shift),
      bit-bit_and 1 (word / 2 ^ shift) 0,
      bit-one 0,
      bit-div shift word 0,
      ap (λ (k : ℕ). bit word k)
          (let e : 0 + shift ≡ p % 64 = omega (arith, bit_and-mask 6 p) in e),
    )

pub AreWords-set_bit :
    (p : ℕ) (ws : List ℕ) → p < 64 * length ws → AreWords ws → AreWords (set_bit p ws)
unfolding set_bit
AreWords-set_bit p ws h w i = ground (
  arith,
  get_or-set ws (p / 64) i (bit_or (get_or ws (p / 64) 0) (bit_mask p)) 0,
  bit_or-lt-pow 64 (get_or ws (p / 64) 0) (bit_mask p) (w (p / 64)) (bit_mask-lt p),
  w i,
)

pub AreWords-clear_bit :
    (p : ℕ) (ws : List ℕ) → p < 64 * length ws → AreWords ws → AreWords (clear_bit p ws)
unfolding clear_bit
AreWords-clear_bit p ws h w i = ground (
  arith,
  get_or-set ws (p / 64) i (bit_and (get_or ws (p / 64) 0) (not64 (bit_mask p))) 0,
  bit_and-lt-pow 64 (get_or ws (p / 64) 0) (not64 (bit_mask p)) (w (p / 64)),
  w i,
)

pub length-set_bit : (p : ℕ) (ws : List ℕ) → length (set_bit p ws) ≡ length ws
unfolding set_bit
length-set_bit p ws = length-set ws (p / 64) _

pub length-clear_bit : (p : ℕ) (ws : List ℕ) → length (clear_bit p ws) ≡ length ws
unfolding clear_bit
length-clear_bit p ws = length-set ws (p / 64) _

-- `__ffs` of a word finds its lowest set bit.
pub ffs_lowest : (w j : ℕ) → j < 64 → bit w j ≡ true → (ffs w ≤ j) × (bit w (ffs w) ≡ true)
unfolding ffs
ffs_lowest w j h b = ground (arith, ctz_lowest 64 w j h b, ne_zero_of_bit w j b)

-- `__fls` of a word finds its highest set bit.
pub fls_highest :
    (w j : ℕ) → j < 64 → bit w j ≡ true → (fls w < 64) × (j ≤ fls w) × (bit w (fls w) ≡ true)
unfolding fls
fls_highest w j h b = let top = clz_highest 64 w j h b in (omega arith, top.1, top.2)

-- No bit is set above the one that `__fls` finds, nor below the one that `__ffs` finds.
pub bit_above_fls : (w i : ℕ) → i < 64 → fls w < i → bit w i ≡ false
bit_above_fls w i h above = elim (Bool-cases (bit w i)) [
  | inl set ↦ absurd (omega (arith, fls_highest w i h set))
  | inr clear ↦ clear
]

pub bit_below_ffs : (w i : ℕ) → i < 64 → i < ffs w → bit w i ≡ false
bit_below_ffs w i h below = elim (Bool-cases (bit w i)) [
  | inl set ↦ absurd (omega (arith, ffs_lowest w i h set))
  | inr clear ↦ clear
]

-- A word that is not zero has the bits that both searches find.
pub bit-fls : (w : ℕ) → w < 2 ^ 64 → w ≢ 0 → (fls w < 64) × (bit w (fls w) ≡ true)
bit-fls w h ne =
    let (j, j_lt, set) = bit_of_ne_zero 64 w h ne in
    let top = fls_highest w j j_lt set in (top.0, top.2)

pub bit-ffs : (w : ℕ) → w < 2 ^ 64 → w ≢ 0 → (ffs w < 64) × (bit w (ffs w) ≡ true)
bit-ffs w h ne =
    let (j, j_lt, set) = bit_of_ne_zero 64 w h ne in
    let low = ffs_lowest w j j_lt set in (omega arith, low.1)
