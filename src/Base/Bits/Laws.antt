-- ===== src/Base/Bits/Laws.antt =====
-- `bit w i`, and the value of each operation at each bit.
use Prim.Native.Nat.{
  ℕ, zero, suc, ◌+◌, ◌-◌, ◌*◌, ◌/◌, ◌%◌, ◌^◌, ◌≤◌, ◌<◌, bit_and, bit_or, bit_xor, differ,
  bit_and-bitwise,
}
use mathlib.Core.Path.{◌≡◌, refl, sym, ap, ◌∙◌}
use mathlib.Core.Logic.{◌≢◌, inl, inr}
use mathlib.Core.Bool.{Bool, true, false, not, ◌&&◌, ◌||◌}
use native.Mathlib.Nat.{
  pow-suc, pow-succ', div-div-eq-div-mul, div-one, mod-one, div-add-mod, one-le-pow,
}
use native.Mathlib.Omega.{arith}
use flexplane.Base.Tests.{ltb, leb, ◌==◌, if◌then◌else◌, Bool-cases}
use flexplane.Base.Bits.Step.{bit_xor_step, bit_and_step, bit_or_step}

-- Whether bit i of w is set.
pub bit : ℕ → ℕ → Bool
bit w zero = w % 2 == 1
bit w (suc i) = bit (w / 2) i

pub bit-zero : (i : ℕ) → bit 0 i ≡ false
unfolding bit
bit-zero zero = refl
bit-zero (suc i) = bit-zero i

pub bit-bit_and : (a b i : ℕ) → bit (bit_and a b) i ≡ (bit a i && bit b i)
unfolding bit
bit-bit_and a b zero = ground (arith, bit_and_step a b)
bit-bit_and a b (suc i) =
    ap (λ w. bit w i) (omega (arith, bit_and_step a b)) ∙ bit-bit_and (a / 2) (b / 2) i

pub bit-bit_or : (a b i : ℕ) → bit (bit_or a b) i ≡ (bit a i || bit b i)
unfolding bit
bit-bit_or a b zero = ground (arith, bit_or_step a b)
bit-bit_or a b (suc i) =
    ap (λ w. bit w i) (omega (arith, bit_or_step a b)) ∙ bit-bit_or (a / 2) (b / 2) i

-- Exclusive or on two digits.
differ_digits : (a b : ℕ) → a < 2 → b < 2 → differ a b ≡ (a + b) % 2
differ_digits zero b h k = omega arith
differ_digits (suc zero) zero h k = refl
differ_digits (suc zero) (suc zero) h k = refl
differ_digits (suc zero) (suc (suc b)) h k = absurd (omega arith)
differ_digits (suc (suc a)) b h k = absurd (omega arith)

pub bit-bit_xor : (a b i : ℕ) → bit (bit_xor a b) i ≡ (if bit b i then not (bit a i) else bit a i)
unfolding bit
bit-bit_xor a b zero =
    ground (arith, bit_xor_step a b, differ_digits (a % 2) (b % 2) (omega arith) (omega arith))
bit-bit_xor a b (suc i) =
    ap (λ w. bit w i)
      (omega (arith, bit_xor_step a b, differ_digits (a % 2) (b % 2) (omega arith) (omega arith)))
    ∙ bit-bit_xor (a / 2) (b / 2) i

div-pow-suc : (w k : ℕ) → w / 2 ^ suc k ≡ w / 2 / 2 ^ k
div-pow-suc w k = ap (λ t. w / t) (pow-succ' 2 k) ∙ sym (div-div-eq-div-mul w 2 (2 ^ k))

pub bit-div : (k w i : ℕ) → bit (w / 2 ^ k) i ≡ bit w (i + k)
bit-div zero w i = ap (λ v. bit v i) (div-one w) ∙ ap (bit w) (omega arith)
bit-div (suc k) w i =
    ap (λ v. bit v i) (div-pow-suc w k)
    ∙ bit-div k (w / 2) i
    ∙ unfold bit in sym (ap (bit w) (let e : i + suc k ≡ suc (i + k) = omega arith in e))

mul-pow-suc : (w k : ℕ) → w * 2 ^ suc k ≡ 2 * (w * 2 ^ k)
mul-pow-suc w k = omega (arith, ap (λ (t : ℕ). w * t) (pow-suc 2 k))

-- The bits of a left shift.
pub bit-mul : (k w i : ℕ) → bit (w * 2 ^ k) i ≡ (leb k i && bit w (i - k))
unfolding bit
bit-mul zero w i = ground arith
bit-mul (suc k) w zero = ground (arith, mul-pow-suc w k)
bit-mul (suc k) w (suc i) =
    ap (λ v. bit v i) (omega (arith, mul-pow-suc w k)) ∙ bit-mul k w i ∙ ground arith

mod-pow-suc : (w n : ℕ) → w % 2 ^ suc n ≡ 2 * (w / 2 % 2 ^ n) + w % 2
mod-pow-suc w n = omega (
  arith,
  div-add-mod w (2 ^ suc n),
  div-add-mod (w / 2) (2 ^ n),
  ap (λ (t : ℕ). 2 ^ suc n * t) (div-pow-suc w n),
  ap (λ (t : ℕ). t * (w / 2 / 2 ^ n)) (pow-suc 2 n),
)

-- The bits of a cast to n bits.
pub bit-mod : (n w i : ℕ) → bit (w % 2 ^ n) i ≡ (ltb i n && bit w i)
unfolding bit
bit-mod zero w i = rw (mod-one w, bit-zero i) (ground arith)
bit-mod (suc n) w zero = ground (arith, mod-pow-suc w n)
bit-mod (suc n) w (suc i) =
    ap (λ v. bit v i) (omega (arith, mod-pow-suc w n)) ∙ bit-mod n (w / 2) i ∙ ground arith

-- The bits of a complement on n bits.
pub bit-complement : (n w i : ℕ) → w < 2 ^ n → bit (2 ^ n - 1 - w) i ≡ (ltb i n && not (bit w i))
unfolding bit
bit-complement zero w i h = ap (λ v. bit v i) (omega arith) ∙ bit-zero i ∙ ground arith
bit-complement (suc n) w zero h = ground (arith, pow-suc 2 n)
bit-complement (suc n) w (suc i) h =
    ap (λ v. bit v i) (omega (arith, pow-suc 2 n))
    ∙ bit-complement n (w / 2) i (omega (arith, pow-suc 2 n))
    ∙ ground arith

pub bit-ge : (n w i : ℕ) → w < 2 ^ n → n ≤ i → bit w i ≡ false
unfolding bit
bit-ge zero w i h k = let e : w ≡ 0 = omega arith in rw e (bit-zero i)
bit-ge (suc n) w zero h k = absurd (omega arith)
bit-ge (suc n) w (suc i) h k = bit-ge n (w / 2) i (omega (arith, pow-suc 2 n)) (omega arith)

-- Words with the same bits are equal.
pub bits_ext : (n a b : ℕ) → a < 2 ^ n → b < 2 ^ n → ((i : ℕ) → i < n → bit a i ≡ bit b i) → a ≡ b
unfolding bit
bits_ext zero a b ha hb h = omega arith
bits_ext (suc n) a b ha hb h = ground (
  arith,
  h 0 (omega arith),
  bits_ext n (a / 2) (b / 2) (omega (arith, pow-suc 2 n)) (omega (arith, pow-suc 2 n))
      (λ i p. h (suc i) (omega arith)),
)

pub bit_lowest : (w : ℕ) → bit w 0 ≡ (w % 2 == 1)
unfolding bit
bit_lowest w = refl

pub bit-one : (i : ℕ) → bit 1 i ≡ (0 == i)
unfolding bit
bit-one zero = refl
bit-one (suc i) = bit-zero i ∙ ground arith

-- Counting zeros from the low end and from the high end of an n-bit word: what
-- `__builtin_ffsl` and `__builtin_clzl` are made of.
pub ctz : ℕ → ℕ → ℕ
ctz zero w = 0
ctz (suc n) w = if w % 2 == 1 then 0 else suc (ctz n (w / 2))

pub clz : ℕ → ℕ → ℕ
clz zero w = 0
clz (suc n) w = if bit w n then 0 else suc (clz n w)

-- Any set bit stands at or above the lowest one.
pub ctz_lowest : (n w j : ℕ) → j < n → bit w j ≡ true → (ctz n w ≤ j) × (bit w (ctz n w) ≡ true)
unfolding ctz bit
ctz_lowest zero w j h b = absurd (omega arith)
ctz_lowest (suc n) w zero h b = ground arith
ctz_lowest (suc n) w (suc j) h b = elim (Bool-cases (w % 2 == 1)) [
  | inl odd ↦ rw odd (omega arith, odd)
  | inr even ↦ let ih = ctz_lowest n (w / 2) j (omega arith) b in rw even (omega (arith, ih), ih.1)
]

-- Any set bit stands at or below the highest one.
pub clz_highest :
    (n w j : ℕ)
    → j < n
    → bit w j ≡ true
    → (clz n w < n) × (j ≤ n - 1 - clz n w) × (bit w (n - 1 - clz n w) ≡ true)
unfolding clz
clz_highest zero w j h b = absurd (omega arith)
clz_highest (suc n) w j h b = elim (Bool-cases (bit w n)) [
  | inl top ↦ rw top (omega arith, omega arith, ap (bit w) (omega arith) ∙ top)
  | inr low ↦
      let below : j < n = ground arith in
      let ih = clz_highest n w j below b in
      rw low (omega (arith, ih), omega (arith, ih), ap (bit w) (omega (arith, ih)) ∙ ih.2)
]

-- A word that is not zero has a set bit.
pub bit_of_ne_zero : (n w : ℕ) → w < 2 ^ n → w ≢ 0 → (j : ℕ) × (j < n) × (bit w j ≡ true)
unfolding bit
bit_of_ne_zero zero w h ne = absurd (ne (omega arith))
bit_of_ne_zero (suc n) w h ne = elim (Bool-cases (w % 2 == 1)) [
  | inl odd ↦ (0, omega arith, odd)
  | inr even ↦
      let rest = bit_of_ne_zero n (w / 2) (omega (arith, pow-suc 2 n)) (λ e. ne (ground arith)) in
      (suc rest.0, omega (arith, rest.1), rest.2)
]

pub ne_zero_of_bit : (w j : ℕ) → bit w j ≡ true → w ≢ 0
ne_zero_of_bit w j b e = cc (ap (λ v. bit v j) e, bit-zero j)

bit_and-zero : (n a : ℕ) → a ≤ n → bit_and a 0 ≡ 0
bit_and-zero n zero h = refl
bit_and-zero zero (suc a) h = absurd (omega arith)
bit_and-zero (suc n) (suc a) h =
    omega (arith, bit_and_step (suc a) 0, bit_and-zero n (suc a / 2) (omega arith))

-- A mask of k ones takes the remainder by 2 ^ k.
pub bit_and-mask : (k a : ℕ) → bit_and a (2 ^ k - 1) ≡ a % 2 ^ k
bit_and-mask zero a = rw (mod-one a) (bit_and-zero a a (omega arith))
bit_and-mask (suc k) a = omega (
  arith,
  bit_and_step a (2 ^ suc k - 1),
  mod-pow-suc a k,
  pow-suc 2 k,
  one-le-pow k 2 (omega arith),
  ap (λ (t : ℕ). bit_and (a / 2) t)
      (let e : (2 ^ suc k - 1) / 2 ≡ 2 ^ k - 1 = omega (arith, pow-suc 2 k) in e),
  bit_and-mask k (a / 2),
)

pub bit_and-lt-pow : (n a b : ℕ) → a < 2 ^ n → bit_and a b < 2 ^ n
bit_and-lt-pow zero a b h = let e : a ≡ 0 = omega arith in rw (e, bit_and-bitwise) (omega arith)
bit_and-lt-pow (suc n) a b h = omega (
  arith,
  bit_and_step a b,
  pow-suc 2 n,
  bit_and-lt-pow n (a / 2) (b / 2) (omega (arith, pow-suc 2 n)),
)

pub bit_or-lt-pow : (n a b : ℕ) → a < 2 ^ n → b < 2 ^ n → bit_or a b < 2 ^ n
bit_or-lt-pow zero a b h k =
    let e : a ≡ 0 = omega arith in let f : b ≡ 0 = omega arith in rw (e, f) (omega arith)
bit_or-lt-pow (suc n) a b h k = omega (
  arith,
  bit_or_step a b,
  pow-suc 2 n,
  bit_or-lt-pow n (a / 2) (b / 2) (omega (arith, pow-suc 2 n)) (omega (arith, pow-suc 2 n)),
)

-- `w & -w` keeps the lowest set bit alone.
pub bit-lowest : (n w i : ℕ) → w < 2 ^ n → w ≢ 0 → bit (bit_and w (2 ^ n - w)) i ≡ (i == ctz n w)
unfolding bit ctz
bit-lowest zero w i h ne = absurd (ne (omega arith))
bit-lowest (suc n) w zero h ne = ground (arith, bit_and_step w (2 ^ suc n - w), pow-suc 2 n)
bit-lowest (suc n) w (suc i) h ne = elim (Bool-cases (w % 2 == 1)) [
  | inl odd ↦ rw odd (
      ap (λ v. bit v i)
        (let e : bit_and w (2 ^ suc n - w) / 2 ≡ bit_and (w / 2) (2 ^ n - 1 - w / 2) = omega (
          arith,
          bit_and_step w (2 ^ suc n - w),
          ap (bit_and (w / 2))
              (let f : (2 ^ suc n - w) / 2 ≡ 2 ^ n - 1 - w / 2 = ground (arith, pow-suc 2 n) in f),
        ) in
          e)
      ∙ ground (
        arith,
        bit-bit_and (w / 2) (2 ^ n - 1 - w / 2) i,
        bit-complement n (w / 2) i (omega (arith, pow-suc 2 n)),
      ))
  | inr even ↦ rw even (
      ap (λ v. bit v i)
        (let e : bit_and w (2 ^ suc n - w) / 2 ≡ bit_and (w / 2) (2 ^ n - w / 2) = omega (
          arith,
          bit_and_step w (2 ^ suc n - w),
          ap (bit_and (w / 2))
              (let f : (2 ^ suc n - w) / 2 ≡ 2 ^ n - w / 2 = ground (arith, pow-suc 2 n) in f),
        ) in
          e)
      ∙ bit-lowest n (w / 2) i (omega (arith, pow-suc 2 n)) (λ z. ne (ground arith))
      ∙ ground arith)
]
