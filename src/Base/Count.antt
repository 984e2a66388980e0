-- ===== src/Base/Count.antt =====
-- How many indices below a bound pass a test.
use Prim.Native.Nat.{ℕ, zero, suc, ◌+◌, ◌≤◌, ◌<◌}
use mathlib.Core.Path.{◌≡◌, refl}
use mathlib.Core.Logic.{◌≢◌, inl, inr}
use mathlib.Core.Bool.{Bool, true, false}
use native.Mathlib.Omega.{arith}
use flexplane.Base.Tests.{if◌then◌else◌, ◌==◌, Bool-cases}

pub count_below : ℕ → (ℕ → Bool) → ℕ
count_below zero f = 0
count_below (suc n) f = (if f n then 1 else 0) + count_below n f

pub count_below_congr :
    (n : ℕ) (f g : ℕ → Bool) → ((i : ℕ) → i < n → f i ≡ g i) → count_below n f ≡ count_below n g
unfolding count_below
count_below_congr zero f g h = refl
count_below_congr (suc n) f g h =
    ground (arith, h n (omega arith), count_below_congr n f g (λ i p. h i (omega arith)))

-- One index more makes the count one larger.
pub count_below_insert :
    (n k : ℕ) (f g : ℕ → Bool)
    → k < n
    → f k ≡ false
    → g k ≡ true
    → ((i : ℕ) → i < n → i ≢ k → f i ≡ g i)
    → count_below n g ≡ count_below n f + 1
unfolding count_below
count_below_insert zero k f g h a b e = absurd (omega arith)
count_below_insert (suc n) k f g h a b e = elim (Bool-cases (k == n)) [
  | inl same ↦
      let k≡n : k ≡ n = ground arith in
      ground (
        arith,
        rw k≡n at a,
        rw k≡n at b,
        count_below_congr n f g (λ i p. e i (omega arith) (omega arith)),
      )
  | inr other ↦
      let below : k < n = ground arith in
      ground (
        arith,
        e n (omega arith) (omega arith),
        count_below_insert n k f g below a b (λ i p q. e i (omega arith) q),
      )
]

pub count_below_zero : (n : ℕ) (f : ℕ → Bool) → count_below n f ≡ 0 → (i : ℕ) → i < n → f i ≡ false
unfolding count_below
count_below_zero zero f h i p = absurd (omega arith)
count_below_zero (suc n) f h i p = elim (Bool-cases (i == n)) [
  | inl same ↦ let e : i ≡ n = ground arith in rw e (ground arith)
  | inr other ↦ count_below_zero n f (ground arith) i (ground arith)
]

pub count_below_none :
    (n : ℕ) (f : ℕ → Bool) → ((i : ℕ) → i < n → f i ≡ false) → count_below n f ≡ 0
unfolding count_below
count_below_none zero f h = refl
count_below_none (suc n) f h =
    ground (arith, h n (omega arith), count_below_none n f (λ i p. h i (omega arith)))

pub count_below-le : (n : ℕ) (f : ℕ → Bool) → count_below n f ≤ n
unfolding count_below
count_below-le zero f = omega arith
count_below-le (suc n) f = ground (arith, count_below-le n f)

pub count_below-lt : (n k : ℕ) (f : ℕ → Bool) → k < n → f k ≡ false → count_below n f < n
count_below-lt n k f h e =
    let g = λ (i : ℕ). if i == k then true else f i in
    omega (
      arith,
      count_below-le n g,
      count_below_insert n k f g h e (ground arith) (λ i p ne. ground arith),
    )
