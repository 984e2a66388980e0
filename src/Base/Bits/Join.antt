-- ===== src/Base/Bits/Join.antt =====
-- Fields of a word put together by `|`.
use Prim.Native.Nat.{ℕ, zero, suc, ◌+◌, ◌*◌, ◌/◌, ◌^◌, ◌≤◌, ◌<◌, bit_or}
use mathlib.Core.Path.{◌≡◌, refl, ap, ◌∙◌}
use native.Mathlib.Omega.{arith}
use native.Mathlib.Nat.{pow-suc}
use flexplane.Base.Bits.Step.{bit_or_step}

pub bit_or-zero : (n a : ℕ) → a ≤ n → bit_or a 0 ≡ a
bit_or-zero n zero h = refl
bit_or-zero zero (suc a) h = absurd (omega arith)
bit_or-zero (suc n) (suc a) h =
    omega (arith, bit_or_step (suc a) 0, bit_or-zero n (suc a / 2) (omega arith))

-- Where the fields do not overlap, `|` adds them.
pub bit_or-fields : (k a f : ℕ) → f < 2 ^ k → bit_or (a * 2 ^ k) f ≡ a * 2 ^ k + f
bit_or-fields zero a f h =
    let none : f ≡ 0 = omega arith in
    let one : a * 2 ^ 0 ≡ a = omega arith in
    rw (none, one) (bit_or-zero a a (omega arith) ∙ omega arith)
bit_or-fields (suc k) a f h =
    let double : a * 2 ^ suc k ≡ 2 * (a * 2 ^ k) =
      omega (arith, ap (λ (t : ℕ). a * t) (pow-suc 2 k)) in
    let half : a * 2 ^ suc k / 2 ≡ a * 2 ^ k = omega (arith, double) in
    let low : f / 2 < 2 ^ k = omega (arith, pow-suc 2 k) in
    omega (
      arith,
      double,
      bit_or_step (a * 2 ^ suc k) f,
      ap (λ (t : ℕ). bit_or t (f / 2)) half,
      bit_or-fields k a (f / 2) low,
    )
