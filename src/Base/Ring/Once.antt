-- ===== src/Base/Ring/Once.antt =====
-- A queue of numbers below 256 with a flag for each number: a number is added if its flag is
-- clear, which then is set, and the flag is cleared when the number leaves.
use Prim.Native.Nat.{ℕ, suc, ◌-◌, ◌^◌, ◌<◌, ◌≤◌}
use mathlib.Core.Path.{◌≡◌, refl, ap, ◌∙◌, sym, subst, fun_ext}
use mathlib.Core.Logic.{◌≢◌}
use mathlib.Core.Bool.{Bool, true, false, ◌&&◌}
use mathlib.Core.List.{List, [], ◌∷◌, ◌++◌}
use native.Mathlib.Omega.{arith}
use flexplane.Base.Tests.{if◌then◌else◌, ltb}
use flexplane.Base.Lists.{count, count-append, length}
use flexplane.Base.Word.{sub32, add32}
use flexplane.Base.Table.{update, update_lem}
use flexplane.Base.Count.{
  count_below, count_below_insert, count_below-lt, count_below_none, count_below-le,
}
use flexplane.Base.Ring.{entries, entries-push, length-entries}

module _ (pos : ℕ → ℕ) where
  pub queued : (ℕ → ℕ) → ℕ → ℕ → List ℕ
  queued cells head tail = entries pos cells head (sub32 tail head)

  -- Each flagged number is queued once, and no other.
  pub record IsOnce (cells : ℕ → ℕ) (head tail : ℕ) (flag : ℕ → Bool) : Type 0 where
    pub head_small : head < 2 ^ 32
    pub tail_small : tail < 2 ^ 32
    pub sized : sub32 tail head ≡ count_below 256 flag
    pub once : (k : ℕ) → count k (queued cells head tail) ≡ (if flag k && ltb k 256 then 1 else 0)

  pub empty-IsOnce : (cells : ℕ → ℕ) → IsOnce cells 0 0 (λ k. false)
  unfolding queued entries
  empty-IsOnce cells = record {
    head_small = omega arith;
    tail_small = omega arith;
    sized = sym (count_below_none 256 (λ k. false) (λ i p. refl));
    once = λ k. refl;
  }

  pub length-queued :
      (cells : ℕ → ℕ) (head tail : ℕ) (flag : ℕ → Bool)
      → IsOnce cells head tail flag
      → (length (queued cells head tail) ≡ sub32 tail head)
        × (length (queued cells head tail) ≤ 256)
  unfolding queued
  length-queued cells head tail flag v =
      let n = length-entries pos cells head (sub32 tail head) in
      (n, omega (arith, n, v.sized, count_below-le 256 flag))

  pub queued-empty : (cells : ℕ → ℕ) (head tail : ℕ) → head ≡ tail → queued cells head tail ≡ []
  unfolding queued entries
  queued-empty cells head tail e =
      let none : sub32 tail head ≡ 0 = rw e (omega arith) in rw none refl

  module _ (apart : (h i j : ℕ) → i < j → j < 256 → pos (add32 h i) ≢ pos (add32 h j)) where
    pub push-IsOnce :
        (cells : ℕ → ℕ) (head tail : ℕ) (flag : ℕ → Bool) (d : ℕ)
        → IsOnce cells head tail flag
        → d < 256
        → flag d ≡ false
        → (queued (update cells (pos tail) d) head (add32 tail 1)
            ≡ queued cells head tail ++ d ∷ [])
          × IsOnce (update cells (pos tail) d) head (add32 tail 1) (update flag d true)
    unfolding queued
    push-IsOnce cells head tail flag d v small clear =
        let n = sub32 tail head in
        let hs = v.head_small in
        let ts = v.tail_small in
        let room : n < 256 = omega (arith, v.sized, count_below-lt 256 d flag small clear) in
        let at : add32 head n ≡ tail = omega arith in
        let longer : sub32 (add32 tail 1) head ≡ suc n = omega arith in
        let pushed = entries-push pos cells d head n hs (λ i lt. apart head i n lt room) in
        let queue : entries pos (update cells (pos tail) d) head (sub32 (add32 tail 1) head)
            ≡ entries pos cells head n ++ d ∷ [] =
          rw longer (rw at at pushed) in
        (
          queue,
          record {
            head_small = hs;
            tail_small = omega arith;
            sized =
                longer
                ∙ omega (
                  arith,
                  v.sized,
                  count_below_insert 256 d flag (update flag d true) small clear
                      (ground (arith, update_lem flag d d true))
                      (λ i p ne. ground (arith, update_lem flag d i true)),
                );
            once = λ k.
                ap (count k) queue
                ∙ count-append k (entries pos cells head n) (d ∷ [])
                ∙ ground (arith, v.once k, update_lem flag d k true, clear);
          },
        )

    pub pop-IsOnce :
        (cells : ℕ → ℕ) (head tail : ℕ) (flag : ℕ → Bool)
        → IsOnce cells head tail flag
        → head ≢ tail
        → (queued cells head tail ≡ cells (pos head) ∷ queued cells (add32 head 1) tail)
          × (flag (cells (pos head)) ≡ true)
          × (cells (pos head) < 256)
          × IsOnce cells (add32 head 1) tail (update flag (cells (pos head)) false)
    unfolding queued entries
    pop-IsOnce cells head tail flag v ne =
        let m = sub32 tail head - 1 in
        let d = cells (pos head) in
        let hs = v.head_small in
        let ts = v.tail_small in
        let some : sub32 tail head ≡ suc m = omega arith in
        let left : sub32 tail (add32 head 1) ≡ m = omega arith in
        let rest = entries pos cells (add32 head 1) m in
        let queue : entries pos cells head (sub32 tail head) ≡ d ∷ rest =
          ap (entries pos cells head) some in
        let counts = λ (k : ℕ). sym (ap (count k) queue) ∙ v.once k in
        let set : (flag d ≡ true) × (d < 256) =
          (ground (arith, counts d), ground (arith, counts d)) in
        (
          rw left queue,
          set.0,
          set.1,
          record {
            head_small = omega arith;
            tail_small = ts;
            sized =
                left
                ∙ omega (
                  arith,
                  v.sized,
                  some,
                  count_below_insert 256 d (update flag d false) flag set.1
                      (ground (arith, update_lem flag d d false)) set.0
                      (λ i p q. ground (arith, update_lem flag d i false)),
                );
            once = λ k. rw left (ground (arith, counts k, update_lem flag d k false, set.0, set.1));
          },
        )

  -- Only the values of the flags count.
  pub IsOnce-congr :
      (cells : ℕ → ℕ) (head tail : ℕ) (f g : ℕ → Bool)
      → ((k : ℕ) → f k ≡ g k)
      → IsOnce cells head tail f
      → IsOnce cells head tail g
  IsOnce-congr cells head tail f g same v = subst (IsOnce cells head tail) (fun_ext same) v
