-- ===== src/Base/Ring.antt =====
-- Queues of C in an array: free-running 32-bit counters for the head and the tail, and a function
-- from a counter to a place of the array.
pub mod Once
use Prim.Native.Nat.{ℕ, zero, suc, ◌+◌, ◌%◌, ◌^◌, ◌<◌}
use mathlib.Core.Path.{◌≡◌, refl, ap, ◌∙◌}
use mathlib.Core.Logic.{◌≢◌}
use mathlib.Core.List.{List, [], ◌∷◌, ◌++◌}
use native.Mathlib.Omega.{arith}
use flexplane.Base.Tests.{◌==◌, if◌then◌else◌, ==-refl}
use flexplane.Base.Lists.{length}
use flexplane.Base.Word.{u32, sub32, add32}
use flexplane.Base.Table.{update, update_lem}

module _ {ℓ} {A : Type ℓ} (pos : ℕ → ℕ) where
  -- `n` entries from the counter `head` on.
  unfoldable pub entries : (ℕ → A) → ℕ → ℕ → List A
  entries cells head zero = []
  entries cells head (suc n) = cells (pos head) ∷ entries cells (add32 head 1) n

  pub length-entries : (cells : ℕ → A) (head n : ℕ) → length (entries cells head n) ≡ n
  unfolding entries
  length-entries cells head zero = refl
  length-entries cells head (suc n) = ap suc (length-entries cells (add32 head 1) n)

  -- A write outside of the entries does not change them.
  pub entries-update :
      (cells : ℕ → A) (p : ℕ) (v : A) (head n : ℕ)
      → head < 2 ^ 32
      → ((i : ℕ) → i < n → pos (add32 head i) ≢ p)
      → entries (update cells p v) head n ≡ entries cells head n
  unfolding entries
  entries-update cells p v head zero h out = refl
  entries-update cells p v head (suc n) h out =
      let here : head ≡ add32 head 0 = omega arith in
      let first : pos head ≢ p = λ e. out 0 (omega arith) (ap pos (omega arith) ∙ e) in
      let rest =
        entries-update cells p v (add32 head 1) n (omega arith)
          λ i lt e. out (suc i) (omega arith) (ap pos (omega arith) ∙ e) in
      let same : update cells p v (pos head) ≡ cells (pos head) =
        ground (arith, update_lem cells p (pos head) v) in
      rw (same, rest) refl

  entries_snoc :
      (cells : ℕ → A) (head n : ℕ)
      → head < 2 ^ 32
      → entries cells head (suc n) ≡ entries cells head n ++ cells (pos (add32 head n)) ∷ []
  unfolding entries
  entries_snoc cells head zero h = let e : add32 head 0 ≡ head = omega arith in rw e refl
  entries_snoc cells head (suc n) h =
      let e : add32 (add32 head 1) n ≡ add32 head (suc n) = omega arith in
      ap (λ (xs : List A). cells (pos head) ∷ xs)
        (rw (← e) (entries_snoc cells (add32 head 1) n (omega arith)))

  -- A write at the tail appends an entry, where it hits no place in use.
  pub entries-push :
      (cells : ℕ → A) (v : A) (head n : ℕ)
      → head < 2 ^ 32
      → ((i : ℕ) → i < n → pos (add32 head i) ≢ pos (add32 head n))
      → entries (update cells (pos (add32 head n)) v) head (suc n) ≡ entries cells head n ++ v ∷ []
  entries-push cells v head n h out =
      let p = pos (add32 head n) in
      let here : update cells p v p ≡ v = ground (arith, update_lem cells p p v) in
      entries_snoc (update cells p v) head n h
      ∙ rw (here, entries-update cells p v head n h out) refl
