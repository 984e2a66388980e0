-- ===== src/Base/Table.antt =====
-- A C array whose length does not matter to the code, as a function of the index.
use Prim.Native.Nat.{ℕ}
use mathlib.Core.Path.{◌≡◌, refl, fun_ext}
use mathlib.Core.Logic.{inl, inr}
use native.Mathlib.Omega.{arith}
use flexplane.Base.Tests.{◌==◌, if◌then◌else◌, Bool-cases}

unfoldable pub update {ℓ} : {A : Type ℓ} → (ℕ → A) → ℕ → A → ℕ → A
update f i v j = if i == j then v else f j

pub update_lem {ℓ} :
    {A : Type ℓ} (f : ℕ → A) (i j : ℕ) (v : A) → update f i v j ≡ (if i == j then v else f j)
unfolding update
update_lem f i j v = ground arith

pub update-update {ℓ} :
    {A : Type ℓ} (f : ℕ → A) (i : ℕ) (v w : A) → update (update f i v) i w ≡ update f i w
update-update f i v w = fun_ext λ j. elim (Bool-cases (i == j)) [
  | inl same ↦ rw (update_lem (update f i v) i j w, update_lem f i j w, same) refl
  | inr other ↦
      rw (update_lem (update f i v) i j w, update_lem f i j w, other, update_lem f i j v, other)
        refl
]
