-- ===== src/Base/Checked.antt =====
-- Code with run-time checks: `bug` is a FASTPASS_BUG_ON or an assert that fires.
use mathlib.Core.Bool.{Bool, true, false}
use mathlib.Core.Path.{◌≡◌, ap}

pub data Checked {ℓ} (A : Type ℓ) : Type ℓ where
  ok : A → Checked A
  bug : Checked A

infixl 5 ◌>>=◌ ◌>>◌
abbrev pub ◌>>=◌ {ℓ κ} : {A : Type ℓ} {B : Type κ} → Checked A → (A → Checked B) → Checked B
ok a >>= f = f a
bug >>= f = bug

abbrev pub ◌>>◌ {ℓ} : {B : Type ℓ} → Checked (Unit {0}) → Checked B → Checked B
m >> k = m >>= λ _. k

-- FASTPASS_BUG_ON(b)
abbrev pub bug_on : Bool → Checked (Unit {0})
bug_on true = bug
bug_on false = ok tt

pub ok-injective {ℓ} : {A : Type ℓ} {a b : A} → ok a ≡ ok b → a ≡ b
ok-injective {A} {a} e = ap (value a) e
  where
    value : A → Checked A → A
    value d (ok x) = x
    value d bug = d
