-- ===== src/Prelude/Refuse.antt =====
-- A check that passes with a value or is refused with a reason, and guards in front of it.
use mathlib.Core.Path.{◌≡◌, refl}
use mathlib.Core.Bool.{Bool, true, false}

pub data Verdict {ℓ κ} (E : Type ℓ) (A : Type κ) : Type (ℓ ⊔ κ) where
  pass : A → Verdict E A
  refuse : E → Verdict E A

-- An early return with a reason.
abbrev pub refuse_if {ℓ κ} : {E : Type ℓ} {A : Type κ} → Bool → E → Verdict E A → Verdict E A
refuse_if true e k = refuse e
refuse_if false e k = k

pub refuse_if-pass {ℓ κ} :
    {E : Type ℓ} {A : Type κ} {a : A} (b : Bool) (e : E) (k : Verdict E A)
    → refuse_if b e k ≡ pass a
    → (b ≡ false) × (k ≡ pass a)
refuse_if-pass true e k h = cc
refuse_if-pass false e k h = (refl, h)

pub eq_of_pass {ℓ κ} :
    {E : Type ℓ} {A : Type κ} {a b : A} → ◌≡◌ {A = Verdict E A} (pass a) (pass b) → a ≡ b
eq_of_pass h = cc
