-- ===== src/Prelude/Break.antt =====
-- Code that may leave early. `none` is a `break` (or a `return`) that changes nothing, and `some`
-- carries what the code has computed. `Ensures P m` says that `P` holds of what `m` returns, if it
-- returns; the rules go through a `do` block step by step.
use mathlib.Core.Path.{◌≡◌, refl}
use mathlib.Core.Bool.{Bool, true, false}
use mathlib.Core.Option.{Option, none, some}
use api_bloxfi.Prelude.Tests.{if◌then◌else◌}

infixl 5 ◌>>=◌ ◌>>◌
abbrev pub ◌>>=◌ {ℓ κ} : {A : Type ℓ} {B : Type κ} → Option A → (A → Option B) → Option B
none >>= f = none
some a >>= f = f a

abbrev pub ◌>>◌ {ℓ} : {B : Type ℓ} → Option (Unit {0}) → Option B → Option B
m >> k = m >>= λ _. k

-- The code goes on only if the test holds.
abbrev pub require : Bool → Option (Unit {0})
require true = some tt
require false = none

-- The first of two attempts that goes through.
abbrev pub or_try {ℓ} : {A : Type ℓ} → Option A → Option A → Option A
or_try none k = k
or_try (some a) k = some a

abbrev pub otherwise {ℓ} : {A : Type ℓ} → A → Option A → A
otherwise a none = a
otherwise a (some b) = b

pub data Ensures {ℓ κ} {A : Type ℓ} (P : A → Type κ) : Option A → Type (ℓ ⊔ κ) where
  breaks : Ensures P none
  returns : {a : A} → P a → Ensures P (some a)

pub Ensures-bind {ℓ κ μ} :
    {A : Type ℓ} {B : Type κ} {P : B → Type μ} (m : Option A) (f : A → Option B)
    → ((a : A) → m ≡ some a → Ensures P (f a))
    → Ensures P (m >>= f)
Ensures-bind none f h = breaks
Ensures-bind (some a) f h = h a refl

pub Ensures-if {ℓ κ} :
    {A : Type ℓ} {P : A → Type κ} (b : Bool) (m n : Option A)
    → (b ≡ true → Ensures P m)
    → (b ≡ false → Ensures P n)
    → Ensures P (if b then m else n)
Ensures-if true m n hm hn = hm refl
Ensures-if false m n hm hn = hn refl

pub Ensures-or_try {ℓ κ} :
    {A : Type ℓ} {P : A → Type κ} (m k : Option A)
    → Ensures P m
    → Ensures P k
    → Ensures P (or_try m k)
Ensures-or_try none k hm hk = hk
Ensures-or_try (some a) k hm hk = hm

pub Ensures-otherwise {ℓ κ} :
    {A : Type ℓ} {P : A → Type κ} (a : A) {m : Option A} → P a → Ensures P m → P (otherwise a m)
Ensures-otherwise a p breaks = p
Ensures-otherwise a p (returns q) = q

pub Ensures-some {ℓ κ} : {A : Type ℓ} {P : A → Type κ} {a : A} → Ensures P (some a) → P a
Ensures-some (returns p) = p

pub eq_of_some {ℓ} : {A : Type ℓ} {a b : A} → some a ≡ some b → a ≡ b
eq_of_some e = cc

pub require_holds : (b : Bool) {u : Unit {0}} → require b ≡ some u → b ≡ true
require_holds true e = refl
require_holds false e = cc

pub Ensures-any {ℓ κ} : {A : Type ℓ} {P : Type κ} → P → (m : Option A) → Ensures (λ _. P) m
Ensures-any p none = breaks
Ensures-any p (some a) = returns p

pub Ensures-intro {ℓ κ} :
    {A : Type ℓ} {P : A → Type κ} (m : Option A) → ((a : A) → m ≡ some a → P a) → Ensures P m
Ensures-intro none h = breaks
Ensures-intro (some a) h = returns (h a refl)
