-- ===== src/Table.antt =====
-- A table of the database as a list of rows: `findUnique` and `update` by a condition on the row, and
-- relations between a table before and after.
use api_bloxfi.Prelude.{
  Bool, true, false, List, [], ◌∷◌, Option, none, some, if◌then◌else◌, ◌≡◌, refl, eq_of_some, sym,
  Bool-cases, inl, inr, ◌⊎◌,
}

module _ {ℓ} {A : Type ℓ} where
  unfoldable pub find : (A → Bool) → List A → Option A
  find p [] = none
  find p (x ∷ xs) = if p x then some x else find p xs

  unfoldable pub modify : (A → Bool) → (A → A) → List A → List A
  modify p f [] = []
  modify p f (x ∷ xs) = (if p x then f x else x) ∷ modify p f xs

  -- `findMany`
  unfoldable pub select : (A → Bool) → List A → List A
  select p [] = []
  select p (x ∷ xs) = let rest = select p xs in if p x then x ∷ rest else rest

-- Reading back after an update, for a condition that the update leaves alone.
module _ {ℓ} {A : Type ℓ} where
  pub find-modify :
      (p : A → Bool) (f : A → A) (xs : List A) {a : A}
      → ((x : A) → p (f x) ≡ p x)
      → find p xs ≡ some a
      → find p (modify p f xs) ≡ some (f a)
  unfolding find modify
  find-modify p f [] k e = cc
  find-modify p f (x ∷ xs) {a} k e = elim (Bool-cases (p x)) [
    | inl t ↦ let same : x ≡ a = eq_of_some (rw t at e) in rw (t, k x, t, same) refl
    | inr n ↦ rw (n, n) (find-modify p f xs k (rw n at e))
  ]

  pub find-modify_other :
      (q p : A → Bool) (f : A → A) (xs : List A)
      → ((x : A) → p x ≡ true → q x ≡ false)
      → ((x : A) → q (f x) ≡ q x)
      → find q (modify p f xs) ≡ find q xs
  unfolding find modify
  find-modify_other q p f [] h k = refl
  find-modify_other q p f (x ∷ xs) h k = elim (Bool-cases (p x)) [
    | inl t ↦ rw (t, k x, h x t) (find-modify_other q p f xs h k)
    | inr n ↦ rw (n, find-modify_other q p f xs h k) refl
  ]

  pub find-holds : (p : A → Bool) (xs : List A) {a : A} → find p xs ≡ some a → p a ≡ true
  unfolding find
  find-holds p [] e = cc
  find-holds p (x ∷ xs) {a} e = elim (Bool-cases (p x)) [
    | inl t ↦ let same : x ≡ a = eq_of_some (rw t at e) in rw (sym same) t
    | inr n ↦ find-holds p xs (rw n at e)
  ]

  -- Reading back under another condition, where the row that it finds is updated.
  pub find-modify_found :
      (q p : A → Bool) (f : A → A) (xs : List A) {a : A}
      → ((x : A) → q (f x) ≡ q x)
      → p a ≡ true
      → find q xs ≡ some a
      → find q (modify p f xs) ≡ some (f a)
  unfolding find modify
  find-modify_found q p f [] k pa e = cc
  find-modify_found q p f (x ∷ xs) {a} k pa e = elim (Bool-cases (q x)) [
    | inl t ↦
        let same : x ≡ a = eq_of_some (rw t at e) in
        let px : p x ≡ true = rw same pa in rw (px, k x, t, same) refl
    | inr n ↦ elim (Bool-cases (p x)) [
      | inl px ↦ rw (px, k x, n) (find-modify_found q p f xs k pa (rw n at e))
      | inr np ↦ rw (np, n) (find-modify_found q p f xs k pa (rw n at e))
    ]
  ]

  -- An update after which its own condition fails leaves no row to find.
  pub find-modify_gone :
      (p : A → Bool) (f : A → A) (xs : List A)
      → ((x : A) → p (f x) ≡ false)
      → find p (modify p f xs) ≡ none
  unfolding find modify
  find-modify_gone p f [] h = refl
  find-modify_gone p f (x ∷ xs) h = elim (Bool-cases (p x)) [
    | inl t ↦ rw (t, h x) (find-modify_gone p f xs h)
    | inr n ↦ rw (n, n) (find-modify_gone p f xs h)
  ]

-- The rows of two tables correspond in order.
pub data Each {ℓ κ} {A : Type ℓ} (R : A → A → Type κ) : List A → List A → Type (ℓ ⊔ κ) where
  each_nil : Each R [] []
  each_cons : {x y : A} {xs ys : List A} → R x y → Each R xs ys → Each R (x ∷ xs) (y ∷ ys)

module _ {ℓ κ} {A : Type ℓ} {R : A → A → Type κ} where
  pub Each-refl : ((x : A) → R x x) → (xs : List A) → Each R xs xs
  Each-refl r [] = each_nil
  Each-refl r (x ∷ xs) = each_cons (r x) (Each-refl r xs)

  pub Each-modify :
      (p : A → Bool) (f : A → A) (xs : List A)
      → ((x : A) → p x ≡ true → R x (f x))
      → ((x : A) → R x x)
      → Each R xs (modify p f xs)
  unfolding modify
  Each-modify p f [] h r = each_nil
  Each-modify p f (x ∷ xs) h r = each_cons (row (Bool-cases (p x))) (Each-modify p f xs h r)
    where
      row : (p x ≡ true) ⊎ (p x ≡ false) → R x (if p x then f x else x)
      row (inl e) = rw e (h x e)
      row (inr e) = rw e (r x)

pub Each-compose {ℓ κ μ ν} :
    {A : Type ℓ} {R : A → A → Type κ} {S : A → A → Type μ} {T : A → A → Type ν}
    → ((x y z : A) → R x y → S y z → T x z)
    → {xs ys zs : List A} → Each R xs ys
    → Each S ys zs
    → Each T xs zs
Each-compose t each_nil each_nil = each_nil
Each-compose t (each_cons a h) (each_cons b k) = each_cons (t _ _ _ a b) (Each-compose t h k)
