-- ===== src/Json/Sorted/Laws.antt =====
-- Values that differ in the order of properties have one sorted form.
use Prim.Native.Char.{code}
use Prim.Native.String.{String, [], ◌∷◌}
use Prim.Native.Nat.{ℕ, compare, Ordering}
use mathlib.Core.Bool.{true, false}
use mathlib.Core.Logic.{◌≢◌}
use text.Mathlib.TextEquality.{codes_equal}
use api_bloxfi.Prelude.{◌≡◌, refl, sym, ap, ◌∙◌, arith, nat_eq, Bool-cases, inl, inr}
use api_bloxfi.Json.{Value, Fields, Items, obj, arr, end, field, nil, cons}
use api_bloxfi.Json.Sorted.{before, insert_field, sort_json_deep, sort_fields, sort_items}

mutual
  -- The same value up to the order of properties.
  pub data SameValue : Value → Value → Type 0 where
    same_value : {v : Value} → SameValue v v
    same_obj : {o p : Fields} → SameFields o p → SameValue (obj o) (obj p)
    same_arr : {xs ys : Items} → SameItems xs ys → SameValue (arr xs) (arr ys)

  pub data SameFields : Fields → Fields → Type 0 where
    same_end : SameFields end end
    same_field :
        {k : String} {v w : Value} {o p : Fields}
        → SameValue v w
        → SameFields o p
        → SameFields (field k v o) (field k w p)
    same_swap :
        {k j : String} {v w : Value} {o : Fields}
        → k ≢ j
        → SameFields (field k v (field j w o)) (field j w (field k v o))
    same_trans : {o p q : Fields} → SameFields o p → SameFields p q → SameFields o q

  pub data SameItems : Items → Items → Type 0 where
    same_nil : SameItems nil nil
    same_cons :
        {v w : Value} {xs ys : Items}
        → SameValue v w
        → SameItems xs ys
        → SameItems (cons v xs) (cons w ys)

of_eq : (o : Ordering) → (elim o [ Ordering.eq ↦ true | _ ↦ false ]) ≡ true → o ≡ Ordering.eq
of_eq Ordering.lt h = cc
of_eq Ordering.eq h = refl
of_eq Ordering.gt h = cc

compared : (m n : ℕ) → nat_eq m n ≡ true → compare m n ≡ Ordering.eq
compared m n h = of_eq (compare m n) h

before_total : (s t : String) → before s t ≡ false → before t s ≡ false → s ≡ t
unfolding before
before_total [] [] h k = refl
before_total [] (d ∷ t) h k = cc
before_total (c ∷ s) [] h k = cc
before_total (c ∷ s) (d ∷ t) h k =
    let heads : nat_eq (code c) (code d) ≡ true = ground arith in
    let tails : s ≡ t = before_total s t (ground arith) (ground arith) in
    let first : c ≡ d = codes_equal c d (compared (code c) (code d) heads) in
    ap (λ x. x ∷ s) first ∙ ap (λ x. d ∷ x) tails

before_asym : (s t : String) → before s t ≡ true → before t s ≡ false
unfolding before
before_asym [] [] h = cc
before_asym [] (d ∷ t) h = refl
before_asym (c ∷ s) [] h = cc
before_asym (c ∷ s) (d ∷ t) h = ground (arith, before_asym s t)

before_trans : (s t u : String) → before s t ≡ true → before t u ≡ true → before s u ≡ true
unfolding before
before_trans [] [] u h k = cc
before_trans [] (d ∷ t) [] h k = cc
before_trans [] (d ∷ t) (e ∷ u) h k = refl
before_trans (c ∷ s) [] u h k = cc
before_trans (c ∷ s) (d ∷ t) [] h k = cc
before_trans (c ∷ s) (d ∷ t) (e ∷ u) h k = ground (arith, before_trans s t u)

swap_ordered :
    (k j : String) (v w : Value) (o : Fields)
    → before k j ≡ true
    → before j k ≡ false
    → insert_field k v (insert_field j w o) ≡ insert_field j w (insert_field k v o)
unfolding insert_field
swap_ordered k j v w end kj jk = rw (kj, jk) refl
swap_ordered k j v w (field i u o) kj jk = elim (Bool-cases (before i k)) [
  | inl ik ↦
      let ij = before_trans i k j ik kj in
      rw (ij, ik, ij) (ap (field i u) (swap_ordered k j v w o kj jk))
  | inr ik ↦ elim (Bool-cases (before i j)) [
    | inl ij ↦ rw (ij, ik, kj, ij) refl
    | inr ij ↦ rw (ij, ik, jk, kj, ij) refl
  ]
]

insert_swap :
    (k j : String) (v w : Value) (o : Fields)
    → k ≢ j
    → insert_field k v (insert_field j w o) ≡ insert_field j w (insert_field k v o)
insert_swap k j v w o ne = elim (Bool-cases (before k j)) [
  | inl kj ↦ swap_ordered k j v w o kj (before_asym k j kj)
  | inr kj ↦ elim (Bool-cases (before j k)) [
    | inl jk ↦ sym (swap_ordered j k w v o jk kj)
    | inr jk ↦ absurd (ne (before_total k j kj jk))
  ]
]

-- Sorting at every depth forgets the order of properties.
mutual
  unfolding sort_json_deep sort_fields sort_items

  pub sort_json_deep-SameValue : {v w : Value} → SameValue v w → sort_json_deep v ≡ sort_json_deep w
  sort_json_deep-SameValue same_value = refl
  sort_json_deep-SameValue (same_obj h) = ap obj (sort_fields-SameFields h)
  sort_json_deep-SameValue (same_arr h) = ap arr (sort_items-SameItems h)

  sort_fields-SameFields : {o p : Fields} → SameFields o p → sort_fields o ≡ sort_fields p
  sort_fields-SameFields same_end = refl
  sort_fields-SameFields (same_field h k) =
      rw (sort_json_deep-SameValue h, sort_fields-SameFields k) refl
  sort_fields-SameFields (same_swap ne) = insert_swap _ _ _ _ _ ne
  sort_fields-SameFields (same_trans h k) = sort_fields-SameFields h ∙ sort_fields-SameFields k

  sort_items-SameItems : {xs ys : Items} → SameItems xs ys → sort_items xs ≡ sort_items ys
  sort_items-SameItems same_nil = refl
  sort_items-SameItems (same_cons h k) =
      rw (sort_json_deep-SameValue h, sort_items-SameItems k) refl
