-- ===== src/Payout/Hold/Accept/Key.antt =====
-- Different decisions about a held payout have different idempotency keys.
use Prim.Native.Nat.{ℕ, zero, suc}
use Prim.Native.Char.{Char, code}
use Prim.Native.String.{String, [], ◌∷◌, ◌++◌}
use text.Mathlib.TextLemmas.{nil-append, cons-append, append_cancel_left}
use mathlib.Core.Bool.{Bool, true, false, not, ◌&&◌}
use api_bloxfi.Prelude.{◌≡◌, refl, sym, ap, ◌∙◌, arith, leb, nat_eq, Bool-cases, inl, inr}
use api_bloxfi.Text.{trim}
use api_bloxfi.Payout.Hold.Accept.{
  AcceptParams, accept_request, digits_to_end, cap_fraction, cap_digits, is_cap,
}

-- The text has no colon, which is what separates the parts of a key.
unfoldable no_colon : String → Bool
no_colon [] = true
no_colon (c ∷ s) = not (nat_eq (code c) b':') && no_colon s

unfoldable tail_of : String → String
tail_of [] = ""
tail_of (c ∷ s) = s

unfoldable first_code : String → ℕ
first_code [] = 0
first_code (c ∷ s) = code c

digits_to_end-no_colon : (n : ℕ) (s : String) → digits_to_end n s ≡ true → no_colon s ≡ true
unfolding digits_to_end no_colon
digits_to_end-no_colon n [] h = refl
digits_to_end-no_colon zero (c ∷ s) h = cc
digits_to_end-no_colon (suc n) (c ∷ s) h = ground (arith, digits_to_end-no_colon n s)

cap_fraction-no_colon : (s : String) → cap_fraction s ≡ true → no_colon s ≡ true
unfolding cap_fraction no_colon
cap_fraction-no_colon [] h = refl
cap_fraction-no_colon (c ∷ s) h = ground (arith, digits_to_end-no_colon 6 s)

cap_digits-no_colon : (s : String) → cap_digits s ≡ true → no_colon s ≡ true
unfolding cap_digits no_colon
cap_digits-no_colon [] h = refl
cap_digits-no_colon (c ∷ s) h = elim (Bool-cases (leb b'0' (code c) && leb (code c) b'9')) [
  | inl digit ↦ let rest = cap_digits-no_colon s (rw digit at h) in ground arith
  | inr other ↦ cap_fraction-no_colon (c ∷ s) (rw other at h)
]

is_cap-no_colon : (s : String) → is_cap s ≡ true → no_colon s ≡ true
unfolding is_cap no_colon
is_cap-no_colon [] h = refl
is_cap-no_colon (c ∷ s) h = ground (arith, cap_fraction-no_colon s, cap_digits-no_colon s)

unfoldable head_char : Char → String → Char
head_char d [] = d
head_char d (c ∷ s) = c

first_code-cons : (c : Char) (s t : String) → first_code ((c ∷ s) ++ t) ≡ code c
unfolding first_code
first_code-cons c s t = ap first_code (cons-append c s t)

tail_of-cons : (c : Char) (s t : String) → tail_of ((c ∷ s) ++ t) ≡ s ++ t
unfolding tail_of
tail_of-cons c s t = ap tail_of (cons-append c s t)

head_char-cons : (d c : Char) (s t : String) → head_char d ((c ∷ s) ++ t) ≡ c
unfolding head_char
head_char-cons d c s t = ap (head_char d) (cons-append c s t)

first_code-colon : (n : String) → first_code ("" ++ (":" ++ n)) ≡ b':'
first_code-colon n = ap first_code (nil-append (":" ++ n)) ∙ first_code-cons ":" "" n

colon_in : (c : Char) (s : String) → code c ≡ b':' → no_colon (c ∷ s) ≡ true → true ≡ false
unfolding no_colon
colon_in c s e h = ground arith

-- Texts without a colon, and what stands behind the first colon, are read off the whole.
parts_of :
    (e e' n n' : String)
    → no_colon e ≡ true
    → no_colon e' ≡ true
    → e ++ (":" ++ n) ≡ e' ++ (":" ++ n')
    → (e ≡ e') × (n ≡ n')
unfolding no_colon
parts_of [] [] n n' h k q = (refl, append_cancel_left ":" n n' (append_cancel_left "" _ _ q))
parts_of [] (c ∷ e') n n' h k q =
    let broken =
      colon_in c e' (sym (first_code-cons c e' _) ∙ (sym (ap first_code q) ∙ first_code-colon n))
        k in
    cc
parts_of (c ∷ e) [] n n' h k q =
    let broken =
      colon_in c e (sym (first_code-cons c e _) ∙ (ap first_code q ∙ first_code-colon n')) h in
    cc
parts_of (c ∷ e) (d ∷ e') n n' h k q =
    let head : c ≡ d =
      sym (head_char-cons c c e _) ∙ (ap (head_char c) q ∙ head_char-cons c d e' _) in
    let rest =
      parts_of e e' n n' (ground arith) (ground arith)
        (sym (tail_of-cons c e _) ∙ (ap tail_of q ∙ tail_of-cons d e' _)) in
    (rw (head, rest.0) refl, rest.1)

-- Two decisions about one withdrawal that have the same idempotency key, with current limits that are
-- well-formed, are about the same limits.
pub accept_request-same_limits :
    (id : String) (p q : AcceptParams)
    → is_cap (trim p.expected_cap) ≡ true
    → is_cap (trim q.expected_cap) ≡ true
    → (accept_request p id).idempotency_key ≡ (accept_request q id).idempotency_key
    → (trim p.expected_cap ≡ trim q.expected_cap) × (trim p.new_cap ≡ trim q.new_cap)
accept_request-same_limits id p q h k e =
    parts_of (trim p.expected_cap) (trim q.expected_cap) (trim p.new_cap) (trim q.new_cap)
      (is_cap-no_colon _ h) (is_cap-no_colon _ k)
      (append_cancel_left ":" _ _
        (append_cancel_left id _ _ (append_cancel_left "accept-rate:" _ _ e)))
