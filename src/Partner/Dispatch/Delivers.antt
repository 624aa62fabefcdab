-- ===== src/Partner/Dispatch/Delivers.antt =====
-- When an event reaches the partner.
use api_bloxfi.Prelude.{
  arith, ltb, ℕ, ◌≤◌, ◌<◌, String, Bool, true, false, ◌≡◌, refl, sym, ◌∙◌, inl, inr, Bool-cases,
  Option, List,
}
use api_bloxfi.Text.{is_set}
use api_bloxfi.Partner.Dispatch.{
  FetchResult, DispatchResult, skipped_no_url, skipped_no_secret, delivered, failed, Posted,
  max_attempts, value_of, dispatch_partner_webhook,
}
use api_bloxfi.Partner.Dispatch.Laws.{accepts, Ended, dispatch_partner_webhook-Ended}

-- A result that says delivered, at the attempt `m` or before it.
abbrev pub DeliveredBy : ℕ → DispatchResult → Type 0
DeliveredBy m r = (k : ℕ) × (status : ℕ) × (r ≡ delivered k status) × (k ≤ m)

clash : {b : Bool} → b ≡ true → b ≡ false → true ≡ false
clash t f = sym t ∙ f

not_after : (m k : ℕ) → ((m < k) → true ≡ false) → k ≤ m
not_after m k h = elim (Bool-cases (ltb m k)) [
  | inl t ↦ let broken = h (grind arith) in cc
  | inr f ↦ grind arith
]

delivers :
    (fetch : ℕ → FetchResult) (url secret : Option String) (m : ℕ) (r : DispatchResult)
    (posts : List Posted)
    → is_set (value_of url) ≡ true
    → is_set (value_of secret) ≡ true
    → 1 ≤ m
    → m ≤ max_attempts
    → accepts (fetch m) ≡ true
    → Ended fetch url secret r posts
    → DeliveredBy m r
delivers fetch url secret m skipped_no_url posts u s l h a (missing, none_made) = cc
delivers fetch url secret m skipped_no_secret posts u s l h a (set, missing, none_made) = cc
delivers fetch url secret m (delivered k st) posts u s l h a (u', s', (at, ok, count, le, before)) =
    (k, st, refl, not_after m k (λ lt. clash a (before m l lt)))
delivers fetch url secret m (failed k st er) posts u s l h a (u', s', (all, count, before)) =
    let broken = clash a (before m l (omega arith)) in cc

-- If address and secret are there and the partner accepts one of the first three requests, the event is
-- delivered, with that request or an earlier one.
pub dispatch_partner_webhook-DeliveredBy :
    (sign : String → String → String) (fetch : ℕ → FetchResult) (url secret : Option String)
    (raw_body : String) (m : ℕ)
    → is_set (value_of url) ≡ true
    → is_set (value_of secret) ≡ true
    → 1 ≤ m
    → m ≤ max_attempts
    → accepts (fetch m) ≡ true
    → DeliveredBy m (dispatch_partner_webhook sign fetch url secret raw_body).0
dispatch_partner_webhook-DeliveredBy sign fetch url secret raw_body m u s l h a =
    delivers fetch url secret m _ _ u s l h a
      (dispatch_partner_webhook-Ended sign fetch url secret raw_body)
