-- ===== src/Partner/Dispatch/Laws.antt =====
-- How a delivery ends, against the answers of the partner.
use api_bloxfi.Prelude.{
  arith, ap, ◌∙◌, ltb, ℕ, zero, suc, ◌+◌, ◌≤◌, ◌<◌, String, Bool, true, false, ◌≡◌, ◌⊎◌, inl, inr,
  refl, Bool-cases, Option, none, some, List, [], ◌∷◌,
}
use api_bloxfi.Text.{is_set}
use api_bloxfi.Partner.Dispatch.{
  FetchResult, answered, threw, DispatchResult, skipped_no_url, skipped_no_secret, delivered,
  failed, Posted, is2xx, max_attempts, value_of, after_attempt, dispatch_loop,
  dispatch_partner_webhook,
}

abbrev pub accepts : FetchResult → Bool
accepts (answered s) = is2xx s
accepts (threw e) = false

unfoldable pub posted_count : List Posted → ℕ
posted_count [] = 0
posted_count (r ∷ rs) = suc (posted_count rs)

-- The partner accepted none of the attempts from `a` before `b`.
abbrev pub NoneAccepted : (ℕ → FetchResult) → ℕ → ℕ → Type 0
NoneAccepted fetch a b = (m : ℕ) → a ≤ m → m < b → accepts (fetch m) ≡ false

-- A result of the attempts from `a` to `a + left`, and the number of requests that it took.
abbrev pub Described : (ℕ → FetchResult) → ℕ → ℕ → DispatchResult → ℕ → Type 0
Described fetch a left skipped_no_url n = true ≡ false
Described fetch a left skipped_no_secret n = true ≡ false
Described fetch a left (delivered k s) n =
    (fetch k ≡ answered s)
    × (is2xx s ≡ true)
    × (a + n ≡ suc k)
    × (n ≤ left)
    × NoneAccepted fetch a k
Described fetch a left (failed k status error) n =
    (k ≡ max_attempts) × (n ≡ left) × NoneAccepted fetch a (a + left)

reached : (a m : ℕ) → a ≤ m → (a ≡ m) ⊎ (suc a ≤ m)
reached a m le = elim (Bool-cases (ltb a m)) [
  | inl e ↦ inr (grind arith)
  | inr e ↦ inl (grind arith)
]

extend :
    (fetch : ℕ → FetchResult) (a b : ℕ)
    → accepts (fetch a) ≡ false
    → NoneAccepted fetch (suc a) b
    → NoneAccepted fetch a b
extend fetch a b h rest m le lt = elim (reached a m le) [ inl e ↦ cc | inr after ↦ rest m after lt ]

later :
    (fetch : ℕ → FetchResult) (a left n : ℕ) (r : DispatchResult)
    → accepts (fetch a) ≡ false
    → Described fetch (suc a) left r n
    → Described fetch a (suc left) r (suc n)
later fetch a left n skipped_no_url h d = d
later fetch a left n skipped_no_secret h d = d
later fetch a left n (delivered k s) h (at, ok, count, le, before) =
    (at, ok, omega arith, omega arith, extend fetch a k h before)
later fetch a left n (failed k status error) h (all, count, before) =
    (all, omega arith, extend fetch a (a + suc left) h λ m le lt. before m le (omega arith))

-- What is left to show after the first of `suc left` attempts.
attempt-Described :
    (fetch : ℕ → FetchResult) (request : Posted) (left a : ℕ) (status : Option ℕ)
    (error : Option String) (further : Option ℕ → Option String → DispatchResult × List Posted)
    → ((st : Option ℕ) (er : Option String)
        → Described fetch (suc a) left (further st er).0 (posted_count (further st er).1))
    → (r : FetchResult) → fetch a ≡ r
    → Described fetch a
        (suc left)
        (after_attempt request a status error further r).0
        (posted_count (after_attempt request a status error further r).1)
unfolding after_attempt posted_count
attempt-Described fetch request left a status error further rest (threw e) at =
    later fetch a left (posted_count (further status (some e)).1) (further status (some e)).0
      (ap accepts at) (rest status (some e))
attempt-Described fetch request left a status error further rest (answered s) at =
    elim (Bool-cases (is2xx s)) [
      | inl ok ↦ rw ok (at, ok, omega arith, omega arith, λ m le lt. absurd (omega arith))
      | inr refused ↦ rw refused (
          later fetch a left (posted_count (further (some s) error).1) (further (some s) error).0
            (ap accepts at ∙ refused) (rest (some s) error))
    ]

loop-Described :
    (fetch : ℕ → FetchResult) (request : Posted) (left a : ℕ) (status : Option ℕ)
    (error : Option String)
    → Described fetch a left
        (dispatch_loop fetch request left a status error).0
        (posted_count (dispatch_loop fetch request left a status error).1)
unfolding dispatch_loop posted_count
loop-Described fetch request zero a status error = (refl, refl, λ m le lt. absurd (omega arith))
loop-Described fetch request (suc left) a status error =
    attempt-Described fetch request left a status error (dispatch_loop fetch request left (suc a))
      (loop-Described fetch request left (suc a)) (fetch a) refl

-- A delivery's result and its requests, against the partner's answers and the configuration.
abbrev pub Ended :
    (ℕ → FetchResult) → Option String → Option String → DispatchResult → List Posted → Type 0
Ended fetch url secret skipped_no_url posts = (is_set (value_of url) ≡ false) × (posts ≡ [])
Ended fetch url secret skipped_no_secret posts =
    (is_set (value_of url) ≡ true) × (is_set (value_of secret) ≡ false) × (posts ≡ [])
Ended fetch url secret (delivered k s) posts =
    (is_set (value_of url) ≡ true)
    × (is_set (value_of secret) ≡ true)
    × Described fetch 1 max_attempts (delivered k s) (posted_count posts)
Ended fetch url secret (failed k status error) posts =
    (is_set (value_of url) ≡ true)
    × (is_set (value_of secret) ≡ true)
    × Described fetch 1 max_attempts (failed k status error) (posted_count posts)

Ended-of :
    (fetch : ℕ → FetchResult) (url secret : Option String) (r : DispatchResult)
    (posts : List Posted)
    → is_set (value_of url) ≡ true
    → is_set (value_of secret) ≡ true
    → Described fetch 1 max_attempts r (posted_count posts)
    → Ended fetch url secret r posts
Ended-of fetch url secret skipped_no_url posts u s d = cc
Ended-of fetch url secret skipped_no_secret posts u s d = cc
Ended-of fetch url secret (delivered k st) posts u s d = (u, s, d)
Ended-of fetch url secret (failed k st er) posts u s d = (u, s, d)

-- A delivery always ends, after three requests at most: as delivered with the number and the status of
-- the first attempt that the partner accepts, every earlier one having been refused or having failed,
-- with as many requests as attempts; or as failed after exactly three requests, none of them accepted;
-- and it makes no request when the address or the secret is missing.
pub dispatch_partner_webhook-Ended :
    (sign : String → String → String) (fetch : ℕ → FetchResult) (url secret : Option String)
    (raw_body : String)
    → Ended fetch url secret
        (dispatch_partner_webhook sign fetch url secret raw_body).0
        (dispatch_partner_webhook sign fetch url secret raw_body).1
unfolding dispatch_partner_webhook
dispatch_partner_webhook-Ended sign fetch url secret raw_body =
    elim (Bool-cases (is_set (value_of url))) [
      | inr missing ↦ rw missing (missing, refl)
      | inl u ↦ elim (Bool-cases (is_set (value_of secret))) [
        | inr missing ↦ rw (u, missing) (u, missing, refl)
        | inl s ↦
            let request : Posted = record {
              url = value_of url;
              signature = sign raw_body (value_of secret);
              raw_body = raw_body;
            } in
            rw (u, s)
              (Ended-of fetch url secret (dispatch_loop fetch request max_attempts 1 none none).0
                (dispatch_loop fetch request max_attempts 1 none none).1 u s
                (loop-Described fetch request max_attempts 1 none none))
      ]
    ]
