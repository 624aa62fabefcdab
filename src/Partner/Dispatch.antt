-- ===== src/Partner/Dispatch.antt =====
-- core/partnerWebhooks/dispatch.ts: an event is posted to the partner until the partner accepts it, three
-- times at most. What the partner answers to an attempt is a function of its number, and the signature
-- (`signPartnerWebhookBody`) is a parameter; log lines are left out.
pub mod Laws
pub mod Delivers
use api_bloxfi.Prelude.{
  ℕ, zero, suc, String, Bool, true, false, ◌&&◌, Option, none, some, List, [], ◌∷◌, if◌then◌else◌,
  leb, ltb, ◌==◌,
}
use api_bloxfi.Text.{is_set}

-- What `fetch` does in an attempt: a response with its status, or an exception with its message.
pub data FetchResult : Type 0 where
  answered : ℕ → FetchResult
  threw : String → FetchResult

pub data DispatchResult : Type 0 where
  skipped_no_url skipped_no_secret : DispatchResult
  delivered : (attempts http_status : ℕ) → DispatchResult
  failed : (attempts : ℕ) (http_status : Option ℕ) (error_message : Option String) → DispatchResult

-- One request of `fetch`.
pub record Posted : Type 0 where
  pub url : String
  pub signature : String
  pub raw_body : String

abbrev pub max_attempts : ℕ
max_attempts = 3

abbrev pub is2xx : ℕ → Bool
is2xx status = leb 200 status && ltb status 300

abbrev known_error : Option String → Option String
known_error none = none
known_error (some e) = if e == "" then none else some e

-- The loop's result, and the requests that were made. `after_attempt` is the rest of an attempt, given
-- what its `fetch` did and what the further attempts come to from a last status and a last error.
unfoldable pub after_attempt :
    Posted
    → ℕ
    → Option ℕ
    → Option String
    → (Option ℕ → Option String → DispatchResult × List Posted)
    → FetchResult
    → DispatchResult × List Posted
after_attempt request attempt status error further (answered s) =
    let rest = further (some s) error in
    if is2xx s then (delivered attempt s, request ∷ []) else (rest.0, request ∷ rest.1)
after_attempt request attempt status error further (threw e) =
    let rest = further status (some e) in (rest.0, request ∷ rest.1)

unfoldable pub dispatch_loop :
    (ℕ → FetchResult) → Posted → ℕ → ℕ → Option ℕ → Option String → DispatchResult × List Posted
dispatch_loop fetch request zero attempt status error =
    (failed max_attempts status (known_error error), [])
dispatch_loop fetch request (suc left) attempt status error =
    after_attempt request attempt status error (dispatch_loop fetch request left (suc attempt))
      (fetch attempt)

abbrev pub value_of : Option String → String
value_of none = ""
value_of (some s) = s

-- `sign` is the HMAC-SHA256 of a body under a secret.
unfoldable pub dispatch_partner_webhook :
    (sign : String → String → String)
    → (ℕ → FetchResult)
    → Option String
    → Option String
    → String
    → DispatchResult × List Posted
dispatch_partner_webhook sign fetch url secret raw_body =
    let request : Posted = record {
      url = value_of url;
      signature = sign raw_body (value_of secret);
      raw_body = raw_body;
    } in
    let posted = dispatch_loop fetch request max_attempts 1 none none in
    if is_set (value_of url)
    then if is_set (value_of secret) then posted else (skipped_no_secret, [])
    else (skipped_no_url, [])
