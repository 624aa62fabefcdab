-- ===== src/Webhook/Intake/Payload.antt =====
-- api/v1/webhooks/schemas.ts: the three shapes of a payload, tried in turn, and the cases of the switch
-- of `processWebhookEvent` by the text of the event. The time stamp and the correlation id are left out.
use api_bloxfi.Prelude.{
  String, Bool, true, false, ◌&&◌, Option, none, some, List, [], ◌∷◌, if◌then◌else◌, ◌==◌, ◌>>=◌,
  ◌>>◌, require, or_try,
}
use api_bloxfi.Text.{is_set}
use api_bloxfi.Json.{Value, undefined, str, Fields, end, get, as_record, text_of, is_text}
use api_bloxfi.Webhook.Repos.{EventType}

pub record InboundPayload : Type 0 where
  pub event_id : String
  pub event_type : String
  pub fields : Fields

-- `z.enum`
unfoldable pub one_of : List String → String → Bool
one_of [] s = false
one_of (t ∷ rest) s = let later = one_of rest s in if t == s then true else later

-- `z.string().min(1)`
abbrev pub required_text : Value → Option String
required_text (str s) = require (is_set s) >> some s
required_text _ = none

-- `z.string().min(1).optional()`; `some none` where it is left out.
abbrev pub optional_text : Value → Option (Option String)
optional_text undefined = some none
optional_text (str s) = require (is_set s) >> some (some s)
optional_text _ = none

abbrev pub liquidity_events : List String
liquidity_events =
    "deposit.credited" ∷ "withdrawal.funded" ∷ "withdrawal.successful" ∷ "withdrawal.failed"
    ∷ "provisioned_account.active" ∷ "provisioned_account.failed"
    ∷ "provisioned_account.kyc_pending" ∷ []

abbrev pub bloxfi_events : List String
bloxfi_events =
    "user.created" ∷ "user.status_updated" ∷ "kyb.status_updated" ∷ "kyb.approved" ∷ "kyb.rejected"
    ∷ "document.reviewed" ∷ "wallet.created" ∷ "wallet.updated" ∷ "wallet.deleted"
    ∷ "account.created" ∷ "account.updated" ∷ "account.deleted" ∷ "onramp.created"
    ∷ "onramp.awaiting_funds" ∷ "onramp.fiat_received" ∷ "onramp.fiat_processed"
    ∷ "onramp.crypto_initiated" ∷ "onramp.completed" ∷ "onramp.failed" ∷ "offramp.created"
    ∷ "offramp.crypto_received" ∷ "offramp.crypto_confirmed" ∷ "offramp.fee_processed"
    ∷ "offramp.fiat_initiated" ∷ "offramp.completed" ∷ "offramp.failed" ∷ "offramp.cancelled"
    ∷ "offramp.refunded" ∷ "limit.reached" ∷ "high_value_request.approved"
    ∷ "high_value_request.rejected" ∷ []

unfoldable pub orchestrator_payload : Fields → Option InboundPayload
orchestrator_payload o = do
  id ← required_text (get "event_id" o)
  require (is_text (get "event_type" o) && one_of liquidity_events (text_of (get "event_type" o)))
  occurred ← required_text (get "occurred_at" o)
  correlation ← optional_text (get "correlation_id" o)
  d ← as_record (get "data" o)
  some (record { event_id = id; event_type = text_of (get "event_type" o); fields = d })

abbrev first_text : Option String → Option String → String
first_text (some s) t = s
first_text none (some t) = t
first_text none none = ""

-- `eventld` is a misspelling that is accepted.
unfoldable pub bloxfi_payload : Fields → Option InboundPayload
bloxfi_payload o = do
  id ← optional_text (get "eventId" o)
  misspelt ← optional_text (get "eventld" o)
  require (is_text (get "eventType" o) && one_of bloxfi_events (text_of (get "eventType" o)))
  timestamp ← required_text (get "timestamp" o)
  d ← as_record (get "data" o)
  some (record {
    event_id = first_text id misspelt;
    event_type = text_of (get "eventType" o);
    fields = d;
  })

abbrev data_or_empty : Value → Option Fields
data_or_empty undefined = some end
data_or_empty v = as_record v

abbrev legacy_id : Fields → String
legacy_id d =
    if is_set (text_of (get "reference" d))
    then text_of (get "reference" d)
    else if is_set (text_of (get "id" d))
    then text_of (get "id" d)
    else text_of (get "order_id" d)

unfoldable pub legacy_payload : Fields → Option InboundPayload
legacy_payload o = do
  event ← required_text (get "event" o)
  d ← data_or_empty (get "data" o)
  some (record { event_id = legacy_id d; event_type = event; fields = d })

unfoldable pub inbound_webhook_payload : Value → Option InboundPayload
inbound_webhook_payload v = do
  o ← as_record v
  or_try (orchestrator_payload o) (or_try (bloxfi_payload o) (legacy_payload o))

-- The cases of the switch with a body, by their labels.
abbrev pub labels : List (String × EventType)
labels =
    ("deposit.credited", EventType.deposit_credited)
    ∷ ("withdrawal.successful", EventType.withdrawal_successful)
    ∷ ("withdrawal.funded", EventType.withdrawal_funded)
    ∷ ("withdrawal.failed", EventType.withdrawal_failed)
    ∷ ("provisioned_account.active", EventType.account_active)
    ∷ ("provisioned_account.kyc_pending", EventType.account_kyc_pending)
    ∷ ("provisioned_account.failed", EventType.account_failed)
    ∷ ("kyb.status_updated", EventType.kyb_status_updated)
    ∷ ("kyb.approved", EventType.kyb_approved)
    ∷ ("kyb.rejected", EventType.kyb_rejected)
    ∷ ("onramp.awaiting_funds", EventType.onramp_awaiting_funds)
    ∷ ("onramp.fiat_received", EventType.onramp_fiat_received)
    ∷ ("onramp.fiat_processed", EventType.onramp_fiat_processed)
    ∷ ("onramp.crypto_initiated", EventType.onramp_crypto_initiated)
    ∷ ("onramp.completed", EventType.onramp_completed)
    ∷ ("onramp.failed", EventType.onramp_failed)
    ∷ ("offramp.crypto_received", EventType.offramp_crypto_received)
    ∷ ("offramp.crypto_confirmed", EventType.offramp_crypto_confirmed)
    ∷ ("offramp.fee_processed", EventType.offramp_fee_processed)
    ∷ ("offramp.fiat_initiated", EventType.offramp_fiat_initiated)
    ∷ ("offramp.completed", EventType.offramp_completed)
    ∷ ("offramp.failed", EventType.offramp_failed)
    ∷ ("offramp.cancelled", EventType.offramp_cancelled)
    ∷ ("offramp.refunded", EventType.offramp_refunded)
    ∷ ("high_value_request.approved", EventType.high_value_approved)
    ∷ ("high_value_request.rejected", EventType.high_value_rejected)
    ∷ []

unfoldable pub label_of : List (String × EventType) → String → EventType
label_of [] s = EventType.unhandled
label_of ((label, event) ∷ rest) s =
    let later = label_of rest s in if label == s then event else later

unfoldable pub event_type_of : String → EventType
unfolding label_of
event_type_of s = label_of labels s
