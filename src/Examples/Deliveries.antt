-- ===== src/Examples/Deliveries.antt =====
-- Runs of deliveries: of the provider's webhooks to the service, and of the service's to the partner.
use api_bloxfi.Prelude.{
  arith, ℕ, String, Bool, true, false, refl, ◌≡◌, ◌⊎◌, Option, none, some, [], ◌∷◌, pass, nat_eq,
  if◌then◌else◌, ne_of_==,
}
use api_bloxfi.Text.{trim}
use api_bloxfi.Json.{Value, str, obj, object, Fields, get}
use api_bloxfi.Json.Sorted.Laws.{same_swap}
use api_bloxfi.Webhook.Intake.DedupeKey.{build_palremit_webhook_dedupe_key}
use api_bloxfi.Webhook.Intake.DedupeKey.Laws.{dedupe_key-SameFields}
use api_bloxfi.Webhook.Intake.Payload.{
  InboundPayload, inbound_webhook_payload, orchestrator_payload, one_of,
}
use api_bloxfi.Webhook.Intake.{
  Platform, Settings, InboundRequest, duplicate, received_duplicate, IntakeState, log_as,
  check_delivery, check_signature, dedupe_key, handle_inbound_webhook, truncate_webhook_raw_body,
}
use api_bloxfi.Webhook.Intake.Laws.{Handled, redelivery, handle_inbound_webhook-Handled}
use api_bloxfi.Webhook.Intake.Runs.{started, delivered, HandledOnce, Reachable-HandledOnce}
use api_bloxfi.Partner.Dispatch.{FetchResult, answered, threw, dispatch_partner_webhook}
use api_bloxfi.Partner.Dispatch.Laws.{Ended, dispatch_partner_webhook-Ended}
use api_bloxfi.Partner.Dispatch.Delivers.{DeliveredBy, dispatch_partner_webhook-DeliveredBy}
use api_bloxfi.Partner.Emit.{PartnerWebhookEnvelope, OutboundStore, persist_and_dispatch}
use api_bloxfi.Partner.Emit.Laws.{Logged, persist_and_dispatch-Logged}
use api_bloxfi.Examples.{waiting, world_of, repos}

abbrev body_fields : Fields
body_fields =
    object (("client_reference", str "OFF-c4a18b6e3a71f02d4e5b9c08") ∷ ("id", str "w1") ∷ [])

abbrev swapped_fields : Fields
swapped_fields =
    object (("id", str "w1") ∷ ("client_reference", str "OFF-c4a18b6e3a71f02d4e5b9c08") ∷ [])

abbrev payload : InboundPayload
payload = record { event_id = "e1"; event_type = "withdrawal.failed"; fields = body_fields }

abbrev body : Value
body = obj (
    object (
      ("event_id", str "e1")
      ∷ ("event_type", str "withdrawal.failed")
      ∷ ("occurred_at", str "2025-01-02")
      ∷ ("data", obj body_fields)
      ∷ []))

abbrev print_value : Value → String
print_value v = "{}"

abbrev print_digits : ℕ → String
print_digits n = "1"

abbrev hash : String → String
hash s = s

abbrev hmac : String → String → String
hmac secret s = secret

abbrev parse_body : String → Option Value
parse_body s = some body

abbrev throws : Bool → Platform
throws b = record {
  hashing = record { stringify = print_value; digest = hash };
  signing = record {
    hmac_hex = hmac;
    parse = parse_body;
    stringify = print_value;
    bytes_of_hex = hash;
  };
  print_number = print_digits;
  handler_throws = λ p w. b;
}

abbrev unsigned : Settings
unsigned = record { allow_unsigned = true; secret = "" }

abbrev request : InboundRequest
request = record {
  raw_body = some "{}";
  signature = none;
  event_type_header = some "withdrawal.failed";
  event_id_header = none;
}

abbrev start : IntakeState
start = record { claimed = []; log = []; world = world_of (waiting ∷ []) }

passes : check_delivery (throws true) unsigned request ≡ pass payload
unfolding check_delivery check_signature truncate_webhook_raw_body inbound_webhook_payload
    orchestrator_payload one_of get trim
passes = refl

passes_again : check_delivery (throws false) unsigned request ≡ pass payload
unfolding check_delivery check_signature truncate_webhook_raw_body inbound_webhook_payload
    orchestrator_payload one_of get trim
passes_again = refl

abbrev after_error : IntakeState
after_error = (handle_inbound_webhook (throws true) unsigned repos request start).1

redelivery_example :
    handle_inbound_webhook (throws false) unsigned repos request after_error
    ≡ (received_duplicate, log_as duplicate after_error)
unfolding dedupe_key
redelivery_example =
    redelivery (throws true) (throws false) unsigned unsigned repos repos request request payload
      payload start passes passes_again refl

handle_inbound_webhook-Handled_example :
    ((handle_inbound_webhook (throws false) unsigned repos request start).1.world ≡ start.world)
    ⊎ Handled
        (throws false)
        unsigned
        repos
        request
        start
        (handle_inbound_webhook (throws false) unsigned repos request start).1
handle_inbound_webhook-Handled_example =
    handle_inbound_webhook-Handled (throws false) unsigned repos request start

Reachable-HandledOnce_example :
    HandledOnce
      (world_of (waiting ∷ []))
      (handle_inbound_webhook (throws false) unsigned repos request after_error).1
Reachable-HandledOnce_example =
    Reachable-HandledOnce (world_of (waiting ∷ []))
      (handle_inbound_webhook (throws false) unsigned repos request after_error).1
      (delivered (throws false) unsigned repos request
        (delivered (throws true) unsigned repos request started))

dedupe_key-SameFields_example :
    build_palremit_webhook_dedupe_key (throws false).hashing "withdrawal.failed" body_fields
    ≡ build_palremit_webhook_dedupe_key (throws false).hashing "withdrawal.failed" swapped_fields
dedupe_key-SameFields_example =
    dedupe_key-SameFields (throws false).hashing "withdrawal.failed"
      (same_swap (ne_of_== "client_reference" "id" refl))

-- The partner is busy at the first attempt and cannot be reached at the second one.
abbrev partner_answers : ℕ → FetchResult
partner_answers n =
    if nat_eq n 1 then answered 503 else if nat_eq n 2 then threw "timeout" else answered 200

dispatch_partner_webhook-Ended_example :
    Ended partner_answers
      (some "https://partner.example/hook")
      (some "s")
      (dispatch_partner_webhook hmac partner_answers
        (some "https://partner.example/hook")
        (some "s")
        "{}").0
      (dispatch_partner_webhook hmac partner_answers
        (some "https://partner.example/hook")
        (some "s")
        "{}").1
dispatch_partner_webhook-Ended_example =
    dispatch_partner_webhook-Ended hmac partner_answers (some "https://partner.example/hook")
      (some "s") "{}"

dispatch_partner_webhook-DeliveredBy_example :
    DeliveredBy 3
      (dispatch_partner_webhook hmac partner_answers
        (some "https://partner.example/hook")
        (some "s")
        "{}").0
dispatch_partner_webhook-DeliveredBy_example =
    dispatch_partner_webhook-DeliveredBy hmac partner_answers (some "https://partner.example/hook")
      (some "s") "{}" 3 refl refl (omega arith) (omega arith) refl

abbrev envelope : PartnerWebhookEnvelope
envelope = record {
  event_id = "e2";
  event_type = "offramp.completed";
  occurred_at = "2025-01-02";
  payload = body_fields;
}

abbrev print_envelope : PartnerWebhookEnvelope → String
print_envelope e = "{}"

abbrev store : OutboundStore
store = record {
  create_throws = false;
  update_throws = false;
  new_id = "l1";
  now = "2025-01-02";
  stringify = print_envelope;
  print_number = print_digits;
}

persist_and_dispatch-Logged_example :
    Logged store envelope
      (persist_and_dispatch store hmac partner_answers
        (some "https://partner.example/hook")
        (some "s")
        envelope
        [])
      []
persist_and_dispatch-Logged_example =
    persist_and_dispatch-Logged store hmac partner_answers (some "https://partner.example/hook")
      (some "s") envelope [] refl refl refl
