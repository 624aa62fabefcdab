-- ===== src/Webhook/Intake.antt =====
-- api/v1/webhooks/controllers.ts, `handleInboundWebhook`: the checks on a delivery of the provider, the
-- claim of its key, the event, and the audit log. The crypto library, the JSON functions of the
-- language and an exception of the handler are fields of `Platform`. A write of the audit log or of the
-- ledger of keys that fails is left out, and so are the messages of the log.
pub mod DedupeKey
pub mod Payload
pub mod Signature
pub mod Laws
pub mod Refused
pub mod Calls
pub mod Runs
use api_bloxfi.Prelude.{
  ℕ, ◌-◌, leb, String, Bool, true, false, not, ◌&&◌, Option, none, some, List, [], ◌∷◌, ◌++◌,
  if◌then◌else◌, ◌==◌, ◌>>=◌, Verdict, pass, refuse,
}
use Prim.Native.String.{◌++◌ as cat, count}
use api_bloxfi.Text.{trim, is_set}
use api_bloxfi.Json.{Value, Fields}
use api_bloxfi.Ramp.Store.{World}
use api_bloxfi.Webhook.Repos.{WebhookRepos, EventType}
use api_bloxfi.Webhook.Dispatch.{process_webhook_event}
use api_bloxfi.Webhook.Intake.DedupeKey.{Hashing, build_palremit_webhook_dedupe_key}
use api_bloxfi.Webhook.Intake.Payload.{InboundPayload, inbound_webhook_payload, event_type_of}
use api_bloxfi.Webhook.Intake.Signature.{Signing, take_text, verify_palremit_webhook_signature}

-- Hashes, JSON, the decimal digits of a number, and whether the handler of an event ends in an exception
-- of the database before it writes.
pub record Platform : Type 0 where
  pub hashing : Hashing
  pub signing : Signing
  pub print_number : ℕ → String
  pub handler_throws : InboundPayload → World → Bool

pub record Settings : Type 0 where
  pub allow_unsigned : Bool
  pub secret : String

-- `none` for a header that is not there, and for a body that is no buffer.
pub record InboundRequest : Type 0 where
  pub raw_body : Option String
  pub signature : Option String
  pub event_type_header : Option String
  pub event_id_header : Option String

pub data InboundOutcome : Type 0 where
  invalid_buffer bad_signature bad_json bad_schema processed duplicate handler_error :
      InboundOutcome

-- The answer to the provider: a success, a duplicate, or an error with its status.
pub data Answer : Type 0 where
  received received_duplicate bad_request unauthorized server_error : Answer

-- The state that the intake works on: the ledger of claimed keys, the audit log and the ramps.
pub record IntakeState : Type 0 where
  pub claimed : List String
  pub log : List InboundOutcome
  pub world : World

abbrev pub header_text : Option String → String
header_text none = ""
header_text (some s) = s

-- `MAX_RAW_BODY_CHARS`
abbrev pub max_raw_body_chars : ℕ
max_raw_body_chars = 512000

-- Lengths are in code points.
unfoldable pub truncate_webhook_raw_body : (ℕ → String) → String → String
truncate_webhook_raw_body print_number raw =
    let cut = print_number (count raw - max_raw_body_chars) in
    if leb (count raw) max_raw_body_chars
    then raw
    else cat (take_text max_raw_body_chars raw) (cat "\n…[truncated " (cat cut " chars]"))

unfoldable pub check_signature :
    Platform → Settings → String → String → Verdict (InboundOutcome × Answer) (Unit {0})
check_signature p s raw signature =
    if not (is_set signature)
    then if s.allow_unsigned then pass tt else refuse (bad_signature, bad_request)
    else if verify_palremit_webhook_signature p.signing raw s.secret signature
    then pass tt
    else refuse (bad_signature, unauthorized)

abbrev pub check_header :
    String → Option InboundPayload → Verdict (InboundOutcome × Answer) InboundPayload
check_header header none = refuse (bad_schema, bad_request)
check_header header (some payload) =
    if is_set header && not (header == payload.event_type)
    then refuse (bad_schema, bad_request)
    else pass payload

abbrev pub check_parsed :
    InboundRequest → Option Value → Verdict (InboundOutcome × Answer) InboundPayload
check_parsed req none = refuse (bad_json, bad_request)
check_parsed req (some v) =
    check_header (trim (header_text req.event_type_header)) (inbound_webhook_payload v)

abbrev pub after_signature :
    Platform
    → InboundRequest
    → String
    → Verdict (InboundOutcome × Answer) (Unit {0})
    → Verdict (InboundOutcome × Answer) InboundPayload
after_signature p req body (refuse e) = refuse e
after_signature p req body (pass t) = check_parsed req (p.signing.parse body)

-- The signature is checked on the body as the log keeps it, the JSON on the whole body.
abbrev pub check_body :
    Platform
    → Settings
    → InboundRequest
    → Option String
    → Verdict (InboundOutcome × Answer) InboundPayload
check_body p s req none = refuse (invalid_buffer, bad_request)
check_body p s req (some body) = after_signature p req body (
    check_signature p s (truncate_webhook_raw_body p.print_number body) (header_text req.signature))

unfoldable pub check_delivery :
    Platform → Settings → InboundRequest → Verdict (InboundOutcome × Answer) InboundPayload
check_delivery p s req = check_body p s req req.raw_body

unfoldable pub dedupe_key : Platform → InboundRequest → InboundPayload → String
dedupe_key p req payload =
    let id = trim (header_text req.event_id_header) in
    if is_set id
    then cat "palremit:liquidity:" id
    else build_palremit_webhook_dedupe_key p.hashing payload.event_type payload.fields

unfoldable pub is_claimed : String → List String → Bool
is_claimed key [] = false
is_claimed key (k ∷ ks) = let rest = is_claimed key ks in if k == key then true else rest

abbrev pub log_as : InboundOutcome → IntakeState → IntakeState
log_as outcome st = record st { log = st.log ++ outcome ∷ [] }

-- The key is claimed before the event is handled.
unfoldable pub accept_delivery :
    Platform → WebhookRepos → String → InboundPayload → IntakeState → Answer × IntakeState
accept_delivery p repos key payload st =
    let event = event_type_of payload.event_type in
    let claimed = record st { claimed = st.claimed ++ key ∷ [] } in
    let handled = record claimed {
      world = process_webhook_event repos event payload.fields st.world;
    } in
    if is_claimed key st.claimed
    then (received_duplicate, log_as duplicate st)
    else if p.handler_throws payload st.world
    then (server_error, log_as handler_error claimed)
    else (received, log_as processed handled)

abbrev pub answer_delivery :
    Platform
    → WebhookRepos
    → InboundRequest
    → IntakeState
    → Verdict (InboundOutcome × Answer) InboundPayload
    → Answer × IntakeState
answer_delivery p repos req st (refuse (outcome, answer)) = (answer, log_as outcome st)
answer_delivery p repos req st (pass payload) =
    accept_delivery p repos (dedupe_key p req payload) payload st

unfoldable pub handle_inbound_webhook :
    Platform → Settings → WebhookRepos → InboundRequest → IntakeState → Answer × IntakeState
handle_inbound_webhook p s repos req st = answer_delivery p repos req st (check_delivery p s req)
