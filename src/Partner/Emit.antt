-- ===== src/Partner/Emit.antt =====
-- core/partnerWebhooks/emit.ts and db/repositories/webhookOutboundLog.repo.ts: a delivery to the partner
-- with its row in the audit log. The log is written before and after the delivery, and neither write can
-- stop it. `JSON.stringify` is a parameter, and log lines are left out.
pub mod Laws
use api_bloxfi.Prelude.{
  ℕ, String, Bool, true, false, not, ◌&&◌, Option, none, some, List, [], ◌∷◌, if◌then◌else◌, ◌==◌,
}
use api_bloxfi.Text.{is_set}
use api_bloxfi.Json.{Fields}
use api_bloxfi.Table.{modify}
use api_bloxfi.Webhook.Intake.{truncate_webhook_raw_body}
use api_bloxfi.Partner.Dispatch.{
  FetchResult, DispatchResult, skipped_no_url, skipped_no_secret, delivered, failed, Posted,
  dispatch_partner_webhook,
}

pub record PartnerWebhookEnvelope : Type 0 where
  pub event_id : String
  pub event_type : String
  pub occurred_at : String
  pub payload : Fields

pub data OutboundOutcome : Type 0 where
  pending no_url no_secret was_delivered has_failed : OutboundOutcome

-- A row of the audit log.
pub record OutboundLog : Type 0 where
  pub id : String
  pub event_id : String
  pub event_type : String
  pub payload : Fields
  pub raw_body : String
  pub destination : Option String
  pub outcome : OutboundOutcome
  pub attempts : ℕ
  pub http_status : Option ℕ
  pub error_message : Option String
  pub delivered_at : Option String

-- What the database and the clock do in one run: whether each write throws, the id of a new row, and the
-- time at the end. The last two are `JSON.stringify` and the decimal digits of a number.
pub record OutboundStore : Type 0 where
  pub create_throws : Bool
  pub update_throws : Bool
  pub new_id : String
  pub now : String
  pub stringify : PartnerWebhookEnvelope → String
  pub print_number : ℕ → String

abbrev pub outcome_of : DispatchResult → OutboundOutcome
outcome_of skipped_no_url = no_url
outcome_of skipped_no_secret = no_secret
outcome_of (delivered k s) = was_delivered
outcome_of (failed k s e) = has_failed

abbrev pub attempts_of : DispatchResult → ℕ
attempts_of skipped_no_url = 0
attempts_of skipped_no_secret = 0
attempts_of (delivered k s) = k
attempts_of (failed k s e) = k

abbrev pub http_status_of : DispatchResult → Option ℕ
http_status_of (delivered k s) = some s
http_status_of (failed k s e) = s
http_status_of _ = none

abbrev pub error_message_of : DispatchResult → Option String
error_message_of (failed k s e) = e
error_message_of _ = none

abbrev pub delivered_at_of : String → DispatchResult → Option String
delivered_at_of now (delivered k s) = some now
delivered_at_of now _ = none

abbrev pub has_id : String → OutboundLog → Bool
has_id id row = row.id == id

abbrev pub pending_row : OutboundStore → PartnerWebhookEnvelope → Option String → OutboundLog
pending_row store envelope url = record {
  id = store.new_id;
  event_id = envelope.event_id;
  event_type = envelope.event_type;
  payload = envelope.payload;
  raw_body = truncate_webhook_raw_body store.print_number (store.stringify envelope);
  destination = url;
  outcome = pending;
  attempts = 0;
  http_status = none;
  error_message = none;
  delivered_at = none;
}

-- The table and the id of the new row; `none` where the database throws.
unfoldable pub create_webhook_outbound_log :
    OutboundStore
    → PartnerWebhookEnvelope
    → Option String
    → List OutboundLog
    → Option String × List OutboundLog
create_webhook_outbound_log store envelope url rows =
    if store.create_throws
    then (none, rows)
    else (some store.new_id, pending_row store envelope url ∷ rows)

abbrev pub finalized : OutboundStore → DispatchResult → Option String → OutboundLog → OutboundLog
finalized store result url row = record row {
  outcome = outcome_of result;
  attempts = attempts_of result;
  http_status = http_status_of result;
  error_message = error_message_of result;
  destination = url;
  delivered_at = delivered_at_of store.now result;
}

unfoldable pub finalize :
    OutboundStore
    → Option String
    → DispatchResult
    → Option String
    → List OutboundLog
    → List OutboundLog
finalize store none result url rows = rows
finalize store (some id) result url rows =
    if is_set id && not store.update_throws
    then modify (has_id id) (finalized store result url) rows
    else rows

unfoldable pub persist_and_dispatch :
    OutboundStore
    → (sign : String → String → String) → (ℕ → FetchResult)
    → Option String
    → Option String
    → PartnerWebhookEnvelope
    → List OutboundLog
    → List Posted × List OutboundLog
persist_and_dispatch store sign fetch url secret envelope rows =
    let created = create_webhook_outbound_log store envelope url rows in
    let sent = dispatch_partner_webhook sign fetch url secret (store.stringify envelope) in
    (sent.1, finalize store created.0 sent.0 url created.1)
