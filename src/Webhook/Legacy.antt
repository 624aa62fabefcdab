-- ===== src/Webhook/Legacy.antt =====
-- The cases `onramp.*` and `offramp.*`, which name a ramp by its id and set its status, and
-- `high_value_request.*`.
pub mod Laws
use api_bloxfi.Prelude.{
  String, Option, none, some, [], ◌∷◌, if◌then◌else◌, ◌==◌, ◌>>=◌, ◌>>◌, require,
}
use api_bloxfi.Text.{is_set, or_else}
use api_bloxfi.Json.{
  Value, null, str, undefined, obj, Fields, get, object, text_at, text_or, is_truthy, or_default,
}
use api_bloxfi.Table.{find, modify}
use api_bloxfi.Ramp.Status.{OnrampStatus, OfframpStatus, failed, refunded}
use api_bloxfi.Ramp.Store.{
  World, HighValueRow, HighValueStatus, onramp_fee, offramp_fee, automatic, no_onramp_patch,
  no_offramp_patch, find_onramp_by_id, find_offramp_by_id, update_onramp_status,
  update_offramp_status,
}
use api_bloxfi.Webhook.Repos.{WebhookRepos}
use api_bloxfi.Webhook.Withdrawal.{start_fee_job}

-- The id of the payload, if a ramp has it.
unfoldable pub known_onramp : Fields → World → Option String
known_onramp d w = do
  let id = text_at "onrampId" d
  require (is_set id)
  existing ← find_onramp_by_id id w
  some id

unfoldable pub known_offramp : Fields → World → Option String
known_offramp d w = do
  let id = text_at "offrampId" d
  require (is_set id)
  existing ← find_offramp_by_id id w
  some id

-- `onramp.awaiting_funds`, `.fiat_received`, `.fiat_processed` and `.crypto_initiated`.
unfoldable pub set_onramp_status : WebhookRepos → OnrampStatus → Fields → World → Option World
set_onramp_status repos status d w = do
  id ← known_onramp d w
  update_onramp_status repos.now automatic id status no_onramp_patch w

unfoldable pub legacy_onramp_completed : WebhookRepos → Fields → World → Option World
legacy_onramp_completed repos d w = do
  id ← known_onramp d w
  let hash = get "transactionHash" d
  let receipt = if is_truthy hash then obj (object (("transactionHash", hash) ∷ [])) else null
  w' ←
      update_onramp_status repos.now automatic id OnrampStatus.completed
        (record no_onramp_patch { receipt = some receipt }) w
  some (start_fee_job (onramp_fee id) w')

unfoldable pub legacy_onramp_failed : WebhookRepos → Fields → World → Option World
legacy_onramp_failed repos d w = do
  id ← known_onramp d w
  reason ← text_or "LP reported failure" (or_default (get "failureReason" d) (get "failedReason" d))
  update_onramp_status repos.now automatic id OnrampStatus.crypto_failed
      (record no_onramp_patch { failed_reason = some (some reason) }) w

abbrev stamp : String → String → Value
stamp key now = obj (object ((key, str now) ∷ []))

unfoldable pub legacy_crypto_received : WebhookRepos → Fields → World → Option World
legacy_crypto_received repos d w = do
  id ← known_offramp d w
  let hash = get "transactionHash" d
  let receipt = if is_truthy hash then obj (object (("transactionHash", hash) ∷ [])) else null
  update_offramp_status repos.now automatic id OfframpStatus.crypto_pending
      (record no_offramp_patch {
        timeline = some (stamp "cryptoReceivedAt" repos.now);
        receipt = some receipt;
      })
      w

-- `offramp.crypto_confirmed` and `offramp.fee_processed`.
unfoldable pub set_offramp_status : WebhookRepos → OfframpStatus → Fields → World → Option World
set_offramp_status repos status d w = do
  id ← known_offramp d w
  update_offramp_status repos.now automatic id status no_offramp_patch w

-- `offramp.fiat_initiated` and `offramp.cancelled`, which replace the timeline.
unfoldable pub stamp_offramp : WebhookRepos → OfframpStatus → String → Fields → World → Option World
stamp_offramp repos status key d w = do
  id ← known_offramp d w
  update_offramp_status repos.now automatic id status
      (record no_offramp_patch { timeline = some (stamp key repos.now) }) w

unfoldable pub legacy_offramp_completed : WebhookRepos → Fields → World → Option World
legacy_offramp_completed repos d w = do
  id ← known_offramp d w
  w' ←
      update_offramp_status repos.now automatic id OfframpStatus.completed
        (record no_offramp_patch { timeline = some (stamp "completedAt" repos.now) }) w
  some (start_fee_job (offramp_fee id) w')

unfoldable pub legacy_offramp_failed : WebhookRepos → Fields → World → Option World
legacy_offramp_failed repos d w = do
  id ← known_offramp d w
  reason ← text_or "LP reported failure" (or_default (get "failedReason" d) (get "failureReason" d))
  update_offramp_status repos.now automatic id failed
      (record no_offramp_patch { failed_reason = some (some reason) }) w

unfoldable pub legacy_offramp_refunded : WebhookRepos → Fields → World → Option World
legacy_offramp_refunded repos d w = do
  id ← known_offramp d w
  let details = obj (
      object (
        ("status", or_default (str "refunded") (get "refundStatus" d))
        ∷ ("refundedAt", str repos.now)
        ∷ ("transactionHash", or_default undefined (get "refundTransactionHash" d))
        ∷ ("currency", or_default undefined (get "refundCurrency" d))
        ∷ ("amount", or_default undefined (get "refundAmount" d))
        ∷ []))
  update_offramp_status repos.now automatic id refunded
      (record no_offramp_patch { refund_details = some details }) w

abbrev first_row : Option HighValueRow → Option HighValueRow → Option HighValueRow
first_row none second = second
first_row (some r) second = some r

unfoldable pub review_high_value_request :
    WebhookRepos → HighValueStatus → Fields → World → Option World
review_high_value_request repos status d w = do
  let id =
      or_else (text_at "requestId" d) (or_else (text_at "highValueRequestId" d) (text_at "id" d))
  require (is_set id)
  row ←
      first_row (find (λ (r : HighValueRow). r.id == id) w.high_values)
        (find (λ (r : HighValueRow). r.request_id == id) w.high_values)
  some (record w {
    high_values =
        modify (λ (r : HighValueRow). r.id == row.id)
          (λ (r : HighValueRow). record r { status = status; reviewed_at = some repos.now })
          w.high_values;
  })
