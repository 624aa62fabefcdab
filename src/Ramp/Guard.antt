-- ===== src/Ramp/Guard.antt =====
-- core/ramps/fundsReceivedGuard.ts: once the customer's money has arrived, a ramp must not fail or
-- expire on its own.
use api_bloxfi.Prelude.{String, Bool, true, false, ◌&&◌, ◌||◌, Option, none, some, suc, zero}
use api_bloxfi.Numeric.{Number, units, minus, not_finite}
use api_bloxfi.Json.{Value, null, str, obj, end, field, get, record_or_empty, is_text, to_number}
use api_bloxfi.Ramp.Status.{
  OnrampStatus, OfframpStatus, fiat_processed, crypto_initiated, crypto_received, crypto_confirmed,
  processing_fee, fee_processed, fiat_initiated, failed,
}

abbrev pub offramp_funded : OfframpStatus → Bool
offramp_funded OfframpStatus.crypto_pending = true
offramp_funded crypto_received = true
offramp_funded crypto_confirmed = true
offramp_funded processing_fee = true
offramp_funded fee_processed = true
offramp_funded fiat_initiated = true
offramp_funded OfframpStatus.fiat_pending = true
offramp_funded _ = false

abbrev pub onramp_funded : OnrampStatus → Bool
onramp_funded OnrampStatus.fiat_pending = true
onramp_funded fiat_processed = true
onramp_funded crypto_initiated = true
onramp_funded OnrampStatus.crypto_pending = true
onramp_funded _ = false

abbrev pub offramp_auto_fail : OfframpStatus → Bool
offramp_auto_fail OfframpStatus.expired = true
offramp_auto_fail failed = true
offramp_auto_fail OfframpStatus.fiat_failed = true
offramp_auto_fail OfframpStatus.crypto_failed = true
offramp_auto_fail _ = false

abbrev pub onramp_auto_fail : OnrampStatus → Bool
onramp_auto_fail OnrampStatus.expired = true
onramp_auto_fail OnrampStatus.fiat_failed = true
onramp_auto_fail OnrampStatus.crypto_failed = true
onramp_auto_fail _ = false

-- `Number.isFinite(n) && n > 0`
abbrev pub is_positive : Number → Bool
is_positive (units zero) = false
is_positive (units (suc n)) = true
is_positive (minus n) = false
is_positive not_finite = false

-- By status, or by what the timeline says of a credited deposit.
unfoldable pub offramp_funds_received : OfframpStatus → Value → Bool
offramp_funds_received status timeline =
    let t = record_or_empty timeline in
    offramp_funded status
    || (is_text (get "cryptoConfirmedAt" t)
        || (is_text (get "lastDepositCreditedAt" t)
            || is_positive (to_number (get "cryptoReceivedAmount" t))))

abbrev pub onramp_funds_received : OnrampStatus → Bool
onramp_funds_received status = onramp_funded status

unfoldable pub blocks_offramp_transition : OfframpStatus → Value → OfframpStatus → Bool
blocks_offramp_transition status timeline next =
    offramp_auto_fail next && offramp_funds_received status timeline

unfoldable pub blocks_onramp_transition : OnrampStatus → OnrampStatus → Bool
blocks_onramp_transition status next = onramp_auto_fail next && onramp_funds_received status

abbrev reason_value : Option String → Value
reason_value none = null
reason_value (some s) = str s

-- What is kept on the row when a failure is refused.
unfoldable pub held_failure_record : String → Option String → String → Value
held_failure_record attempted reason now = obj (
    field "attemptedStatus" (str attempted)
      (field "reason" (reason_value reason) (field "at" (str now) end)))
