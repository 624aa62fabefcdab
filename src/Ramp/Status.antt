-- ===== src/Ramp/Status.antt =====
-- The statuses of the two kinds of ramp (types/onramp.ts, types/offramp.ts) and the events that
-- partners are sent when a ramp changes status (core/partnerWebhooks/events.ts, rampTransition.ts).
pub mod Laws
use mathlib.Core.Logic.{ite}
use api_bloxfi.Prelude.{String, Option, none, some}

pub data OnrampStatus : Type 0 where
  created awaiting_funds fiat_pending fiat_processed crypto_initiated : OnrampStatus
  crypto_pending completed fiat_failed fiat_returned crypto_failed expired : OnrampStatus

pub data OfframpStatus : Type 0 where
  created awaiting_crypto crypto_pending crypto_received crypto_confirmed : OfframpStatus
  processing_fee fee_processed fiat_initiated fiat_pending completed failed : OfframpStatus
  cancelled refunded crypto_failed fiat_failed expired : OfframpStatus

abbrev pub onramp_status_text : OnrampStatus → String
onramp_status_text OnrampStatus.created = "CREATED"
onramp_status_text awaiting_funds = "AWAITING_FUNDS"
onramp_status_text OnrampStatus.fiat_pending = "FIAT_PENDING"
onramp_status_text fiat_processed = "FIAT_PROCESSED"
onramp_status_text crypto_initiated = "CRYPTO_INITIATED"
onramp_status_text OnrampStatus.crypto_pending = "CRYPTO_PENDING"
onramp_status_text OnrampStatus.completed = "COMPLETED"
onramp_status_text OnrampStatus.fiat_failed = "FIAT_FAILED"
onramp_status_text fiat_returned = "FIAT_RETURNED"
onramp_status_text OnrampStatus.crypto_failed = "CRYPTO_FAILED"
onramp_status_text OnrampStatus.expired = "EXPIRED"

abbrev pub offramp_status_text : OfframpStatus → String
offramp_status_text OfframpStatus.created = "CREATED"
offramp_status_text awaiting_crypto = "AWAITING_CRYPTO"
offramp_status_text OfframpStatus.crypto_pending = "CRYPTO_PENDING"
offramp_status_text crypto_received = "CRYPTO_RECEIVED"
offramp_status_text crypto_confirmed = "CRYPTO_CONFIRMED"
offramp_status_text processing_fee = "PROCESSING_FEE"
offramp_status_text fee_processed = "FEE_PROCESSED"
offramp_status_text fiat_initiated = "FIAT_INITIATED"
offramp_status_text OfframpStatus.fiat_pending = "FIAT_PENDING"
offramp_status_text OfframpStatus.completed = "COMPLETED"
offramp_status_text failed = "FAILED"
offramp_status_text cancelled = "CANCELLED"
offramp_status_text refunded = "REFUNDED"
offramp_status_text OfframpStatus.crypto_failed = "CRYPTO_FAILED"
offramp_status_text OfframpStatus.fiat_failed = "FIAT_FAILED"
offramp_status_text OfframpStatus.expired = "EXPIRED"

pub data PartnerEvent : Type 0 where
  onramp_created onramp_fiat_received onramp_crypto_initiated : PartnerEvent
  onramp_completed onramp_failed onramp_expired : PartnerEvent
  offramp_created offramp_crypto_received offramp_crypto_confirmed : PartnerEvent
  offramp_fiat_initiated offramp_completed offramp_failed : PartnerEvent
  offramp_cancelled offramp_refunded offramp_expired kyb_status_updated : PartnerEvent

PartnerEvent-discrete : Discrete PartnerEvent
PartnerEvent-discrete = hlevel

abbrev pub map_onramp_status_to_event : OnrampStatus → Option PartnerEvent
map_onramp_status_to_event OnrampStatus.created = some onramp_created
map_onramp_status_to_event awaiting_funds = some onramp_created
map_onramp_status_to_event OnrampStatus.fiat_pending = some onramp_fiat_received
map_onramp_status_to_event fiat_processed = some onramp_fiat_received
map_onramp_status_to_event crypto_initiated = some onramp_crypto_initiated
map_onramp_status_to_event OnrampStatus.crypto_pending = some onramp_crypto_initiated
map_onramp_status_to_event OnrampStatus.completed = some onramp_completed
map_onramp_status_to_event OnrampStatus.fiat_failed = some onramp_failed
map_onramp_status_to_event fiat_returned = some onramp_failed
map_onramp_status_to_event OnrampStatus.crypto_failed = some onramp_failed
map_onramp_status_to_event OnrampStatus.expired = some onramp_expired

abbrev pub map_offramp_status_to_event : OfframpStatus → Option PartnerEvent
map_offramp_status_to_event OfframpStatus.created = some offramp_created
map_offramp_status_to_event awaiting_crypto = some offramp_created
map_offramp_status_to_event OfframpStatus.crypto_pending = some offramp_crypto_received
map_offramp_status_to_event crypto_received = some offramp_crypto_received
map_offramp_status_to_event crypto_confirmed = some offramp_crypto_confirmed
map_offramp_status_to_event processing_fee = none
map_offramp_status_to_event fee_processed = none
map_offramp_status_to_event fiat_initiated = some offramp_fiat_initiated
map_offramp_status_to_event OfframpStatus.fiat_pending = some offramp_fiat_initiated
map_offramp_status_to_event OfframpStatus.completed = some offramp_completed
map_offramp_status_to_event failed = some offramp_failed
map_offramp_status_to_event OfframpStatus.crypto_failed = some offramp_failed
map_offramp_status_to_event OfframpStatus.fiat_failed = some offramp_failed
map_offramp_status_to_event cancelled = some offramp_cancelled
map_offramp_status_to_event refunded = some offramp_refunded
map_offramp_status_to_event OfframpStatus.expired = some offramp_expired

unfoldable same_event : Option PartnerEvent → PartnerEvent → Option PartnerEvent
unfolding PartnerEvent-discrete
same_event none next = some next
same_event (some prev) next = ite (PartnerEvent-discrete prev next) none (some next)

-- The event for a change from one status to the next, given the events of the two.
unfoldable pub should_emit_ramp_event :
    Option PartnerEvent → Option PartnerEvent → Option PartnerEvent
unfolding same_event
should_emit_ramp_event prev none = none
should_emit_ramp_event prev (some next) = same_event prev next
