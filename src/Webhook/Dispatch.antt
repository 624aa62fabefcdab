-- ===== src/Webhook/Dispatch.antt =====
-- `processWebhookEvent`: the `switch` over the type of the event.
use api_bloxfi.Prelude.{Option, none, otherwise}
use api_bloxfi.Json.{Fields}
use api_bloxfi.Ramp.Status.{
  OnrampStatus, awaiting_funds, fiat_processed, crypto_initiated, crypto_confirmed, fee_processed,
  fiat_initiated, cancelled,
}
use api_bloxfi.Ramp.Store.{World, hv_approved, hv_rejected}
use api_bloxfi.Webhook.Repos.{WebhookRepos, EventType}
use api_bloxfi.Webhook.Deposit as Deposit
use api_bloxfi.Webhook.WithdrawalEvents as WithdrawalEvents
use api_bloxfi.Webhook.Account as Account
use api_bloxfi.Webhook.Legacy.{
  set_onramp_status, legacy_onramp_completed, legacy_onramp_failed, legacy_crypto_received,
  set_offramp_status, stamp_offramp, legacy_offramp_completed, legacy_offramp_failed,
  legacy_offramp_refunded, review_high_value_request,
}
use api_bloxfi.Webhook.Kyb.{kyb_event}

unfoldable pub handle : WebhookRepos → EventType → Fields → World → Option World
handle repos EventType.deposit_credited d w = Deposit.deposit_credited repos d w
handle repos EventType.withdrawal_successful d w = WithdrawalEvents.withdrawal_successful repos d w
handle repos EventType.withdrawal_funded d w = WithdrawalEvents.withdrawal_funded repos d w
handle repos EventType.withdrawal_failed d w = WithdrawalEvents.withdrawal_failed repos d w
handle repos EventType.account_active d w = Account.provisioned_account_active repos d w
handle repos EventType.account_kyc_pending d w = Account.provisioned_account_kyc_pending repos d w
handle repos EventType.account_failed d w = Account.provisioned_account_failed repos d w
handle repos EventType.kyb_status_updated d w = kyb_event repos EventType.kyb_status_updated d w
handle repos EventType.kyb_approved d w = kyb_event repos EventType.kyb_approved d w
handle repos EventType.kyb_rejected d w = kyb_event repos EventType.kyb_rejected d w
handle repos EventType.onramp_awaiting_funds d w = set_onramp_status repos awaiting_funds d w
handle repos EventType.onramp_fiat_received d w =
    set_onramp_status repos OnrampStatus.fiat_pending d w
handle repos EventType.onramp_fiat_processed d w = set_onramp_status repos fiat_processed d w
handle repos EventType.onramp_crypto_initiated d w = set_onramp_status repos crypto_initiated d w
handle repos EventType.onramp_completed d w = legacy_onramp_completed repos d w
handle repos EventType.onramp_failed d w = legacy_onramp_failed repos d w
handle repos EventType.offramp_crypto_received d w = legacy_crypto_received repos d w
handle repos EventType.offramp_crypto_confirmed d w = set_offramp_status repos crypto_confirmed d w
handle repos EventType.offramp_fee_processed d w = set_offramp_status repos fee_processed d w
handle repos EventType.offramp_fiat_initiated d w =
    stamp_offramp repos fiat_initiated "fiatInitiatedAt" d w
handle repos EventType.offramp_completed d w = legacy_offramp_completed repos d w
handle repos EventType.offramp_failed d w = legacy_offramp_failed repos d w
handle repos EventType.offramp_cancelled d w = stamp_offramp repos cancelled "cancelledAt" d w
handle repos EventType.offramp_refunded d w = legacy_offramp_refunded repos d w
handle repos EventType.high_value_approved d w = review_high_value_request repos hv_approved d w
handle repos EventType.high_value_rejected d w = review_high_value_request repos hv_rejected d w
handle repos EventType.unhandled d w = none

-- A handler that breaks, or throws before it writes, leaves the state as it was.
unfoldable pub process_webhook_event : WebhookRepos → EventType → Fields → World → World
unfolding handle
process_webhook_event repos event d w = otherwise w (handle repos event d w)
