-- ===== src/Webhook/Held.antt =====
-- The whole handler, and ramps whose funds were received: the cases of the children, deposits and KYB.
pub mod Rules
mod Legacy
mod Withdrawals
mod Accounts
use api_bloxfi.Prelude.{
  String, refl, Bool, true, false, if◌then◌else◌, Option, none, some, Ensures, Ensures-bind,
  Ensures-if, breaks, returns, List, arith, ◌≡◌, Ensures-or_try, Ensures-otherwise,
}
use api_bloxfi.Json.{Fields}
use api_bloxfi.Ramp.Status.{OnrampStatus, OfframpStatus}
use api_bloxfi.Ramp.Store.{World, OfframpRow, FeeJob, HighValueStatus, UserRow}
use api_bloxfi.Ramp.Held.{
  WorldHeld, WorldUnfailed, WorldHeld-refl, WorldHeld-of_Unfailed, WorldUnfailed-refl,
  WorldUnfailed-same, Ensures-WorldHeld_then, update_offramp_status-WorldHeld,
  update_onramp_status-WorldHeld,
}
use api_bloxfi.Webhook.Repos.{WebhookRepos, EventType, FeeTerminal}
use api_bloxfi.Webhook.Deposit.{Deposit, credit_onramp, credit_offramp, deposit_credited}
use api_bloxfi.Webhook.Withdrawal.{
  Stage, start_fee_job, record_paid, complete_fiat_offramp_from_withdrawal,
  record_failure_after_funded_completion,
}
use api_bloxfi.Webhook.WithdrawalEvents.{
  complete_onramp, successful_by_reference, withdrawal_successful, withdrawal_funded, fail_onramp,
  fail_offramp, failed_by_reference, withdrawal_failed,
}
use api_bloxfi.Webhook.Issuance.{Issuance, apply_fiat_deposit_account_issuance_webhook}
use api_bloxfi.Webhook.Account.{
  Provisioned, by_owner, activate_onramp, activate_offramp, provisioned_account_active,
  kyc_pending_onramp, kyc_pending_offramp, provisioned_account_kyc_pending, fail_onramp_account,
  fail_offramp_account, provisioned_account_failed,
}
use api_bloxfi.Webhook.Legacy.{
  set_onramp_status, legacy_onramp_completed, legacy_onramp_failed, legacy_crypto_received,
  set_offramp_status, stamp_offramp, legacy_offramp_completed, legacy_offramp_failed,
  legacy_offramp_refunded, review_high_value_request,
}
use api_bloxfi.Webhook.Kyb.{apply_kyb_event, kyb_event}
use api_bloxfi.Webhook.Dispatch.{handle, process_webhook_event}
use api_bloxfi.Webhook.Held.Rules.{NeverFails, held_rules}
use api_bloxfi.Webhook.Held.Legacy.{
  set_onramp_status-WorldHeld, legacy_onramp_completed-WorldHeld, legacy_onramp_failed-WorldHeld,
  legacy_crypto_received-WorldHeld, set_offramp_status-WorldHeld, stamp_offramp-WorldHeld,
  legacy_offramp_completed-WorldHeld, legacy_offramp_failed-WorldHeld,
  legacy_offramp_refunded-WorldHeld, review-WorldHeld,
}
use api_bloxfi.Webhook.Held.Withdrawals.{
  withdrawal_funded-WorldHeld, withdrawal_successful-WorldHeld, withdrawal_failed-WorldHeld,
}
use api_bloxfi.Webhook.Held.Accounts.{
  provisioned_account_active-WorldHeld, provisioned_account_kyc_pending-WorldHeld,
  provisioned_account_failed-WorldHeld,
}

module _ (repos : WebhookRepos) (d : Fields) (w : World) where
  apply_kyb_event_tables :
      (e : EventType) (id text : String) (rails : List String) (u : UserRow)
      → (w.offramps ≡ (apply_kyb_event repos e id text rails u w).offramps)
        × (w.onramps ≡ (apply_kyb_event repos e id text rails u w).onramps)
  unfolding apply_kyb_event
  apply_kyb_event_tables e id text rails u = ground arith

  apply_kyb_event-WorldUnfailed :
      (e : EventType) (id text : String) (rails : List String) (u : UserRow)
      → WorldUnfailed w (apply_kyb_event repos e id text rails u w)
  apply_kyb_event-WorldUnfailed e id text rails u =
      let (p, q) = apply_kyb_event_tables e id text rails u in WorldUnfailed-same w _ p q

  kyb_event-WorldHeld : (e : EventType) → Ensures (WorldHeld w) (kyb_event repos e d w)
  unfolding kyb_event
  kyb_event-WorldHeld e = search (held_rules, apply_kyb_event-WorldUnfailed) depth 14

  module _ (n : NeverFails repos) where
    credit_onramp-WorldHeld : (dep : Deposit) → Ensures (WorldHeld w) (credit_onramp repos d dep w)
    unfolding credit_onramp
    credit_onramp-WorldHeld dep = search (held_rules, n.advance_onramp) depth 14

    credit_offramp-WorldHeld :
        (dep : Deposit) → Ensures (WorldHeld w) (credit_offramp repos d dep w)
    unfolding credit_offramp
    credit_offramp-WorldHeld dep = search (held_rules, n.advance_offramp) depth 14

    deposit_credited-WorldHeld : Ensures (WorldHeld w) (deposit_credited repos d w)
    unfolding deposit_credited
    deposit_credited-WorldHeld =
        search (held_rules, credit_onramp-WorldHeld, credit_offramp-WorldHeld) depth 14

  module _ (n : NeverFails repos) where
    handle-WorldHeld : (e : EventType) → Ensures (WorldHeld w) (handle repos e d w)
    unfolding handle
    handle-WorldHeld EventType.deposit_credited = deposit_credited-WorldHeld n
    handle-WorldHeld EventType.withdrawal_successful = withdrawal_successful-WorldHeld repos d w n
    handle-WorldHeld EventType.withdrawal_failed = withdrawal_failed-WorldHeld repos d w n
    handle-WorldHeld EventType.offramp_fiat_initiated = stamp_offramp-WorldHeld repos d w _ _
    handle-WorldHeld EventType.offramp_cancelled = stamp_offramp-WorldHeld repos d w _ _
    handle-WorldHeld EventType.high_value_approved = review-WorldHeld repos d w _
    handle-WorldHeld EventType.high_value_rejected = review-WorldHeld repos d w _
    handle-WorldHeld EventType.unhandled = breaks
    handle-WorldHeld EventType.withdrawal_funded = withdrawal_funded-WorldHeld repos d w
    handle-WorldHeld EventType.account_active = provisioned_account_active-WorldHeld repos d w
    handle-WorldHeld EventType.account_kyc_pending =
        provisioned_account_kyc_pending-WorldHeld repos d w
    handle-WorldHeld EventType.account_failed = provisioned_account_failed-WorldHeld repos d w
    handle-WorldHeld EventType.kyb_status_updated = kyb_event-WorldHeld _
    handle-WorldHeld EventType.kyb_approved = kyb_event-WorldHeld _
    handle-WorldHeld EventType.kyb_rejected = kyb_event-WorldHeld _
    handle-WorldHeld EventType.onramp_completed = legacy_onramp_completed-WorldHeld repos d w
    handle-WorldHeld EventType.onramp_failed = legacy_onramp_failed-WorldHeld repos d w
    handle-WorldHeld EventType.offramp_crypto_received = legacy_crypto_received-WorldHeld repos d w
    handle-WorldHeld EventType.offramp_crypto_confirmed = set_offramp_status-WorldHeld repos d w _
    handle-WorldHeld EventType.offramp_fee_processed = set_offramp_status-WorldHeld repos d w _
    handle-WorldHeld EventType.offramp_completed = legacy_offramp_completed-WorldHeld repos d w
    handle-WorldHeld EventType.offramp_failed = legacy_offramp_failed-WorldHeld repos d w
    handle-WorldHeld EventType.offramp_refunded = legacy_offramp_refunded-WorldHeld repos d w
    handle-WorldHeld _ = set_onramp_status-WorldHeld repos d w _

-- One event, of whatever type and payload, keeps every ramp whose funds were received out of the
-- failure and expiry statuses, and no ramp changes its id or its reference; the components that the
-- webhooks call must never fail a ramp themselves.
pub process_webhook_event-WorldHeld :
    (repos : WebhookRepos) (e : EventType) (d : Fields) (w : World)
    → NeverFails repos
    → WorldHeld w (process_webhook_event repos e d w)
unfolding process_webhook_event
process_webhook_event-WorldHeld repos e d w n =
    Ensures-otherwise w (WorldHeld-refl w) (handle-WorldHeld repos d w n e)
