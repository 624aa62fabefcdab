-- ===== src/Payout/Wired.antt =====
-- The repositories as the webhook controller wires them (api/v1/webhooks/controllers.ts, `webhookRepos`):
-- a credited deposit starts the payout, an onramp is settled internally where its offramp is found
-- (core/fiatToFiat/settler.ts), and a withdrawal that belongs to a fee settles the fee. What the other
-- providers build stays as in `base`.
use api_bloxfi.Prelude.{Option}
use api_bloxfi.Json.{Fields}
use api_bloxfi.Ramp.Store.{World, OnrampRow}
use api_bloxfi.Ramp.Expiry.{Clock}
use api_bloxfi.Ramp.Held.{WorldHeld}
use api_bloxfi.Webhook.Repos.{WebhookRepos, EventType}
use api_bloxfi.Webhook.Dispatch.{process_webhook_event}
use api_bloxfi.Webhook.Held.Rules.{NeverFails}
use api_bloxfi.Webhook.Held.{process_webhook_event-WorldHeld}
use api_bloxfi.Fee.Settle.Repos.{onramp_fee_webhook, offramp_fee_webhook}
use api_bloxfi.Payout.Offramp.{PayoutDeps, advance_offramp_if_deposit_ready}
use api_bloxfi.Payout.Onramp.{CryptoWithdrawal, CryptoPayoutDeps, advance_onramp_if_fiat_processed}
use api_bloxfi.Payout.Never.{
  advance_offramp-WorldUnfailed, advance_onramp-WorldUnfailed, onramp_fee-WorldUnfailed,
  offramp_fee-WorldUnfailed,
}
use api_bloxfi.FiatToFiat.Settle.{try_settle_fiat_to_fiat_internally}
use api_bloxfi.FiatToFiat.Settle.Laws.{try_settle-WorldUnfailed}

-- `createFiatToFiatSettler`, beside the provider's withdrawal.
abbrev pub crypto_payout_deps :
    Clock → PayoutDeps → (OnrampRow → Option CryptoWithdrawal) → CryptoPayoutDeps
crypto_payout_deps c fiat withdraw = record {
  settle_internally = λ row w. try_settle_fiat_to_fiat_internally c fiat row w;
  execute_withdrawal = withdraw;
}

unfoldable pub webhook_repos :
    Clock → PayoutDeps → (OnrampRow → Option CryptoWithdrawal) → WebhookRepos → WebhookRepos
webhook_repos c fiat withdraw base = record base {
  advance_onramp_after_fiat_webhook =
      λ id w. advance_onramp_if_fiat_processed base.now (crypto_payout_deps c fiat withdraw) id w;
  advance_offramp_after_crypto_webhook =
      λ id w. advance_offramp_if_deposit_ready base.now fiat id w;
  apply_onramp_fee_webhook = λ parent f t w. onramp_fee_webhook base.now parent f t w;
  apply_offramp_fee_webhook = λ parent f t w. offramp_fee_webhook base.now parent f t w;
}

pub webhook_repos-NeverFails :
    (c : Clock) (fiat : PayoutDeps) (withdraw : OnrampRow → Option CryptoWithdrawal)
    (base : WebhookRepos)
    → NeverFails (webhook_repos c fiat withdraw base)
unfolding webhook_repos
webhook_repos-NeverFails c fiat withdraw base = record {
  advance_onramp = λ id w.
      advance_onramp-WorldUnfailed base.now (crypto_payout_deps c fiat withdraw) id w
        (λ row v. try_settle-WorldUnfailed c fiat row v);
  advance_offramp = λ id w. advance_offramp-WorldUnfailed base.now fiat id w;
  onramp_fee = λ parent f t w. onramp_fee-WorldUnfailed base.now parent f t w;
  offramp_fee = λ parent f t w. offramp_fee-WorldUnfailed base.now parent f t w;
}

-- With the payouts, the internal fiat-to-fiat settlement and the fee settlements as the service wires
-- them, one event of the provider, of whatever type and payload, keeps every ramp whose funds were
-- received out of the failure and expiry statuses, and leaves the identifiers and the references of all
-- ramps.
pub wired_service-WorldHeld :
    (c : Clock) (fiat : PayoutDeps) (withdraw : OnrampRow → Option CryptoWithdrawal)
    (base : WebhookRepos) (e : EventType) (d : Fields) (w : World)
    → WorldHeld w (process_webhook_event (webhook_repos c fiat withdraw base) e d w)
wired_service-WorldHeld c fiat withdraw base e d w =
    process_webhook_event-WorldHeld (webhook_repos c fiat withdraw base) e d w
      (webhook_repos-NeverFails c fiat withdraw base)
