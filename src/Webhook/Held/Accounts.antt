-- ===== src/Webhook/Held/Accounts.antt =====
-- The cases of provisioned accounts, and ramps whose funds were received.
use api_bloxfi.Prelude.{String, Option, Ensures, Ensures-or_try}
use api_bloxfi.Json.{Fields}
use api_bloxfi.Ramp.Store.{World}
use api_bloxfi.Ramp.Held.{WorldHeld, WorldUnfailed-same}
use api_bloxfi.Webhook.Repos.{WebhookRepos}
use api_bloxfi.Webhook.Issuance.{Issuance, apply_fiat_deposit_account_issuance_webhook}
use api_bloxfi.Webhook.Account.{
  Provisioned, by_owner, activate_onramp, activate_offramp, provisioned_account_active,
  kyc_pending_onramp, kyc_pending_offramp, provisioned_account_kyc_pending, fail_onramp_account,
  fail_offramp_account, provisioned_account_failed,
}
use api_bloxfi.Webhook.Held.Rules.{held_rules}

module _ (repos : WebhookRepos) (d : Fields) (w : World) where
  pub kyc_pending_onramp-WorldHeld :
      (a : Provisioned) → Ensures (WorldHeld w) (kyc_pending_onramp repos d a w)
  unfolding kyc_pending_onramp
  kyc_pending_onramp-WorldHeld a = search (held_rules) depth 14

  pub kyc_pending_offramp-WorldHeld :
      (a : Provisioned) → Ensures (WorldHeld w) (kyc_pending_offramp repos d a w)
  unfolding kyc_pending_offramp
  kyc_pending_offramp-WorldHeld a = search (held_rules) depth 14

  pub fail_onramp_account-WorldHeld :
      (a : Provisioned) (message : String)
      → Ensures (WorldHeld w) (fail_onramp_account repos d a message w)
  unfolding fail_onramp_account
  fail_onramp_account-WorldHeld a message = search (held_rules) depth 14

  pub fail_offramp_account-WorldHeld :
      (a : Provisioned) (message : String)
      → Ensures (WorldHeld w) (fail_offramp_account repos d a message w)
  unfolding fail_offramp_account
  fail_offramp_account-WorldHeld a message = search (held_rules) depth 14

  pub activate_onramp-WorldHeld :
      (a : Provisioned) (i : Fields) → Ensures (WorldHeld w) (activate_onramp repos d a i w)
  unfolding activate_onramp
  activate_onramp-WorldHeld a i = search (held_rules) depth 14

  pub activate_offramp-WorldHeld :
      (a : Provisioned) (i : Fields) → Ensures (WorldHeld w) (activate_offramp repos d a i w)
  unfolding activate_offramp
  activate_offramp-WorldHeld a i = search (held_rules) depth 14

  pub issuance-WorldHeld :
      (ref id mode : String) (i : Issuance)
      → Ensures (WorldHeld w) (apply_fiat_deposit_account_issuance_webhook repos ref id mode i w)
  unfolding apply_fiat_deposit_account_issuance_webhook
  issuance-WorldHeld ref id mode i =
      search (held_rules, λ (v : World). WorldUnfailed-same w v) depth 14

  pub by_owner-WorldHeld :
      (a : Provisioned) (i : Issuance) (m k : Option World)
      → Ensures (WorldHeld w) m
      → Ensures (WorldHeld w) k
      → Ensures (WorldHeld w) (by_owner repos a i m k w)
  by_owner-WorldHeld a i m k hm hk = search (held_rules, Ensures-or_try, issuance-WorldHeld)

  pub provisioned_account_active-WorldHeld :
      Ensures (WorldHeld w) (provisioned_account_active repos d w)
  unfolding provisioned_account_active
  provisioned_account_active-WorldHeld =
      search (held_rules, by_owner-WorldHeld, activate_onramp-WorldHeld, activate_offramp-WorldHeld)
        depth 14

  pub provisioned_account_kyc_pending-WorldHeld :
      Ensures (WorldHeld w) (provisioned_account_kyc_pending repos d w)
  unfolding provisioned_account_kyc_pending
  provisioned_account_kyc_pending-WorldHeld =
      search
        (
          held_rules, by_owner-WorldHeld, kyc_pending_onramp-WorldHeld,
          kyc_pending_offramp-WorldHeld,
        )
        depth 14

  pub provisioned_account_failed-WorldHeld :
      Ensures (WorldHeld w) (provisioned_account_failed repos d w)
  unfolding provisioned_account_failed
  provisioned_account_failed-WorldHeld =
      search
        (
          held_rules, by_owner-WorldHeld, fail_onramp_account-WorldHeld,
          fail_offramp_account-WorldHeld,
        )
        depth 14
