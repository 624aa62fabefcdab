-- ===== src/Webhook/Held/Legacy.antt =====
-- The cases that name a ramp by its id, and ramps whose funds were received.
use api_bloxfi.Prelude.{String, Ensures}
use api_bloxfi.Json.{Fields}
use api_bloxfi.Ramp.Status.{OnrampStatus, OfframpStatus}
use api_bloxfi.Ramp.Store.{World, HighValueStatus}
use api_bloxfi.Ramp.Held.{WorldHeld, WorldUnfailed-same}
use api_bloxfi.Webhook.Repos.{WebhookRepos}
use api_bloxfi.Webhook.Legacy.{
  set_onramp_status, legacy_onramp_completed, legacy_onramp_failed, legacy_crypto_received,
  set_offramp_status, stamp_offramp, legacy_offramp_completed, legacy_offramp_failed,
  legacy_offramp_refunded, review_high_value_request,
}
use api_bloxfi.Webhook.Held.Rules.{held_rules}

module _ (repos : WebhookRepos) (d : Fields) (w : World) where
  pub set_onramp_status-WorldHeld :
      (status : OnrampStatus) → Ensures (WorldHeld w) (set_onramp_status repos status d w)
  unfolding set_onramp_status
  set_onramp_status-WorldHeld status = search (held_rules) depth 14

  pub legacy_onramp_completed-WorldHeld : Ensures (WorldHeld w) (legacy_onramp_completed repos d w)
  unfolding legacy_onramp_completed
  legacy_onramp_completed-WorldHeld = search (held_rules) depth 14

  pub legacy_onramp_failed-WorldHeld : Ensures (WorldHeld w) (legacy_onramp_failed repos d w)
  unfolding legacy_onramp_failed
  legacy_onramp_failed-WorldHeld = search (held_rules) depth 14

  pub legacy_crypto_received-WorldHeld : Ensures (WorldHeld w) (legacy_crypto_received repos d w)
  unfolding legacy_crypto_received
  legacy_crypto_received-WorldHeld = search (held_rules) depth 14

  pub set_offramp_status-WorldHeld :
      (status : OfframpStatus) → Ensures (WorldHeld w) (set_offramp_status repos status d w)
  unfolding set_offramp_status
  set_offramp_status-WorldHeld status = search (held_rules) depth 14

  pub stamp_offramp-WorldHeld :
      (status : OfframpStatus) (key : String)
      → Ensures (WorldHeld w) (stamp_offramp repos status key d w)
  unfolding stamp_offramp
  stamp_offramp-WorldHeld status key = search (held_rules) depth 14

  pub legacy_offramp_completed-WorldHeld :
      Ensures (WorldHeld w) (legacy_offramp_completed repos d w)
  unfolding legacy_offramp_completed
  legacy_offramp_completed-WorldHeld = search (held_rules) depth 14

  pub legacy_offramp_failed-WorldHeld : Ensures (WorldHeld w) (legacy_offramp_failed repos d w)
  unfolding legacy_offramp_failed
  legacy_offramp_failed-WorldHeld = search (held_rules) depth 14

  pub legacy_offramp_refunded-WorldHeld : Ensures (WorldHeld w) (legacy_offramp_refunded repos d w)
  unfolding legacy_offramp_refunded
  legacy_offramp_refunded-WorldHeld = search (held_rules) depth 14

  pub review-WorldHeld :
      (status : HighValueStatus)
      → Ensures (WorldHeld w) (review_high_value_request repos status d w)
  unfolding review_high_value_request
  review-WorldHeld status = search (held_rules, λ (v : World). WorldUnfailed-same w v) depth 14
