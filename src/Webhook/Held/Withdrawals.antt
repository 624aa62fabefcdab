-- ===== src/Webhook/Held/Withdrawals.antt =====
-- The cases of withdrawals, and ramps whose funds were received.
use api_bloxfi.Prelude.{String, Option, none, some, Ensures}
use api_bloxfi.Json.{Fields}
use api_bloxfi.Ramp.Store.{World, OfframpRow}
use api_bloxfi.Ramp.Held.{WorldHeld}
use api_bloxfi.Webhook.Repos.{WebhookRepos}
use api_bloxfi.Webhook.Withdrawal.{
  Stage, record_paid, complete_fiat_offramp_from_withdrawal, record_failure_after_funded_completion,
}
use api_bloxfi.Webhook.WithdrawalEvents.{
  complete_onramp, successful_by_reference, withdrawal_successful, withdrawal_funded, fail_onramp,
  fail_offramp, failed_by_reference, withdrawal_failed,
}
use api_bloxfi.Webhook.Held.Rules.{NeverFails, held_rules}

module _ (repos : WebhookRepos) (d : Fields) (w : World) where
  pub record_paid-WorldHeld :
      (stage : Stage) (r : OfframpRow) → Ensures (WorldHeld w) (record_paid repos d stage r w)
  unfolding record_paid
  record_paid-WorldHeld stage r = search (held_rules) depth 14

  pub complete_fiat-WorldHeld :
      (ref : String) (f : Fields) (event : String) (stage : Stage)
      → Ensures (WorldHeld w) (complete_fiat_offramp_from_withdrawal repos ref f d event stage w)
  unfolding complete_fiat_offramp_from_withdrawal
  complete_fiat-WorldHeld ref f event stage = search (held_rules, record_paid-WorldHeld) depth 14

  pub record_failure_after_funded_completion-WorldHeld :
      (r : OfframpRow) (f : Fields) (reason : String)
      → Ensures (WorldHeld w) (record_failure_after_funded_completion repos r f d reason w)
  unfolding record_failure_after_funded_completion
  record_failure_after_funded_completion-WorldHeld r f reason = search (held_rules) depth 14

  pub complete_onramp-WorldHeld :
      (f : Fields) (ref mode : String)
      → Ensures (WorldHeld w) (complete_onramp repos d f ref mode w)
  unfolding complete_onramp
  complete_onramp-WorldHeld f ref mode = search (held_rules) depth 14

  pub fail_onramp-WorldHeld :
      (f : Fields) (ref mode reason : String)
      → Ensures (WorldHeld w) (fail_onramp repos d f ref mode reason w)
  unfolding fail_onramp
  fail_onramp-WorldHeld f ref mode reason = search (held_rules) depth 14

  pub fail_offramp-WorldHeld :
      (f : Fields) (ref mode reason : String)
      → Ensures (WorldHeld w) (fail_offramp repos d f ref mode reason w)
  unfolding fail_offramp
  fail_offramp-WorldHeld f ref mode reason =
      search (held_rules, record_failure_after_funded_completion-WorldHeld) depth 14

  pub withdrawal_funded-WorldHeld : Ensures (WorldHeld w) (withdrawal_funded repos d w)
  unfolding withdrawal_funded
  withdrawal_funded-WorldHeld = search (held_rules, complete_fiat-WorldHeld) depth 14

  module _ (n : NeverFails repos) where
    pub successful_by_reference-WorldHeld :
        (f : Fields) (ref mode : String) (p q : Option String)
        → Ensures (WorldHeld w) (successful_by_reference repos d f ref mode p q w)
    unfolding successful_by_reference
    successful_by_reference-WorldHeld f ref mode (some p) q = search (held_rules, n.offramp_fee)
    successful_by_reference-WorldHeld f ref mode none (some q) = search (held_rules, n.onramp_fee)
    successful_by_reference-WorldHeld f ref mode none none =
        search (held_rules, complete_onramp-WorldHeld, complete_fiat-WorldHeld)

    pub withdrawal_successful-WorldHeld : Ensures (WorldHeld w) (withdrawal_successful repos d w)
    unfolding withdrawal_successful
    withdrawal_successful-WorldHeld =
        search (held_rules, successful_by_reference-WorldHeld) depth 14

    pub failed_by_reference-WorldHeld :
        (f : Fields) (ref mode reason : String) (p q : Option String)
        → Ensures (WorldHeld w) (failed_by_reference repos d f ref mode reason p q w)
    unfolding failed_by_reference
    failed_by_reference-WorldHeld f ref mode reason (some p) q = search (held_rules, n.offramp_fee)
    failed_by_reference-WorldHeld f ref mode reason none (some q) =
        search (held_rules, n.onramp_fee)
    failed_by_reference-WorldHeld f ref mode reason none none =
        search (held_rules, fail_onramp-WorldHeld, fail_offramp-WorldHeld)

    pub withdrawal_failed-WorldHeld : Ensures (WorldHeld w) (withdrawal_failed repos d w)
    unfolding withdrawal_failed
    withdrawal_failed-WorldHeld = search (held_rules, failed_by_reference-WorldHeld) depth 14
