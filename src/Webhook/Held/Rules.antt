-- ===== src/Webhook/Held/Rules.antt =====
-- What the webhooks need of the components that they call, and the rules that go through a handler.
use api_bloxfi.Prelude.{
  String, refl, Bool, true, false, if◌then◌else◌, Option, none, some, Ensures, Ensures-bind,
  Ensures-if, breaks, returns, List, arith, ◌≡◌, Ensures-or_try, Ensures-otherwise,
}
use api_bloxfi.Json.{Fields}
use api_bloxfi.Ramp.Store.{World, FeeJob}
use api_bloxfi.Ramp.Held.{
  WorldHeld, WorldUnfailed, WorldHeld-refl, WorldHeld-of_Unfailed, WorldUnfailed-refl,
  WorldUnfailed-same, Ensures-WorldHeld_then, update_offramp_status-WorldHeld,
  update_onramp_status-WorldHeld,
}
use api_bloxfi.Webhook.Repos.{WebhookRepos, FeeTerminal}
use api_bloxfi.Webhook.Withdrawal.{start_fee_job}

-- What the other components promise to the webhooks: none of them fails a ramp.
pub record NeverFails (repos : WebhookRepos) : Type 0 where
  pub advance_onramp :
      (id : String) (w : World) → WorldUnfailed w (repos.advance_onramp_after_fiat_webhook id w)
  pub advance_offramp :
      (id : String) (w : World) → WorldUnfailed w (repos.advance_offramp_after_crypto_webhook id w)
  pub onramp_fee :
      (parent : String) (f : Fields) (t : FeeTerminal) (w : World)
      → WorldUnfailed w (repos.apply_onramp_fee_webhook parent f t w)
  pub offramp_fee :
      (parent : String) (f : Fields) (t : FeeTerminal) (w : World)
      → WorldUnfailed w (repos.apply_offramp_fee_webhook parent f t w)

pub start_fee_job-WorldUnfailed : (j : FeeJob) (w : World) → WorldUnfailed w (start_fee_job j w)
start_fee_job-WorldUnfailed j w = WorldUnfailed-same w _ refl refl

pub WorldUnfailed-if :
    (b : Bool) (v x y : World)
    → WorldUnfailed v x
    → WorldUnfailed v y
    → WorldUnfailed v (if b then x else y)
WorldUnfailed-if true v x y h k = h
WorldUnfailed-if false v x y h k = k

pub ruleset held_rules = (
  Ensures-bind, Ensures-if, breaks, returns, Ensures-WorldHeld_then,
  update_offramp_status-WorldHeld, update_onramp_status-WorldHeld, WorldHeld-of_Unfailed,
  WorldUnfailed-if, WorldUnfailed-refl, start_fee_job-WorldUnfailed,
)
