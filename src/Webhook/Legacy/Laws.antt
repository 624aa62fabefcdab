-- ===== src/Webhook/Legacy/Laws.antt =====
-- What `offramp.crypto_received` does to an offramp with credited deposits.
use api_bloxfi.Prelude.{
  String, false, refl, ◌≡◌, some, Ensures, Ensures-bind, returns, eq_of_some, sym, ◌∙◌, ◌==◌,
  Ensures-some, Ensures-intro,
}
use mathlib.Core.Path.{subst}
use api_bloxfi.Json.{Value, Fields, get, text_at}
use api_bloxfi.Offramp.DepositAmount.{prior_crypto_received_amount}
use api_bloxfi.Ramp.Status.{OfframpStatus}
use api_bloxfi.Ramp.Store.{
  World, OfframpRow, find_offramp_by_id, automatic, no_offramp_patch, update_offramp_status,
  updated_offramp,
}
use api_bloxfi.Ramp.Update.{update_offramp_status-find}
use api_bloxfi.Webhook.Repos.{WebhookRepos}
use api_bloxfi.Webhook.Legacy.{known_offramp, legacy_crypto_received, stamp}

known_offramp-id :
    (d : Fields) (w : World) → Ensures (λ id. id ≡ text_at "offrampId" d) (known_offramp d w)
unfolding known_offramp
known_offramp-id d w = search (Ensures-bind, returns) depth 8

stamped-forgets :
    (now id : String) (key : String) (receipt : Value) (w : World) (r r' : OfframpRow)
    → (key == "cryptoReceivedAmount") ≡ false
    → find_offramp_by_id id w ≡ some r
    → Ensures
        (λ w'. find_offramp_by_id id w' ≡ some r' → prior_crypto_received_amount r'.timeline ≡ 0)
        (update_offramp_status now automatic id OfframpStatus.crypto_pending
          (record no_offramp_patch { timeline = some (stamp key now); receipt = some receipt })
          w)
unfolding prior_crypto_received_amount updated_offramp get
stamped-forgets now id key receipt w r r' k found = Ensures-intro _ λ w' e read.
    let written =
      update_offramp_status-find now id automatic OfframpStatus.crypto_pending
        (record no_offramp_patch { timeline = some (stamp key now); receipt = some receipt }) w w' r
        found e in
    rw (← eq_of_some (sym written ∙ read), k) refl

-- An event `offramp.crypto_received` that goes through replaces the timeline: the amount that had been
-- credited to the offramp before, whatever it was, reads as 0 afterwards.
pub legacy_crypto_received-forgets :
    (repos : WebhookRepos) (d : Fields) (w w' : World) (r r' : OfframpRow)
    → find_offramp_by_id (text_at "offrampId" d) w ≡ some r
    → legacy_crypto_received repos d w ≡ some w'
    → find_offramp_by_id (text_at "offrampId" d) w' ≡ some r'
    → prior_crypto_received_amount r'.timeline ≡ 0
unfolding legacy_crypto_received
legacy_crypto_received-forgets repos d w w' r r' found e read =
    Ensures-some
      {P = λ v.
        find_offramp_by_id (text_at "offrampId" d) v ≡ some r'
        → prior_crypto_received_amount r'.timeline ≡ 0}
      (rw (← e) (
        Ensures-bind (known_offramp d w) _ λ id k.
          rw (Ensures-some (subst (Ensures _) k (known_offramp-id d w))) (
            stamped-forgets repos.now (text_at "offrampId" d) "cryptoReceivedAt" _ w r r' refl
              found)))
      read
