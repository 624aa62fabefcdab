-- ===== src/Examples/Reissues.antt =====
-- Runs about reissued payouts.
use api_bloxfi.Prelude.{false, ◌≡◌, refl, none, some, [], ◌∷◌, ◌==◌, Ensures}
use api_bloxfi.Text.{trim}
use api_bloxfi.Json.{null, str, obj, Fields, object, get}
use api_bloxfi.Table.{find, modify}
use api_bloxfi.Ramp.Status.{failed}
use api_bloxfi.Ramp.Store.{
  World, OfframpRow, find_offramp_by_id, find_offramp_by_txn_ref, updated_offramp,
  update_offramp_status, schedule,
}
use api_bloxfi.Offramp.FiatRetry.{offramp_fiat_withdrawal_id}
use api_bloxfi.Webhook.Withdrawal.{paid, complete_fiat_offramp_from_withdrawal}
use api_bloxfi.Webhook.WithdrawalEvents.{fail_offramp}
use api_bloxfi.Payout.Reissue.{
  ReissueDeps, created, reissued, reissue_offramp_fiat_payout, reissue_row, record_reissue,
}
use api_bloxfi.Payout.Reissue.Laws.{
  Outcome, reissue-Outcome, reissue-again, payout_mismatch, reissued_row,
}
use api_bloxfi.Payout.Reissue.Superseded.{superseded_events}
use api_bloxfi.Examples.{with_status, world_of, repos}

abbrev provider : ReissueDeps
provider = record {
  find_account = λ id user. none;
  find_legal_representative = λ user. null;
  beneficiary_dob = λ holder representative. none;
  reissue = λ id key overlay. created "wd2" null;
}

abbrev failed_payout : OfframpRow
failed_payout = record (with_status failed) {
  timeline = obj (object (("fiatWithdrawalId", str "wd1") ∷ []));
}

abbrev failed_world : World
failed_world = world_of (failed_payout ∷ [])

abbrev reissued_world : World
reissued_world = world_of (reissued_row "2025-01-02" "wd1" "wd2" null failed_payout ∷ [])

reissue_runs :
    reissue_offramp_fiat_payout "2025-01-02" provider "o1" "wd1" failed_world
    ≡ some (reissued "wd2" "wd1" "OFF-c4a18b6e3a71f02d4e5b9c08", reissued_world)
unfolding reissue_offramp_fiat_payout reissue_row record_reissue find_offramp_by_id find modify
    update_offramp_status offramp_fiat_withdrawal_id trim get updated_offramp schedule
reissue_runs = refl

new_id_is_set : (trim "wd2" == "") ≡ false
unfolding trim
new_id_is_set = refl

new_id_differs : (trim "wd2" == "wd1") ≡ false
unfolding trim
new_id_differs = refl

reissue-again_example :
    reissue_offramp_fiat_payout "2025-01-03" provider "o1" "wd1" reissued_world
    ≡ some (payout_mismatch, reissued_world)
reissue-again_example =
    reissue-again "2025-01-02" "2025-01-03" "o1" "wd1" "wd2" "wd1" "OFF-c4a18b6e3a71f02d4e5b9c08"
      provider provider failed_world reissued_world reissue_runs new_id_is_set new_id_differs

reissue-Outcome_example :
    Ensures
      (λ r. Outcome "2025-01-02" "o1" "wd1" failed_world r.0 r.1)
      (reissue_offramp_fiat_payout "2025-01-02" provider "o1" "wd1" failed_world)
reissue-Outcome_example = reissue-Outcome "2025-01-02" "o1" "wd1" provider failed_world

abbrev late_event : Fields
late_event = object (("id", str "wd1") ∷ [])

reissued_is_found :
    find_offramp_by_txn_ref "OFF-c4a18b6e3a71f02d4e5b9c08" reissued_world
    ≡ some (reissued_row "2025-01-02" "wd1" "wd2" null failed_payout)
unfolding find_offramp_by_txn_ref find trim updated_offramp
reissued_is_found = refl

late_id_is_set : (trim "wd1" == "") ≡ false
unfolding trim
late_id_is_set = refl

superseded_events_example :
    (complete_fiat_offramp_from_withdrawal repos "OFF-c4a18b6e3a71f02d4e5b9c08" late_event
        late_event "withdrawal.successful" paid reissued_world
      ≡ none)
    × (fail_offramp repos late_event late_event "OFF-c4a18b6e3a71f02d4e5b9c08" "FIAT_WITHDRAWAL"
          "bank" reissued_world
        ≡ none)
unfolding get trim
superseded_events_example =
    superseded_events "2025-01-02" "wd1" "wd2" null failed_payout repos late_event late_event
      "OFF-c4a18b6e3a71f02d4e5b9c08" "withdrawal.successful" "FIAT_WITHDRAWAL" "bank" paid
      reissued_world reissued_is_found refl refl refl
