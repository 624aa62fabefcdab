-- ===== src/Webhook/Withdrawal.antt =====
-- The cases `withdrawal.successful`, `withdrawal.funded` and `withdrawal.failed`.
pub mod Laws
use api_bloxfi.Prelude.{
  String, Bool, true, false, not, ◌&&◌, Option, none, some, List, [], ◌∷◌, ◌++◌, if◌then◌else◌,
  ◌==◌, ◌>>=◌, ◌>>◌, require,
}
use api_bloxfi.Text.{or_else}
use api_bloxfi.Json.{
  Value, bool, str, obj, Fields, get, object, spread, record_or_empty, text_of, text_at, is_text,
  is_true,
}
use api_bloxfi.Ramp.Status.{OfframpStatus, crypto_confirmed, fiat_initiated, failed}
use api_bloxfi.Ramp.Store.{
  World, OfframpPatch, OfframpRow, FeeJob, offramp_fee, automatic, find_offramp_by_txn_ref,
  update_offramp_status,
}
use api_bloxfi.Webhook.Repos.{
  WebhookRepos, get_palremit_orchestrator, orch_fields, orchestrator_refs, id_agrees,
  expected_fiat_withdrawal_id,
}

-- `funded`: the payout reached the provider. `paid`: the provider reported it paid out.
pub data Stage : Type 0 where
  funded paid : Stage

abbrev pub is_paid : Stage → Bool
is_paid funded = false
is_paid paid = true

abbrev pub is_completed : OfframpStatus → Bool
is_completed OfframpStatus.completed = true
is_completed _ = false

abbrev pub completes_fiat : OfframpStatus → Bool
completes_fiat OfframpStatus.fiat_pending = true
completes_fiat fiat_initiated = true
completes_fiat crypto_confirmed = true
completes_fiat failed = true
completes_fiat OfframpStatus.fiat_failed = true
completes_fiat _ = false

abbrev pub is_failure : OfframpStatus → Bool
is_failure failed = true
is_failure OfframpStatus.fiat_failed = true
is_failure _ = false

abbrev pub start_fee_job : FeeJob → World → World
start_fee_job job w = record w { fee_jobs = w.fee_jobs ++ job ∷ [] }

abbrev pub withdrawal_receipt : String → Fields → Value
withdrawal_receipt event_type withdrawal = obj (
    object (
      ("provider", str "palremit")
      ∷ ("eventType", str event_type)
      ∷ ("withdrawal", obj withdrawal)
      ∷ []))

-- The final paid status of an offramp that was completed when its payout was funded.
unfoldable pub paid_patch : String → Fields → OfframpRow → OfframpPatch
paid_patch now d offramp = record {
  deposit_instructions = none;
  timeline = some (
      obj (
        spread (record_or_empty offramp.timeline)
          (object (("fiatPaidAt", str now) ∷ ("fiatWithdrawalCompleted", bool true) ∷ []))));
  fees = none;
  receipt = none;
  refund_details = none;
  failed_reason = none;
  lp_reference = none;
  provider_refs = some (
      orchestrator_refs (get_palremit_orchestrator offramp.provider_refs)
        (("withdrawalStatus", str "successful") ∷ ("rawWithdrawalSuccessfulPayload", obj d) ∷ []));
}

abbrev pub stage_timeline : String → Stage → List (String × Value)
stage_timeline now paid = ("fiatPaidAt", str now) ∷ ("fiatWithdrawalCompleted", bool true) ∷ []
stage_timeline now funded = ("completedOn", str "payout_funded") ∷ []

abbrev pub stage_refs : Fields → Stage → List (String × Value)
stage_refs d paid =
    ("withdrawalStatus", str "successful") ∷ ("rawWithdrawalSuccessfulPayload", obj d) ∷ []
stage_refs d funded =
    ("withdrawalStatus", str "funded") ∷ ("rawWithdrawalFundedPayload", obj d) ∷ []

abbrev funded_at : String → Value → Value
funded_at now v = if is_text v then v else str now

unfoldable pub completed_timeline : String → Stage → Fields → Fields
completed_timeline now stage old = spread old (
    object (
      ("completedAt", str now)
      ∷ ("fiatFundedAt", funded_at now (get "fiatFundedAt" old))
      ∷ stage_timeline now stage))

unfoldable pub completed_patch :
    String → String → Fields → Fields → String → Stage → OfframpRow → OfframpPatch
unfolding completed_timeline get_palremit_orchestrator
completed_patch now client_ref withdrawal d event_type stage offramp = record {
  deposit_instructions = none;
  timeline = some (obj (completed_timeline now stage (record_or_empty offramp.timeline)));
  fees = none;
  receipt = some (withdrawal_receipt event_type withdrawal);
  refund_details = none;
  failed_reason = some none;
  lp_reference = some (some (or_else (text_at "id" withdrawal) client_ref));
  provider_refs =
      some
        (orchestrator_refs (get_palremit_orchestrator offramp.provider_refs) (stage_refs d stage));
}

-- An offramp that is COMPLETED already: only the paid stage is recorded, once.
unfoldable pub record_paid : WebhookRepos → Fields → Stage → OfframpRow → World → Option World
record_paid repos d stage offramp w = do
  let timeline = record_or_empty offramp.timeline
  require (is_paid stage && not (is_true (get "fiatWithdrawalCompleted" timeline)))
  update_offramp_status repos.now automatic offramp.id OfframpStatus.completed
      (paid_patch repos.now d offramp) w

unfoldable pub complete_fiat_offramp_from_withdrawal :
    WebhookRepos → String → Fields → Fields → String → Stage → World → Option World
complete_fiat_offramp_from_withdrawal repos client_ref withdrawal d event_type stage w = do
  offramp ← find_offramp_by_txn_ref client_ref w
  let orch = get_palremit_orchestrator offramp.provider_refs
  require (id_agrees (expected_fiat_withdrawal_id offramp) (text_at "id" withdrawal))
  let marked_manually = is_true (get "markedManually" (orch_fields orch))
  let patch = completed_patch repos.now client_ref withdrawal d event_type stage offramp
  let complete = do
    require (completes_fiat offramp.status)
    require (not (is_failure offramp.status && not marked_manually))
    w' ← update_offramp_status repos.now automatic offramp.id OfframpStatus.completed patch w
    some (start_fee_job (offramp_fee offramp.id) w')
  if is_completed offramp.status then record_paid repos d stage offramp w else complete

unfoldable pub failed_after_funding_patch : String → Fields → String → OfframpRow → OfframpPatch
failed_after_funding_patch now d reason offramp = record {
  deposit_instructions = none;
  timeline = some (
      obj (
        spread (record_or_empty offramp.timeline)
          (object (("fiatFailedAfterFundingAt", str now) ∷ []))));
  fees = none;
  receipt = none;
  refund_details = none;
  failed_reason = none;
  lp_reference = none;
  provider_refs = some (
      orchestrator_refs (get_palremit_orchestrator offramp.provider_refs) (
        ("withdrawalStatus", str "failed_after_funding")
        ∷ ("failedAfterFundingReason", str reason)
        ∷ ("rawWithdrawalFailedPayload", obj d)
        ∷ []));
}

-- The provider failed a payout after it was funded and the offramp was COMPLETED.
unfoldable pub record_failure_after_funded_completion :
    WebhookRepos → OfframpRow → Fields → Fields → String → World → Option World
record_failure_after_funded_completion repos offramp withdrawal d reason w = do
  let orch = get_palremit_orchestrator offramp.provider_refs
  require (id_agrees (expected_fiat_withdrawal_id offramp) (text_at "id" withdrawal))
  require (text_of (get "withdrawalStatus" (orch_fields orch)) == "funded")
  update_offramp_status repos.now automatic offramp.id OfframpStatus.completed
      (failed_after_funding_patch repos.now d reason offramp) w
