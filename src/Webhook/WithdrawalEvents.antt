-- ===== src/Webhook/WithdrawalEvents.antt =====
-- The handlers of the cases `withdrawal.successful`, `withdrawal.funded` and `withdrawal.failed`: the
-- reading of the payload and the choice between fee withdrawals, onramps and offramps.
use api_bloxfi.Prelude.{
  String, Bool, true, false, not, ◌&&◌, Option, none, some, List, [], ◌∷◌, ◌++◌, if◌then◌else◌,
  ◌==◌, ◌>>=◌, ◌>>◌, require, otherwise,
}
use api_bloxfi.Text.{to_lower, is_set, or_else}
use api_bloxfi.Json.{
  Value, undefined, bool, str, obj, Fields, get, object, as_record, text_of, text_at, is_text,
}
use api_bloxfi.TxnRef.{
  is_onramp_txn_ref, is_offramp_txn_ref, parse_offramp_fee_client_reference,
  parse_onramp_fee_client_reference,
}
use api_bloxfi.Ramp.Status.{OnrampStatus, OfframpStatus, crypto_confirmed, fiat_initiated, failed}
use api_bloxfi.Ramp.Store.{
  World, OnrampPatch, OfframpPatch, OnrampRow, onramp_fee, automatic, find_onramp_by_txn_ref,
  find_offramp_by_txn_ref, update_onramp_status, update_offramp_status,
}
use api_bloxfi.Webhook.Repos.{
  WebhookRepos, fee_completed, fee_failed, get_palremit_orchestrator, orch_text, orchestrator_refs,
  id_agrees, expected_fiat_withdrawal_id, withdrawal_client_reference,
}
use api_bloxfi.Webhook.Withdrawal.{
  funded, paid, is_completed, start_fee_job, withdrawal_receipt,
  complete_fiat_offramp_from_withdrawal, record_failure_after_funded_completion,
}

-- `ONRAMP_TERMINAL_NO_COMPLETE`
abbrev pub onramp_terminal_no_complete : OnrampStatus → Bool
onramp_terminal_no_complete OnrampStatus.completed = true
onramp_terminal_no_complete OnrampStatus.expired = true
onramp_terminal_no_complete _ = false

abbrev is_fee_mode : String → Bool
is_fee_mode mode = or_else mode "CRYPTO_WITHDRAWAL" == "CRYPTO_WITHDRAWAL"

abbrev destination_tx : Fields → Value
destination_tx withdrawal =
    if is_text (get "provider_external_ref" withdrawal)
    then get "provider_external_ref" withdrawal
    else if is_text (get "settlement_reference" withdrawal)
    then get "settlement_reference" withdrawal
    else undefined

abbrev withdrawal_id_field : String → List (String × Value)
withdrawal_id_field wid = if is_set wid then ("palremitWithdrawalId", str wid) ∷ [] else []

unfoldable pub completed_onramp_patch : String → Fields → Fields → OnrampRow → OnrampPatch
unfolding get_palremit_orchestrator
completed_onramp_patch now withdrawal d onramp =
    let wid = text_at "id" withdrawal in
    record {
      receipt = some (
          obj (
            object (
              ("provider", str "palremit")
              ∷ ("eventType", str "withdrawal.successful")
              ∷ ("withdrawal", obj withdrawal)
              ∷ ("transactionHash", destination_tx withdrawal)
              ∷ ("completedAt", str now)
              ∷ (withdrawal_id_field wid ++ ("awaitingWebhookConfirmation", bool false) ∷ []))));
      failed_reason = some none;
      provider_refs = some (
          orchestrator_refs (get_palremit_orchestrator onramp.provider_refs) (
            withdrawal_id_field wid
            ++ (("withdrawalStatus", str "successful")
                ∷ ("completedAt", str now)
                ∷ ("rawWithdrawalSuccessfulPayload", obj d)
                ∷ [])));
      deposit_info = none;
    }

unfoldable pub complete_onramp :
    WebhookRepos → Fields → Fields → String → String → World → Option World
complete_onramp repos d withdrawal client_ref mode w = do
  require (not (is_set mode && not (mode == "CRYPTO_WITHDRAWAL")))
  onramp ← find_onramp_by_txn_ref client_ref w
  require (not (onramp_terminal_no_complete onramp.status))
  let orch = get_palremit_orchestrator onramp.provider_refs
  require (id_agrees (orch_text "palremitWithdrawalId" orch) (text_at "id" withdrawal))
  let patch = completed_onramp_patch repos.now withdrawal d onramp
  w' ← update_onramp_status repos.now automatic onramp.id OnrampStatus.completed patch w
  some (start_fee_job (onramp_fee onramp.id) w')

-- The rest of `withdrawal.successful`, by what kind of reference the withdrawal has.
unfoldable pub successful_by_reference :
    WebhookRepos
    → Fields
    → Fields
    → String
    → String
    → Option String
    → Option String
    → World
    → Option World
successful_by_reference repos d withdrawal client_ref mode (some parent) other w = do
  require (is_fee_mode mode)
  some (repos.apply_offramp_fee_webhook parent withdrawal fee_completed w)
successful_by_reference repos d withdrawal client_ref mode none (some parent) w = do
  require (is_fee_mode mode)
  some (repos.apply_onramp_fee_webhook parent withdrawal fee_completed w)
successful_by_reference repos d withdrawal client_ref mode none none w =
    if is_onramp_txn_ref client_ref
    then complete_onramp repos d withdrawal client_ref mode w
    else if is_offramp_txn_ref client_ref && (mode == "FIAT_WITHDRAWAL")
    then complete_fiat_offramp_from_withdrawal repos client_ref withdrawal d "withdrawal.successful"
        paid w
    else none

unfoldable pub withdrawal_successful : WebhookRepos → Fields → World → Option World
withdrawal_successful repos d w = do
  withdrawal ← as_record (get "withdrawal" d)
  let client_ref = withdrawal_client_reference withdrawal d
  let state = to_lower (text_of (get "state" withdrawal))
  let mode = text_at "mode" withdrawal
  require (is_set client_ref)
  require (not (is_set state && not (state == "successful")))
  successful_by_reference repos d withdrawal client_ref mode
      (parse_offramp_fee_client_reference client_ref) (parse_onramp_fee_client_reference client_ref)
      w

unfoldable pub withdrawal_funded : WebhookRepos → Fields → World → Option World
withdrawal_funded repos d w = do
  withdrawal ← as_record (get "withdrawal" d)
  let client_ref = withdrawal_client_reference withdrawal d
  require (is_set client_ref && is_offramp_txn_ref client_ref)
  require (text_at "mode" withdrawal == "FIAT_WITHDRAWAL")
  complete_fiat_offramp_from_withdrawal repos client_ref withdrawal d "withdrawal.funded" funded w

-- The text of `failure_reason.message`, if it is there.
unfoldable pub failure_reason_message : Fields → String
failure_reason_message o =
    otherwise "" (as_record (get "failure_reason" o) >>= λ fail. some (text_at "message" fail))

abbrev is_crypto_pending : OnrampStatus → Bool
is_crypto_pending OnrampStatus.crypto_pending = true
is_crypto_pending _ = false

abbrev fails_fiat : OfframpStatus → Bool
fails_fiat OfframpStatus.fiat_pending = true
fails_fiat fiat_initiated = true
fails_fiat crypto_confirmed = true
fails_fiat _ = false

abbrev failed_refs : Value → Fields → Value
failed_refs provider_refs d =
    orchestrator_refs (get_palremit_orchestrator provider_refs)
      (("withdrawalStatus", str "failed") ∷ ("rawWithdrawalFailedPayload", obj d) ∷ [])

unfoldable pub fail_onramp :
    WebhookRepos → Fields → Fields → String → String → String → World → Option World
fail_onramp repos d withdrawal client_ref mode reason w = do
  require (mode == "CRYPTO_WITHDRAWAL")
  onramp ← find_onramp_by_txn_ref client_ref w
  require (is_crypto_pending onramp.status)
  let orch = get_palremit_orchestrator onramp.provider_refs
  require (id_agrees (orch_text "palremitWithdrawalId" orch) (text_at "id" withdrawal))
  let patch : OnrampPatch = record {
    receipt = some (withdrawal_receipt "withdrawal.failed" withdrawal);
    failed_reason = some (some reason);
    provider_refs = some (failed_refs onramp.provider_refs d);
    deposit_info = none;
  }
  update_onramp_status repos.now automatic onramp.id OnrampStatus.crypto_failed patch w

unfoldable pub fail_offramp :
    WebhookRepos → Fields → Fields → String → String → String → World → Option World
fail_offramp repos d withdrawal client_ref mode reason w = do
  require (mode == "FIAT_WITHDRAWAL")
  offramp ← find_offramp_by_txn_ref client_ref w
  let wid = text_at "id" withdrawal
  let patch : OfframpPatch = record {
    deposit_instructions = none;
    timeline = none;
    fees = none;
    receipt = some (withdrawal_receipt "withdrawal.failed" withdrawal);
    refund_details = none;
    failed_reason = some (some reason);
    lp_reference = some (some (or_else wid client_ref));
    provider_refs = some (failed_refs offramp.provider_refs d);
  }
  let fail = do
    require (fails_fiat offramp.status)
    require (id_agrees (expected_fiat_withdrawal_id offramp) wid)
    update_offramp_status repos.now automatic offramp.id failed patch w
  if is_completed offramp.status
      then record_failure_after_funded_completion repos offramp withdrawal d reason w
      else fail

unfoldable pub failed_by_reference :
    WebhookRepos
    → Fields
    → Fields
    → String
    → String
    → String
    → Option String
    → Option String
    → World
    → Option World
failed_by_reference repos d withdrawal client_ref mode reason (some parent) other w = do
  require (is_fee_mode mode)
  some (repos.apply_offramp_fee_webhook parent withdrawal (fee_failed reason) w)
failed_by_reference repos d withdrawal client_ref mode reason none (some parent) w = do
  require (is_fee_mode mode)
  some (repos.apply_onramp_fee_webhook parent withdrawal (fee_failed reason) w)
failed_by_reference repos d withdrawal client_ref mode reason none none w =
    if is_onramp_txn_ref client_ref
    then fail_onramp repos d withdrawal client_ref mode reason w
    else if is_offramp_txn_ref client_ref
    then fail_offramp repos d withdrawal client_ref mode reason w
    else none

unfoldable pub withdrawal_failed : WebhookRepos → Fields → World → Option World
withdrawal_failed repos d w = do
  withdrawal ← as_record (get "withdrawal" d)
  let client_ref = text_at "client_reference" withdrawal
  let state = to_lower (text_of (get "state" withdrawal))
  let mode = text_of (get "mode" withdrawal)
  require (is_set client_ref && (state == "failed"))
  let reason = or_else (failure_reason_message withdrawal) "PALREMIT_WITHDRAW_FAILED"
  failed_by_reference repos d withdrawal client_ref mode reason
      (parse_offramp_fee_client_reference client_ref) (parse_onramp_fee_client_reference client_ref)
      w
