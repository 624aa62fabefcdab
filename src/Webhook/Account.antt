-- ===== src/Webhook/Account.antt =====
-- The cases `provisioned_account.active`, `.kyc_pending` and `.failed`: the provider's deposit account
-- of a ramp, or of a fiat account that is identified by its own id.
use Prim.Native.String.{String}
use api_bloxfi.Prelude.{
  Bool, true, false, ◌&&◌, Option, none, some, [], ◌∷◌, if◌then◌else◌, ◌==◌, ◌>>=◌, ◌>>◌, require,
  or_try,
}
use api_bloxfi.Text.{trim, to_upper, to_lower, starts_with, is_set, or_else}
use api_bloxfi.Numeric.{units}
use api_bloxfi.Json.{
  Value, num, str, obj, Fields, get, as_record, record_or_empty, text_of, text_at, member,
  text_or_empty,
}
use api_bloxfi.TxnRef.{is_onramp_txn_ref, is_offramp_txn_ref}
use api_bloxfi.Ramp.Status.{OnrampStatus, OfframpStatus, awaiting_funds, awaiting_crypto}
use api_bloxfi.Ramp.Store.{
  World, OnrampRow, OfframpRow, OnrampPatch, automatic, no_onramp_patch, no_offramp_patch,
  find_onramp_by_txn_ref, find_offramp_by_txn_ref, update_onramp_status, update_offramp_status,
}
use api_bloxfi.Webhook.Repos.{
  WebhookRepos, get_palremit_orchestrator, orch_text, orchestrator_refs, is_expected_id,
}
use api_bloxfi.Webhook.WithdrawalEvents.{failure_reason_message}
use api_bloxfi.Webhook.Issuance.{
  Issuance, issuance_active, issuance_pending, issuance_failed,
  apply_fiat_deposit_account_issuance_webhook,
}

-- The account of the payload: its reference, id and mode.
pub record Provisioned : Type 0 where
  pub client_ref : String
  pub fields : Fields
  pub id : String
  pub mode : String

unfoldable pub read_account : Fields → Option Provisioned
read_account d = do
  account ← as_record (get "account" d)
  let client_ref = text_at "client_reference" account
  let id = text_at "id" account
  require (is_set client_ref && is_set id)
  some (record {
    client_ref = client_ref;
    fields = account;
    id = id;
    mode = text_of (get "mode" account);
  })

abbrev pub account_state : Provisioned → String
account_state a = to_lower (text_of (get "state" a.fields))

abbrev onramp_takes_account : OnrampStatus → Bool
onramp_takes_account awaiting_funds = true
onramp_takes_account OnrampStatus.fiat_pending = true
onramp_takes_account OnrampStatus.created = true
onramp_takes_account _ = false

abbrev offramp_takes_account : OfframpStatus → Bool
offramp_takes_account awaiting_crypto = true
offramp_takes_account OfframpStatus.crypto_pending = true
offramp_takes_account _ = false

abbrev activated : OnrampStatus → OnrampStatus
activated OnrampStatus.created = awaiting_funds
activated OnrampStatus.fiat_pending = awaiting_funds
activated s = s

abbrev amount_or_zero : Value → Value
amount_or_zero (num n) = num n
amount_or_zero _ = num (units 0)

-- The stored onramp that the account belongs to.
unfoldable pub onramp_of_account : Provisioned → World → Option OnrampRow
onramp_of_account a w = do
  onramp ← find_onramp_by_txn_ref a.client_ref w
  require (onramp_takes_account onramp.status)
  let orch = get_palremit_orchestrator onramp.provider_refs
  require (is_expected_id (orch_text "provisionedAccountId" orch) a.id)
  some onramp

unfoldable pub offramp_of_account : Provisioned → World → Option OfframpRow
offramp_of_account a w = do
  offramp ← find_offramp_by_txn_ref a.client_ref w
  require (offramp_takes_account offramp.status)
  let orch = get_palremit_orchestrator offramp.provider_refs
  require (is_expected_id (orch_text "provisionedAccountId" orch) a.id)
  some offramp

abbrev account_refs : Value → String → String → String → Fields → Value
account_refs provider_refs key value payload_key d =
    orchestrator_refs (get_palremit_orchestrator provider_refs)
      ((key, str value) ∷ (payload_key, obj d) ∷ [])

unfoldable pub activate_onramp : WebhookRepos → Fields → Provisioned → Fields → World → Option World
activate_onramp repos d a instructions w = do
  onramp ← onramp_of_account a w
  require (text_of (get "kind" instructions) == "fiat_account")
  currency ← member "currency" onramp.source >>= text_or_empty
  amount ← member "amount" onramp.source
  let deposit_by =
      or_else (text_at "expiresAt" (record_or_empty onramp.quote_information)) repos.next_week
  let info =
      repos.fiat_deposit_info instructions onramp.request_id deposit_by (amount_or_zero amount)
        (or_else (to_upper (trim currency)) "FIAT") onramp.source
  let patch : OnrampPatch = record {
    receipt = none;
    failed_reason = none;
    provider_refs =
        some (
          account_refs onramp.provider_refs "depositStatus" "active" "rawProvisionActivePayload" d);
    deposit_info = some info;
  }
  update_onramp_status repos.now automatic onramp.id (activated onramp.status) patch w

unfoldable pub activate_offramp :
    WebhookRepos → Fields → Provisioned → Fields → World → Option World
activate_offramp repos d a instructions w = do
  offramp ← offramp_of_account a w
  require (text_of (get "kind" instructions) == "crypto_address")
  currency ← member "currency" offramp.source >>= text_or_empty
  amount ← member "amount" offramp.source
  let deposit_by =
      or_else (text_at "expiresAt" (record_or_empty offramp.rate_information)) (
        or_else (text_at "depositBy" (record_or_empty offramp.deposit_instructions))
          repos.next_week)
  di ←
      repos.crypto_deposit_instructions instructions (amount_or_zero amount) deposit_by
        (or_else (to_upper (trim currency)) "CRYPTO")
  let patch = record no_offramp_patch {
    deposit_instructions = some di;
    provider_refs =
        some (
          account_refs offramp.provider_refs "depositStatus" "active" "rawProvisionActivePayload"
            d);
  }
  update_offramp_status repos.now automatic offramp.id awaiting_crypto patch w

-- The three parts that each case tries in turn: the onramp, the account, the offramp.
abbrev pub by_owner :
    WebhookRepos → Provisioned → Issuance → Option World → Option World → World → Option World
by_owner repos a issuance on_onramp on_offramp w =
    if is_onramp_txn_ref a.client_ref && starts_with a.mode "FIAT_DEPOSIT"
    then on_onramp
    else or_try
        (apply_fiat_deposit_account_issuance_webhook repos a.client_ref a.id a.mode issuance w)
        (if is_offramp_txn_ref a.client_ref && (a.mode == "CRYPTO_DEPOSIT")
          then on_offramp
          else none)

unfoldable pub provisioned_account_active : WebhookRepos → Fields → World → Option World
provisioned_account_active repos d w = do
  a ← read_account d
  require (account_state a == "active")
  instructions ← as_record (get "deposit_instructions" a.fields)
  by_owner repos a (issuance_active instructions) (activate_onramp repos d a instructions w)
      (activate_offramp repos d a instructions w) w

unfoldable pub kyc_pending_onramp : WebhookRepos → Fields → Provisioned → World → Option World
kyc_pending_onramp repos d a w = do
  onramp ← onramp_of_account a w
  let refs =
      account_refs onramp.provider_refs "provisionState" "kyc_pending"
        "rawProvisionKycPendingPayload" d
  update_onramp_status repos.now automatic onramp.id onramp.status
      (record no_onramp_patch { provider_refs = some refs }) w

unfoldable pub kyc_pending_offramp : WebhookRepos → Fields → Provisioned → World → Option World
kyc_pending_offramp repos d a w = do
  offramp ← offramp_of_account a w
  let refs =
      account_refs offramp.provider_refs "provisionState" "kyc_pending"
        "rawProvisionKycPendingPayload" d
  update_offramp_status repos.now automatic offramp.id offramp.status
      (record no_offramp_patch { provider_refs = some refs }) w

unfoldable pub provisioned_account_kyc_pending : WebhookRepos → Fields → World → Option World
provisioned_account_kyc_pending repos d w = do
  a ← read_account d
  require (account_state a == "kyc_pending")
  by_owner repos a issuance_pending (kyc_pending_onramp repos d a w)
      (kyc_pending_offramp repos d a w) w

unfoldable pub fail_onramp_account :
    WebhookRepos → Fields → Provisioned → String → World → Option World
fail_onramp_account repos d a message w = do
  onramp ← onramp_of_account a w
  let refs =
      account_refs onramp.provider_refs "depositStatus" "failed" "rawProvisionFailedPayload" d
  update_onramp_status repos.now automatic onramp.id OnrampStatus.fiat_failed
      (record no_onramp_patch { failed_reason = some (some message); provider_refs = some refs }) w

unfoldable pub fail_offramp_account :
    WebhookRepos → Fields → Provisioned → String → World → Option World
fail_offramp_account repos d a message w = do
  offramp ← offramp_of_account a w
  let refs =
      account_refs offramp.provider_refs "depositStatus" "failed" "rawProvisionFailedPayload" d
  update_offramp_status repos.now automatic offramp.id OfframpStatus.crypto_failed
      (record no_offramp_patch { failed_reason = some (some message); provider_refs = some refs }) w

unfoldable pub provisioned_account_failed : WebhookRepos → Fields → World → Option World
provisioned_account_failed repos d w = do
  a ← read_account d
  let message =
      repos.redact
        (or_else (failure_reason_message a.fields) "Identity verification could not be completed")
  by_owner repos a (issuance_failed message) (fail_onramp_account repos d a message w)
      (fail_offramp_account repos d a message w) w
