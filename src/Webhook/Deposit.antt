-- ===== src/Webhook/Deposit.antt =====
-- The case `deposit.credited`: the provider has received the customer's fiat (onramp) or crypto
-- (offramp).
pub mod Laws
use api_bloxfi.Prelude.{
  ℕ, ◌+◌, String, Bool, true, false, not, ◌&&◌, ◌||◌, Option, none, some, [], ◌∷◌, if◌then◌else◌,
  ◌==◌, ◌>>=◌, ◌>>◌, require,
}
use api_bloxfi.Text.{trim, to_upper, to_lower, starts_with, is_set, or_else}
use api_bloxfi.Numeric.{units}
use api_bloxfi.Json.{
  Value, num, str, obj, Fields, get, object, spread, as_record, record_or_empty, text_of, text_at,
  member, text_or_empty, text_or_undefined, or_default,
}
use api_bloxfi.TxnRef.{is_onramp_txn_ref, is_offramp_txn_ref}
use api_bloxfi.Offramp.DepositAmount.{
  parse_deposit_webhook_amount, expected_offramp_crypto_amount, prior_crypto_received_amount,
  is_offramp_crypto_deposit_complete,
}
use api_bloxfi.Ramp.Status.{
  OnrampStatus, OfframpStatus, awaiting_funds, fiat_processed, awaiting_crypto, crypto_received,
  crypto_confirmed,
}
use api_bloxfi.Ramp.Store.{
  World, OnrampPatch, OfframpPatch, OfframpRow, automatic, find_onramp_by_txn_ref,
  find_offramp_by_txn_ref, update_onramp_status, update_offramp_status,
}
use api_bloxfi.Webhook.Repos.{
  WebhookRepos, get_palremit_orchestrator, orch_text, orchestrator_refs, is_expected_id,
}

-- A credit may also recover a ramp whose deposit window had expired.
abbrev pub onramp_takes_credit : OnrampStatus → Bool
onramp_takes_credit awaiting_funds = true
onramp_takes_credit OnrampStatus.fiat_pending = true
onramp_takes_credit OnrampStatus.expired = true
onramp_takes_credit _ = false

abbrev pub offramp_takes_credit : OfframpStatus → Bool
offramp_takes_credit awaiting_crypto = true
offramp_takes_credit OfframpStatus.crypto_pending = true
offramp_takes_credit crypto_received = true
offramp_takes_credit OfframpStatus.expired = true
offramp_takes_credit _ = false

-- What the payload says of the deposit. A code of the asset that is no text reads as empty.
pub record Deposit : Type 0 where
  pub client_ref : String
  pub fields : Fields
  pub prov_id : String
  pub mode : String
  pub asset_code : String
  pub network : String

abbrev asset_code_of : Option Fields → String
asset_code_of none = ""
asset_code_of (some asset) = to_upper (text_at "code" asset)

unfoldable pub read_deposit : Fields → Option Deposit
read_deposit d = do
  let client_ref = text_at "client_reference" d
  require (is_set client_ref)
  dep ← as_record (get "deposit" d)
  let prov_id = text_at "provisioned_account_id" dep
  let state = to_lower (text_of (get "state" dep))
  require (is_set prov_id && (state == "credited" || is_set (text_at "credited_at" dep)))
  some (record {
    client_ref = client_ref;
    fields = dep;
    prov_id = prov_id;
    mode = text_of (get "mode" dep);
    asset_code = asset_code_of (as_record (get "asset" dep));
    network = text_at "network" dep;
  })

abbrev receipt_of : String → String → Fields → String → Value
receipt_of event_type key v client_ref = obj (
    object (
      ("provider", str "palremit")
      ∷ ("eventType", str event_type)
      ∷ (key, obj v)
      ∷ ("client_reference", str client_ref)
      ∷ []))

unfoldable pub credit_onramp : WebhookRepos → Fields → Deposit → World → Option World
credit_onramp repos d dep w = do
  onramp ← find_onramp_by_txn_ref dep.client_ref w
  require (onramp_takes_credit onramp.status)
  let orch = get_palremit_orchestrator onramp.provider_refs
  require (is_expected_id (orch_text "provisionedAccountId" orch) dep.prov_id)
  require (starts_with dep.mode "FIAT_DEPOSIT")
  currency ← member "currency" onramp.source >>= text_or_empty
  let want_asset = to_upper (trim currency)
  require (not (is_set dep.asset_code && is_set want_asset && not (dep.asset_code == want_asset)))
  let patch : OnrampPatch = record {
    receipt = some (receipt_of "deposit.credited" "deposit" dep.fields dep.client_ref);
    failed_reason = some none;
    provider_refs = some (
        orchestrator_refs orch (
          ("palremitDepositId", text_or_undefined (text_at "id" dep.fields))
          ∷ ("depositStatus", str "credited")
          ∷ ("rawDepositCreditedPayload", obj d)
          ∷ []));
    deposit_info = none;
  }
  w' ← update_onramp_status repos.now automatic onramp.id fiat_processed patch w
  some (repos.advance_onramp_after_fiat_webhook onramp.id w')

-- `assetCode && wanted !== assetCode`, where the wanted currency is read only if there is a code.
abbrev pub asset_agrees : String → Value → Option Bool
asset_agrees code source =
    if is_set code
    then (do
      currency ← member "currency" source >>= text_or_empty
      some (to_upper (trim currency) == code))
    else some true

-- The timeline after a credit of the offramp.
unfoldable pub credited_timeline : String → Bool → ℕ → ℕ → Fields → Fields
credited_timeline now complete total expected old = spread old (
    object (
      ("cryptoReceivedAmount", num (units total))
      ∷ ("cryptoExpectedAmount", num (units expected))
      ∷ ("lastDepositCreditedAt", str now)
      ∷ (if complete
          then ("cryptoConfirmedAt", str now)
          else ("cryptoReceivedAt", or_default (str now) (get "cryptoReceivedAt" old)))
      ∷ []))

unfoldable pub credit_patch : String → Bool → ℕ → ℕ → Fields → Deposit → OfframpRow → OfframpPatch
unfolding credited_timeline get_palremit_orchestrator
credit_patch now complete total expected d dep offramp = record {
  deposit_instructions = none;
  timeline =
      some (obj (credited_timeline now complete total expected (record_or_empty offramp.timeline)));
  fees = none;
  receipt = some (receipt_of "deposit.credited" "deposit" dep.fields dep.client_ref);
  refund_details = none;
  failed_reason = some none;
  lp_reference = none;
  provider_refs = some (
      orchestrator_refs (get_palremit_orchestrator offramp.provider_refs) (
        ("palremitDepositId", text_or_undefined (text_at "id" dep.fields))
        ∷ ("depositStatus", str (if complete then "credited" else "partial"))
        ∷ ("cryptoReceivedAmount", num (units total))
        ∷ ("cryptoExpectedAmount", num (units expected))
        ∷ ("rawDepositCreditedPayload", obj d)
        ∷ []));
}

-- What a credit of an offramp amounts to.
pub record Credit : Type 0 where
  pub total : ℕ
  pub expected : ℕ
  pub complete : Bool

-- The checks of the credit against the stored offramp, and the sums.
unfoldable pub check_offramp_credit : Deposit → OfframpRow → Option Credit
check_offramp_credit dep offramp = do
  require (offramp_takes_credit offramp.status)
  require (dep.mode == "CRYPTO_DEPOSIT")
  let orch = get_palremit_orchestrator offramp.provider_refs
  require (is_expected_id (orch_text "provisionedAccountId" orch) dep.prov_id)
  same_asset ← asset_agrees dep.asset_code offramp.source
  require same_asset
  chain ← member "chain" offramp.source >>= text_or_empty
  let want_net = to_upper (trim chain)
  require (not (is_set dep.network && is_set want_net && not (to_upper dep.network == want_net)))
  incoming ← parse_deposit_webhook_amount dep.fields
  expected ← expected_offramp_crypto_amount offramp.source offramp.deposit_instructions
  let total = prior_crypto_received_amount offramp.timeline + incoming
  currency ← member "currency" offramp.source
  some (record {
    total = total;
    expected = expected;
    complete =
        is_offramp_crypto_deposit_complete total expected
          (or_else dep.asset_code (text_of currency));
  })

unfoldable pub credit_offramp : WebhookRepos → Fields → Deposit → World → Option World
credit_offramp repos d dep w = do
  offramp ← find_offramp_by_txn_ref dep.client_ref w
  credit ← check_offramp_credit dep offramp
  let status = if credit.complete then crypto_confirmed else crypto_received
  let patch = credit_patch repos.now credit.complete credit.total credit.expected d dep offramp
  w' ← update_offramp_status repos.now automatic offramp.id status patch w
  some (if credit.complete then repos.advance_offramp_after_crypto_webhook offramp.id w' else w')

unfoldable pub deposit_credited : WebhookRepos → Fields → World → Option World
deposit_credited repos d w = do
  dep ← read_deposit d
  if is_onramp_txn_ref dep.client_ref
      then credit_onramp repos d dep w
      else if is_offramp_txn_ref dep.client_ref
      then credit_offramp repos d dep w
      else none
