-- ===== src/Payout/Offramp.antt =====
-- core/offramps/advanceOfframpPayout.ts: the fiat withdrawal of an offramp that is CRYPTO_CONFIRMED.
-- The stored bank account, the body of the withdrawal and the provider's answer are fields of `PayoutDeps`.
pub mod Laws
pub mod Again
use api_bloxfi.Prelude.{ℕ, String, not, Option, some, [], ◌∷◌, ◌>>=◌, ◌>>◌, require, otherwise}
use api_bloxfi.Text.{is_set}
use api_bloxfi.Json.{
  Value, null, str, obj, Fields, get, object, spread, record_or_empty, text_of, to_number, is_true,
  is_nullish, member,
}
use api_bloxfi.Offramp.DepositAmount.{as_positive}
use api_bloxfi.Offramp.FiatRetry.{is_crypto_confirmed}
use api_bloxfi.Ramp.Status.{OfframpStatus, crypto_confirmed}
use api_bloxfi.Ramp.Store.{
  World, OfframpRow, OfframpPatch, automatic, no_offramp_patch, find_offramp_by_id,
  update_offramp_status,
}
use api_bloxfi.Webhook.Repos.{get_palremit_orchestrator, orchestrator_refs}

pub record BankAccount : Type 0 where
  pub currency : String
  pub account_holder : Value
  pub provider_payout : Value

pub data PayoutResult : Type 0 where
  accepted : (withdrawal_id : String) (sender_name raw_request raw_response : Value) → PayoutResult
  refused : (error : String) (raw_response : Value) → PayoutResult

-- `none` is a null of the source: no such account, no body, no answer.
pub record PayoutDeps : Type 0 where
  pub find_account : String → String → Option BankAccount
  pub build_withdrawal : OfframpRow → BankAccount → ℕ → Option Fields
  pub create_withdrawal : Fields → String → Option PayoutResult

abbrev refused_patch : String → String → Value → Fields → OfframpRow → OfframpPatch
refused_patch now error raw body row =
    let lasts = ("fiatPayoutLastError", str error) ∷ ("fiatPayoutLastErrorAt", str now) ∷ [] in
    record no_offramp_patch {
      timeline = some (obj (spread (record_or_empty row.timeline) (object lasts)));
      provider_refs = some (
          orchestrator_refs (get_palremit_orchestrator row.provider_refs) (
            ("fiatPayoutLastError", str error)
            ∷ ("fiatPayoutLastErrorAt", str now)
            ∷ ("rawFiatWithdrawalRequest", obj body)
            ∷ ("rawFiatWithdrawalResponse", raw)
            ∷ []));
    }

abbrev accepted_patch : String → String → Value → Value → Value → OfframpRow → OfframpPatch
accepted_patch now id sender request response row = record no_offramp_patch {
  timeline = some (
      obj (
        spread (record_or_empty row.timeline) (
          object (
            ("fiatWithdrawalId", str id)
            ∷ ("fiatInitiatedAt", str now)
            ∷ ("fiatPayoutLastError", null)
            ∷ ("fiatPayoutLastErrorAt", null)
            ∷ []))));
  lp_reference = some (some id);
  provider_refs = some (
      orchestrator_refs (get_palremit_orchestrator row.provider_refs) (
        ("withdrawalStatus", str "pending")
        ∷ ("palremitWithdrawalId", str id)
        ∷ ("senderName", sender)
        ∷ ("fiatPayoutLastError", null)
        ∷ ("fiatPayoutLastErrorAt", null)
        ∷ ("rawFiatWithdrawalRequest", request)
        ∷ ("rawFiatWithdrawalResponse", response)
        ∷ []));
}

unfoldable pub record_payout : String → Fields → OfframpRow → PayoutResult → World → Option World
record_payout now body row (accepted id sender request response) w =
    update_offramp_status now automatic row.id OfframpStatus.fiat_pending
      (accepted_patch now id sender request response row) w
record_payout now body row (refused error raw) w =
    update_offramp_status now automatic row.id crypto_confirmed
      (refused_patch now error raw body row) w

-- A stored offramp that is ready for its payout: its reference and the body of the withdrawal.
pub record Ready : Type 0 where
  pub txn_ref : String
  pub body : Fields

unfoldable pub payout_ready : PayoutDeps → OfframpRow → Option Ready
payout_ready deps row = do
  txn_ref ← row.txn_ref
  require (is_set txn_ref)
  require (is_crypto_confirmed row.status)
  let timeline = record_or_empty row.timeline
  require (not (is_true (get "fiatWithdrawalCompleted" timeline)))
  require (is_nullish (get "fiatWithdrawalId" timeline))
  account_id ← member "accountId" row.destination
  amount ← member "amount" row.destination
  require (is_set (text_of account_id))
  require (not (is_nullish amount))
  account ← deps.find_account (text_of account_id) row.user_id
  positive ← as_positive (to_number amount)
  body ← deps.build_withdrawal row account positive
  some (record { txn_ref = txn_ref; body = body })

unfoldable pub try_offramp_payout : String → PayoutDeps → String → World → Option World
unfolding find_offramp_by_id
try_offramp_payout now deps id w = do
  row ← find_offramp_by_id id w
  ready ← payout_ready deps row
  result ← deps.create_withdrawal ready.body ready.txn_ref
  record_payout now ready.body row result w

unfoldable pub advance_offramp_if_deposit_ready : String → PayoutDeps → String → World → World
unfolding try_offramp_payout
advance_offramp_if_deposit_ready now deps id w = otherwise w (try_offramp_payout now deps id w)
