-- ===== src/Payout/Onramp.antt =====
-- core/onramps/advanceOnrampPayout.ts: the crypto withdrawal of an onramp that is FIAT_PROCESSED, or
-- that has no withdrawal yet. The fiat-to-fiat settlement and the provider's answer are fields of
-- `CryptoPayoutDeps`; an answer that throws counts as none.
pub mod Laws
pub mod Again
use api_bloxfi.Prelude.{
  String, Bool, true, false, not, ◌&&◌, Option, none, some, [], ◌∷◌, if◌then◌else◌, ◌>>=◌, ◌>>◌,
  require, otherwise,
}
use api_bloxfi.Text.{is_set}
use api_bloxfi.Numeric.{Number, units, minus, not_finite}
use api_bloxfi.Json.{
  Value, bool, str, obj, Fields, get, object, record_or_empty, text_of, text_at, to_number,
  as_record,
}
use api_bloxfi.Ramp.Status.{OnrampStatus, fiat_processed, crypto_initiated}
use api_bloxfi.Ramp.Store.{
  World, OnrampRow, OnrampPatch, automatic, no_onramp_patch, find_onramp_by_id,
  update_onramp_status,
}
use api_bloxfi.Webhook.Repos.{get_palremit_orchestrator, orchestrator_refs}

pub record CryptoWithdrawal : Type 0 where
  pub withdrawal_id : String
  pub raw_request : Value
  pub raw_response : Value

pub record CryptoPayoutDeps : Type 0 where
  pub settle_internally : OnrampRow → World → Bool × World
  pub execute_withdrawal : OnrampRow → Option CryptoWithdrawal

abbrev pub is_fiat_processed : OnrampStatus → Bool
is_fiat_processed fiat_processed = true
is_fiat_processed _ = false

abbrev pub may_start : OnrampStatus → Bool → Bool
may_start fiat_processed has_id = true
may_start OnrampStatus.crypto_failed has_id = not has_id
may_start crypto_initiated has_id = not has_id
may_start OnrampStatus.crypto_pending has_id = not has_id
may_start _ has_id = false

abbrev is_finite : Number → Bool
is_finite (units n) = true
is_finite (minus n) = true
is_finite not_finite = false

unfoldable pub has_withdrawal_id : Value → Bool
has_withdrawal_id receipt = is_set (text_at "palremitWithdrawalId" (record_or_empty receipt))

-- The properties of source and destination that the withdrawal needs.
unfoldable pub has_payout_data : Fields → Fields → Bool
has_payout_data source destination =
    is_set (text_of (get "userId" source))
    && (is_set (text_of (get "currency" source))
        && (is_finite (to_number (get "amount" source))
            && (is_set (text_of (get "userId" destination))
                && (is_set (text_of (get "currency" destination))
                    && (is_set (text_of (get "chain" destination))
                        && (is_set (text_of (get "walletAddress" destination))
                            && is_finite (to_number (get "amount" destination))))))))

abbrev pending_patch : String → OnrampRow → Option CryptoWithdrawal → OnrampPatch
pending_patch txn_ref row none = record no_onramp_patch {
  receipt =
      some
        (obj (object (("txnRef", str txn_ref) ∷ ("awaitingWebhookConfirmation", bool true) ∷ [])));
  failed_reason = some none;
  provider_refs = some (
      orchestrator_refs (get_palremit_orchestrator row.provider_refs)
        (("withdrawalStatus", str "pending") ∷ ("withdrawalInitiationFailed", bool true) ∷ []));
}
pending_patch txn_ref row (some r) = record no_onramp_patch {
  receipt = some (
      obj (
        object (
          ("txnRef", str txn_ref)
          ∷ ("palremitWithdrawalId", str r.withdrawal_id)
          ∷ ("awaitingWebhookConfirmation", bool true)
          ∷ [])));
  failed_reason = some none;
  provider_refs = some (
      orchestrator_refs (get_palremit_orchestrator row.provider_refs) (
        ("palremitWithdrawalId", str r.withdrawal_id)
        ∷ ("withdrawalStatus", str "pending")
        ∷ ("withdrawalInitiationFailed", bool false)
        ∷ ("rawCryptoWithdrawalRequest", r.raw_request)
        ∷ ("rawCryptoWithdrawalResponse", r.raw_response)
        ∷ []));
}

-- CRYPTO_INITIATED is written before the provider is asked.
abbrev pub initiated : String → OnrampRow → World → Option World
initiated now row w =
    if is_fiat_processed row.status
    then update_onramp_status now automatic row.id crypto_initiated no_onramp_patch w
    else some w

unfoldable pub start_crypto_payout :
    String → CryptoPayoutDeps → String → OnrampRow → World → Option World
start_crypto_payout now deps txn_ref row w = do
  require (may_start row.status (has_withdrawal_id row.receipt))
  source ← as_record row.source
  destination ← as_record row.destination
  require (has_payout_data source destination)
  w' ← initiated now row w
  update_onramp_status now automatic row.id OnrampStatus.crypto_pending
      (pending_patch txn_ref row (deps.execute_withdrawal row)) w'

abbrev pub after_settlement : String → CryptoPayoutDeps → String → OnrampRow → Bool × World → World
after_settlement now deps txn_ref row (true, w) = w
after_settlement now deps txn_ref row (false, w) =
    otherwise w (start_crypto_payout now deps txn_ref row w)

-- The fiat-to-fiat settlement is tried first, for an onramp that is FIAT_PROCESSED.
unfoldable pub advance_onramp_row : String → CryptoPayoutDeps → OnrampRow → World → Option World
advance_onramp_row now deps row w = do
  txn_ref ← row.txn_ref
  require (is_set txn_ref)
  some (
      after_settlement now deps txn_ref row
        (if is_fiat_processed row.status then deps.settle_internally row w else (false, w)))

unfoldable pub advance_onramp_if_fiat_processed : String → CryptoPayoutDeps → String → World → World
unfolding find_onramp_by_id
advance_onramp_if_fiat_processed now deps id w =
    otherwise w (find_onramp_by_id id w >>= λ row. advance_onramp_row now deps row w)
