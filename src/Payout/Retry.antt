-- ===== src/Payout/Retry.antt =====
-- core/offramps/retryOfframpFiatPayout.ts: an operator's retry of the fiat payout.
use api_bloxfi.Prelude.{ℕ, String, not, Option, none, some, if◌then◌else◌, ◌==◌}
use Prim.Native.String.{◌++◌ as cat}
use api_bloxfi.Text.{is_set, or_else}
use api_bloxfi.Json.{get, record_or_empty, text_at, is_true}
use api_bloxfi.Offramp.FiatRetry.{is_crypto_confirmed, offramp_fiat_withdrawal_id}
use api_bloxfi.Ramp.Status.{offramp_status_text}
use api_bloxfi.Ramp.Store.{World, OfframpRow, find_offramp_by_id}
use api_bloxfi.Payout.Offramp.{PayoutDeps, advance_offramp_if_deposit_ready}

pub data RetryResult : Type 0 where
  initiated already_initiated : (withdrawal_id txn_ref : String) → RetryResult
  failed_to_initiate : (txn_ref message : String) → RetryResult
  rejected : (code message : String) (status_code : ℕ) → RetryResult

abbrev ref_text : Option String → String
ref_text none = ""
ref_text (some s) = s

abbrev withdrawal_of : OfframpRow → String
withdrawal_of row = offramp_fiat_withdrawal_id row.timeline row.provider_refs

abbrev last_error : OfframpRow → String
last_error row =
    let refs = record_or_empty row.provider_refs in
    or_else (text_at "fiatPayoutLastError" (record_or_empty row.timeline)) (
      or_else (text_at "fiatPayoutLastError" (record_or_empty (get "palremitOrchestrator" refs)))
        "Palremit did not accept the payout (e.g. missing bank_code on destination account, business not onboarded with provider, insufficient LP balance). Fix data and retry.")

abbrev attempted : Option OfframpRow → RetryResult
attempted none = rejected "NOT_FOUND" "Offramp not found after payout attempt" 404
attempted (some row) =
    if not (is_set (ref_text row.txn_ref))
    then rejected "NOT_FOUND" "Offramp not found after payout attempt" 404
    else if is_set (withdrawal_of row)
    then initiated (withdrawal_of row) (ref_text row.txn_ref)
    else failed_to_initiate (ref_text row.txn_ref) (last_error row)

abbrev retry_row :
    String → PayoutDeps → String → String → Option OfframpRow → World → RetryResult × World
retry_row now deps id user_id none w = (rejected "NOT_FOUND" "Offramp not found" 404, w)
retry_row now deps id user_id (some row) w =
    let w' = advance_offramp_if_deposit_ready now deps id w in
    if not (is_set (ref_text row.txn_ref))
    then (rejected "NOT_FOUND" "Offramp not found" 404, w)
    else if not (row.user_id == user_id)
    then (rejected "FORBIDDEN" "userId does not match this offramp" 403, w)
    else if is_set (withdrawal_of row)
    then (already_initiated (withdrawal_of row) (ref_text row.txn_ref), w)
    else if is_true (get "fiatWithdrawalCompleted" (record_or_empty row.timeline))
    then (
      rejected "PAYOUT_ALREADY_COMPLETED" "Fiat payout is already marked completed for this offramp"
          409,
      w,
    )
    else if not (is_crypto_confirmed row.status)
    then (
      rejected "INVALID_STATUS"
          (cat "Retry is only allowed in CRYPTO_CONFIRMED (current: "
            (cat (offramp_status_text row.status) ")"))
          422,
      w,
    )
    else (attempted (find_offramp_by_id id w'), w')

unfoldable pub retry_offramp_fiat_payout :
    String → PayoutDeps → String → String → World → RetryResult × World
unfolding offramp_fiat_withdrawal_id
retry_offramp_fiat_payout now deps id user_id w =
    retry_row now deps id user_id (find_offramp_by_id id w) w
