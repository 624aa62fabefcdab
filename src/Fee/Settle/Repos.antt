-- ===== src/Fee/Settle/Repos.antt =====
-- The two repositories of fee settlements (settleOnrampPlatformFee.ts, settleOfframpPlatformFee.ts):
-- an onramp's fees are written alone, an offramp's together with the status COMPLETED.
pub mod Laws
use api_bloxfi.Prelude.{String, Bool, true, false, Option, some, ◌>>=◌, otherwise}
use api_bloxfi.Json.{Value, Fields}
use api_bloxfi.Table.{modify}
use api_bloxfi.Ramp.Status.{OnrampStatus, OfframpStatus}
use api_bloxfi.Ramp.Store.{
  World, OnrampRow, OfframpRow, automatic, no_offramp_patch, onramp_has_id, find_onramp_by_id,
  find_offramp_by_id, find_onramp_by_txn_ref, find_offramp_by_txn_ref, update_offramp_status,
}
use api_bloxfi.Webhook.Repos.{FeeTerminal}
use api_bloxfi.Fee.Settle.{FeeRow, FeeRepo, apply_ramp_platform_fee_withdrawal_webhook}

abbrev onramp_is_completed : OnrampStatus → Bool
onramp_is_completed OnrampStatus.completed = true
onramp_is_completed _ = false

abbrev offramp_is_completed : OfframpStatus → Bool
offramp_is_completed OfframpStatus.completed = true
offramp_is_completed _ = false

abbrev onramp_fee_row : OnrampRow → FeeRow
onramp_fee_row r = record {
  id = r.id;
  is_completed = onramp_is_completed r.status;
  txn_ref = r.txn_ref;
  fees = r.fees;
}

abbrev offramp_fee_row : OfframpRow → FeeRow
offramp_fee_row r = record {
  id = r.id;
  is_completed = offramp_is_completed r.status;
  txn_ref = r.txn_ref;
  fees = r.fees;
}

unfoldable pub update_onramp_fees : String → Value → World → Option World
unfolding find_onramp_by_id
update_onramp_fees id fees w = do
  existing ← find_onramp_by_id id w
  some (record w {
    onramps = modify (onramp_has_id id) (λ (r : OnrampRow). record r { fees = fees }) w.onramps;
  })

unfoldable pub onramp_fee_repo : FeeRepo
unfolding update_onramp_fees
onramp_fee_repo = record {
  find_by_id = λ id w. find_onramp_by_id id w >>= λ r. some (onramp_fee_row r);
  find_by_txn_ref = λ ref w. find_onramp_by_txn_ref ref w >>= λ r. some (onramp_fee_row r);
  save_fees = update_onramp_fees;
}

unfoldable pub offramp_fee_repo : String → FeeRepo
offramp_fee_repo now = record {
  find_by_id = λ id w. find_offramp_by_id id w >>= λ r. some (offramp_fee_row r);
  find_by_txn_ref = λ ref w. find_offramp_by_txn_ref ref w >>= λ r. some (offramp_fee_row r);
  save_fees = λ id fees w.
      update_offramp_status now automatic id OfframpStatus.completed
        (record no_offramp_patch { fees = some fees }) w;
}

-- The fee webhooks as the webhook controller wires them.
unfoldable pub onramp_fee_webhook : String → String → Fields → FeeTerminal → World → World
onramp_fee_webhook now parent withdrawal terminal w =
    otherwise w
      (apply_ramp_platform_fee_withdrawal_webhook now onramp_fee_repo parent withdrawal terminal w)

unfoldable pub offramp_fee_webhook : String → String → Fields → FeeTerminal → World → World
offramp_fee_webhook now parent withdrawal terminal w = otherwise w (
    apply_ramp_platform_fee_withdrawal_webhook now (offramp_fee_repo now) parent withdrawal terminal
      w)
