-- ===== src/Offramp/Cancel.antt =====
-- core/offramps/cancelOfframp.ts: an offramp may be cancelled before its crypto was received. The
-- response repeats the row that is read back; only its own fields are kept here.
pub mod Laws
use api_bloxfi.Prelude.{String, Bool, true, false, Option, none, some, [], ◌∷◌, if◌then◌else◌}
use api_bloxfi.Json.{Value, undefined, str, obj, Fields, object, spread, record_or_empty}
use api_bloxfi.Ramp.Status.{OfframpStatus, awaiting_crypto, cancelled}
use api_bloxfi.Ramp.Store.{
  World, OfframpRow, automatic, no_offramp_patch, find_offramp_by_id, update_offramp_status,
}

-- `not_found` is the null that the function returns, `not_cancellable` the error that it throws.
pub data CancelResult : Type 0 where
  not_found not_cancellable : CancelResult
  cancelled_at : (row : OfframpRow) (at reason refund_address : String) → CancelResult

abbrev pub is_cancellable : OfframpStatus → Bool
is_cancellable OfframpStatus.created = true
is_cancellable awaiting_crypto = true
is_cancellable _ = false

abbrev pub pending_refund : String → Value
pending_refund now = obj (
    object (
      ("status", str "pending")
      ∷ ("refundedAt", str now)
      ∷ ("transactionHash", undefined)
      ∷ ("amount", undefined)
      ∷ ("currency", undefined)
      ∷ []))

unfoldable pub cancelled_timeline : String → Value → Fields
cancelled_timeline now timeline =
    spread (record_or_empty timeline) (object (("cancelledAt", str now) ∷ []))

abbrev cancel_response : String → String → String → Option OfframpRow → CancelResult
cancel_response now reason address none = not_found
cancel_response now reason address (some row) = cancelled_at row now reason address

abbrev written : String → String → String → String → World → Option World → CancelResult × World
written now id reason address w none = (not_found, w)
written now id reason address w (some w') =
    (cancel_response now reason address (find_offramp_by_id id w'), w')

abbrev pub cancel_row :
    String → String → String → String → Option OfframpRow → World → CancelResult × World
cancel_row now id reason address none w = (not_found, w)
cancel_row now id reason address (some row) w =
    let patch = record no_offramp_patch {
      timeline = some (obj (cancelled_timeline now row.timeline));
      refund_details = some (pending_refund now);
    } in
    if is_cancellable row.status
    then written now id reason address w (update_offramp_status now automatic id cancelled patch w)
    else (not_cancellable, w)

unfoldable pub cancel_offramp : String → String → String → String → World → CancelResult × World
cancel_offramp now id reason address w =
    cancel_row now id reason address (find_offramp_by_id id w) w
