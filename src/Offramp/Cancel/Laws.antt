-- ===== src/Offramp/Cancel/Laws.antt =====
-- Cancelling an offramp, on every branch.
use api_bloxfi.Prelude.{String, false, ◌≡◌, ◌⊎◌, none, some, ◌==◌}
use api_bloxfi.Json.{str, obj, get, record_or_empty}
use api_bloxfi.Ramp.Status.{OfframpStatus, awaiting_crypto, cancelled}
use api_bloxfi.Ramp.Store.{
  World, OfframpRow, OfframpPatch, automatic, no_offramp_patch, find_offramp_by_id, updated_offramp,
}
use api_bloxfi.Offramp.Cancel.{
  CancelResult, not_found, not_cancellable, cancelled_at, cancelled_timeline, pending_refund,
}

abbrev cancel_patch : String → OfframpRow → OfframpPatch
cancel_patch now row = record no_offramp_patch {
  timeline = some (obj (cancelled_timeline now row.timeline));
  refund_details = some (pending_refund now);
}

-- The row as a cancellation writes it.
abbrev cancelled_row : String → OfframpRow → OfframpRow
cancelled_row now row = updated_offramp now automatic cancelled (cancel_patch now row) row

-- The statuses before the crypto of an offramp arrives.
abbrev pub IsOpen : OfframpStatus → Type 0
IsOpen s = (s ≡ OfframpStatus.created) ⊎ (s ≡ awaiting_crypto)

-- A stored row after a cancellation, against the one before.
pub record CancelledRow (now : String) (old row : OfframpRow) : Type 0 where
  pub status_is : row.status ≡ cancelled
  pub refund_pending : get "status" (record_or_empty row.refund_details) ≡ str "pending"
  pub refund_at : get "refundedAt" (record_or_empty row.refund_details) ≡ str now
  pub cancelled_then : get "cancelledAt" (record_or_empty row.timeline) ≡ str now
  pub timeline_kept :
      (k : String)
      → ("cancelledAt" == k) ≡ false
      → get k (record_or_empty row.timeline) ≡ get k (record_or_empty old.timeline)
  pub same_source : row.source ≡ old.source
  pub same_user : row.user_id ≡ old.user_id

-- What the answer to a cancellation says of the rows before and after.
abbrev pub Cancelled : String → String → String → String → World → CancelResult → World → Type 0
Cancelled now id reason address w not_found v = (find_offramp_by_id id w ≡ none) × (v ≡ w)
Cancelled now id reason address w not_cancellable v =
    (old : OfframpRow) × (find_offramp_by_id id w ≡ some old) × (¬ (IsOpen old.status)) × (v ≡ w)
Cancelled now id reason address w (cancelled_at row at why refund) v =
    (old : OfframpRow) × (find_offramp_by_id id w ≡ some old)
    × IsOpen old.status
    × (find_offramp_by_id id v ≡ some row)
    × CancelledRow now old row
    × (at ≡ now)
    × (why ≡ reason)
    × (refund ≡ address)
