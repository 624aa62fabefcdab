-- ===== src/Fee/Settle/InFlight.antt =====
-- Settling a fee again while its withdrawal is on its way. `ReadsBack` is what that needs of the
-- repository.
use api_bloxfi.Prelude.{
  String, true, not, refl, ◌≡◌, Option, none, some, List, [], ◌∷◌, Ensures, Ensures-bind,
  Ensures-if, Ensures-some, breaks, returns, Option-cases, inl, inr, arith, ◌==◌, ◌||◌,
}
use api_bloxfi.Json.{Value, Fields}
use api_bloxfi.Ramp.Store.{World}
use api_bloxfi.Fee.Record.{settlement_status, merge_platform_fee_settlement}
use api_bloxfi.Fee.Record.Laws.{settlement_status-merge}
use api_bloxfi.Fee.Validate.{RampKind, FeeDeps, Validation}
use api_bloxfi.Fee.Settle.{
  FeeRow, FeeRepo, Settled, skipped, processing, already_settled, LiveState, live_open,
  live_completed, live_failed, live_patch, live_outcome, settle_ramp_platform_fee, settle_row,
  settle_validated, record_live, persisted, is_settled, persist_platform_fee_settlement,
}

-- What is saved for a completed ramp is found again, on the same row.
pub record ReadsBack (repo : FeeRepo) : Type 0 where
  pub reads_back :
      (id : String) (fees : Value) (v w : World) (row : FeeRow)
      → repo.find_by_id id v ≡ some row
      → row.is_completed ≡ true
      → repo.save_fees id fees v ≡ some w
      → repo.find_by_id id w ≡ some (record row { fees = fees })

abbrev pub unasked_again : World → Settled
unasked_again w = record { outcome = already_settled; requested = none; world = w }

module _ (now later : String) (kind : RampKind) (repo : FeeRepo) (deps deps' : FeeDeps)
    (id : String) (w : World) (laws : ReadsBack repo) where
  abbrev Quiet : Settled → Type 0
  Quiet s =
      s.outcome ≡ processing
      → settle_ramp_platform_fee later kind repo deps' id s.world ≡ some (unasked_again s.world)

  settled_again :
      (row : FeeRow) (live : Fields) (v : World)
      → repo.find_by_id id w ≡ some row
      → row.is_completed ≡ true
      → persist_platform_fee_settlement repo id row.fees (live_patch now live live_open) w ≡ some v
      → settle_ramp_platform_fee later kind repo deps' id v ≡ some (unasked_again v)
  unfolding settle_ramp_platform_fee persist_platform_fee_settlement live_patch
  settled_again row live v f c e =
      let patch = live_patch now live live_open in
      let read = laws.reads_back id (merge_platform_fee_settlement row.fees patch) w v row f c e in
      rw (read, c, settlement_status-merge row.fees patch) refl

  persisted_live :
      (row : FeeRow) (body live : Fields) (state : LiveState)
      → repo.find_by_id id w ≡ some row
      → row.is_completed ≡ true
      → Ensures Quiet (
          persisted
            (live_outcome state)
            (some body)
            (persist_platform_fee_settlement repo id row.fees (live_patch now live state) w))
  persisted_live row body live live_completed f c = Ensures-bind _ _ λ v e. returns λ h. cc
  persisted_live row body live live_failed f c = Ensures-bind _ _ λ v e. returns λ h. cc
  persisted_live row body live live_open f c =
      Ensures-bind _ _ λ v e. returns λ h. settled_again row live v f c e

  persisted_skipped :
      (body : Option Fields) (m : Option World) → Ensures Quiet (persisted skipped body m)
  persisted_skipped body none = breaks
  persisted_skipped body (some v) = returns λ h. cc

  recorded :
      (row : FeeRow) (body : Fields) (live : Option Fields)
      → repo.find_by_id id w ≡ some row
      → row.is_completed ≡ true
      → Ensures Quiet (record_live now repo id row body live w)
  recorded row body none f c = persisted_skipped (some body) _
  recorded row body (some live) f c = persisted_live row body live _ f c

  validated :
      (row : FeeRow) (v : Validation) (notes : List String)
      → repo.find_by_id id w ≡ some row
      → row.is_completed ≡ true
      → Ensures Quiet (settle_validated now kind repo deps id row v notes w)
  validated row v (n ∷ notes) f c = persisted_skipped none _
  validated row v [] f c = recorded row _ _ f c

  row-Quiet :
      (row : FeeRow)
      → repo.find_by_id id w ≡ some row
      → Ensures Quiet (settle_row now kind repo deps id (some row) w)
  row-Quiet row f =
      Ensures-if (not row.is_completed) _ _ (λ _. returns λ h. cc)
        λ c.
          Ensures-if (is_settled (settlement_status row.fees)) _ _ (λ _. returns λ h. cc)
            λ _.
              Ensures-if
                (not (
                  settlement_status row.fees == "pending"
                  || (settlement_status row.fees == "failed")))
                _ _ (λ _. returns λ h. cc) λ o. validated row _ _ f (ground arith)

  -- Once the provider has taken a fee withdrawal that is on its way, settling the same ramp again, at any
  -- later time and whatever the provider would answer, asks for nothing and changes nothing, if the
  -- repository reads back what was saved.
  pub settle-settle_in_flight :
      (s : Settled)
      → settle_ramp_platform_fee now kind repo deps id w ≡ some s
      → s.outcome ≡ processing
      → settle_ramp_platform_fee later kind repo deps' id s.world ≡ some (unasked_again s.world)
  unfolding settle_ramp_platform_fee
  settle-settle_in_flight s e o = elim (Option-cases (repo.find_by_id id w)) [
    | inl n ↦ Ensures-some {P = Quiet} {a = s} (rw (← e, n) (returns λ h. cc)) o
    | inr (row, f) ↦ Ensures-some {P = Quiet} {a = s} (rw (← e, f) (row-Quiet row f)) o
  ]
