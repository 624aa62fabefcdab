-- ===== src/Fee/Settle/Repos/Laws.antt =====
-- Reading saved fees back, for the repositories of both kinds of ramp.
use api_bloxfi.Prelude.{
  String, true, refl, ◌≡◌, none, some, Option-cases, inl, inr, ◌⊎◌, eq_of_some, ◌>>=◌,
}
use api_bloxfi.Json.{Value}
use api_bloxfi.Table.{modify, find-modify}
use api_bloxfi.Ramp.Status.{OfframpStatus}
use api_bloxfi.Ramp.Guard.{blocks_offramp_transition}
use api_bloxfi.Ramp.Store.{
  World, OnrampRow, OfframpRow, automatic, no_offramp_patch, onramp_has_id, find_onramp_by_id,
  find_offramp_by_id, updated_offramp, update_offramp_status,
}
use api_bloxfi.Ramp.Update.{update_offramp_status-find}
use api_bloxfi.Fee.Settle.{FeeRow}
use api_bloxfi.Fee.Settle.InFlight.{ReadsBack}
use api_bloxfi.Fee.Settle.Repos.{
  update_onramp_fees, onramp_fee_repo, offramp_fee_repo, onramp_fee_row, offramp_fee_row,
}

update_onramp_fees-find :
    (id : String) (fees : Value) (v w : World) (r : OnrampRow)
    → find_onramp_by_id id v ≡ some r
    → update_onramp_fees id fees v ≡ some w
    → find_onramp_by_id id w ≡ some (record r { fees = fees })
unfolding update_onramp_fees find_onramp_by_id
update_onramp_fees-find id fees v w r found e =
    let save = λ (x : OnrampRow). record x { fees = fees } in
    let same : record v { onramps = modify (onramp_has_id id) save v.onramps } ≡ w =
      eq_of_some (rw found at e) in
    rw (← same) (find-modify (onramp_has_id id) save v.onramps (λ x. refl) found)

-- The fees that the onramp repository saves are found again, on the same row.
pub onramp_fee_repo-ReadsBack : ReadsBack onramp_fee_repo
unfolding onramp_fee_repo
onramp_fee_repo-ReadsBack = record {
  reads_back =
      λ id fees v w row f c e. read id fees v w row f e (Option-cases (find_onramp_by_id id v));
}
  where
    read :
        (id : String) (fees : Value) (v w : World) (row : FeeRow)
        → (find_onramp_by_id id v >>= λ r. some (onramp_fee_row r)) ≡ some row
        → update_onramp_fees id fees v ≡ some w
        → (find_onramp_by_id id v ≡ none) ⊎ ((r : OnrampRow) × (find_onramp_by_id id v ≡ some r))
        → (find_onramp_by_id id w >>= λ r. some (onramp_fee_row r))
          ≡ some (record row { fees = fees })
    read id fees v w row f e (inl n) = let broken : none ≡ some row = rw n at f in cc
    read id fees v w row f e (inr (r, found)) =
        let same : onramp_fee_row r ≡ row = eq_of_some (rw found at f) in
        rw (update_onramp_fees-find id fees v w r found e, ← same) refl

-- The fees that the offramp repository saves for a COMPLETED offramp, with the status written once more,
-- are found again, on the same row.
pub offramp_fee_repo-ReadsBack : (now : String) → ReadsBack (offramp_fee_repo now)
unfolding offramp_fee_repo updated_offramp blocks_offramp_transition
offramp_fee_repo-ReadsBack now = record {
  reads_back =
      λ id fees v w row f c e. read id fees v w row f c e (Option-cases (find_offramp_by_id id v));
}
  where
    read :
        (id : String) (fees : Value) (v w : World) (row : FeeRow)
        → (find_offramp_by_id id v >>= λ r. some (offramp_fee_row r)) ≡ some row
        → row.is_completed ≡ true
        → update_offramp_status now automatic id OfframpStatus.completed
            (record no_offramp_patch { fees = some fees })
            v
          ≡ some w
        → (find_offramp_by_id id v ≡ none) ⊎ ((r : OfframpRow) × (find_offramp_by_id id v ≡ some r))
        → (find_offramp_by_id id w >>= λ r. some (offramp_fee_row r))
          ≡ some (record row { fees = fees })
    read id fees v w row f c e (inl n) = let broken : none ≡ some row = rw n at f in cc
    read id fees v w row f c e (inr (r, found)) =
        let same : offramp_fee_row r ≡ row = eq_of_some (rw found at f) in
        let written =
          update_offramp_status-find now id automatic OfframpStatus.completed
            (record no_offramp_patch { fees = some fees }) v w r found e in
        rw (written, c, ← same) refl
