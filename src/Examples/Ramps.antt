-- ===== src/Examples/Ramps.antt =====
-- Runs about the rows of ramps: updates, expiry, cancellation and amounts.
use api_bloxfi.Prelude.{◌+◌, ◌≤◌, ne_of_==, ◌⊎◌, true, false, refl, ◌≡◌, some, [], ◌∷◌}
use api_bloxfi.Text.{trim}
use api_bloxfi.Numeric.Doubles.{minus_doubles, nearest_double}
use api_bloxfi.Json.{str, get}
use api_bloxfi.Table.{Each, find, modify}
use api_bloxfi.Offramp.DepositAmount.{
  is_below_tolerance, is_offramp_crypto_deposit_complete, underpayment_tolerance_for_asset,
}
use api_bloxfi.Offramp.DepositAmount.Laws.{deposit_complete-shortfall}
use api_bloxfi.Ramp.Status.{
  OfframpStatus, crypto_confirmed, failed, PartnerEvent, should_emit_ramp_event,
}
use api_bloxfi.Ramp.Guard.{blocks_offramp_transition, offramp_funds_received}
use api_bloxfi.Ramp.Store.{
  World, OfframpRow, automatic, no_offramp_patch, updated_offramp, update_offramp_status,
  find_offramp_by_id, schedule,
}
use api_bloxfi.Ramp.Update.{HeldFailure, updated_offramp-HeldFailure, update_offramp_status-other}
use api_bloxfi.Ramp.Expiry.{deposit_expired_reason, expire_offramp_if_deposit_past_due}
use api_bloxfi.Ramp.Expiry.Sweep.{
  expire_stale_offramps, expire_offramp_rows, list_offramps_awaiting_deposit,
}
use api_bloxfi.Ramp.Expiry.Laws.{
  OfframpSwept, IsDue, expire_stale_offramps-Swept, expire_offramp-IsDue,
}
use api_bloxfi.Examples.{waiting, with_status, world_of, clock}

tolerated : is_offramp_crypto_deposit_complete 9950000000 10000000000 "usdc" ≡ true
unfolding is_offramp_crypto_deposit_complete is_below_tolerance underpayment_tolerance_for_asset
tolerated = refl

-- Of 4.35 and 3.35 the doubles differ by less than 1, so a deposit is complete with a whole unit missing.
whole_unit_missing : is_offramp_crypto_deposit_complete 335000000 435000000 "usdt" ≡ true
unfolding is_offramp_crypto_deposit_complete is_below_tolerance underpayment_tolerance_for_asset
    minus_doubles nearest_double
whole_unit_missing = refl

whole_unit_refused : is_offramp_crypto_deposit_complete 900000000 1000000000 "usdt" ≡ false
unfolding is_offramp_crypto_deposit_complete is_below_tolerance underpayment_tolerance_for_asset
    minus_doubles nearest_double
whole_unit_refused = refl

deposit_complete-shortfall_example : 10000000000 ≤ 9950000000 + 101000000
deposit_complete-shortfall_example =
    deposit_complete-shortfall 9950000000 10000000000 "usdc" tolerated

confirmed_is_funded :
    offramp_funds_received
      (with_status crypto_confirmed).status
      (with_status crypto_confirmed).timeline
    ≡ true
unfolding offramp_funds_received
confirmed_is_funded = refl

updated_offramp-HeldFailure_example :
    ((updated_offramp "2025-01-02" automatic failed
        (record no_offramp_patch { failed_reason = some (some "bank") })
        (with_status crypto_confirmed)).status
      ≡ crypto_confirmed)
    × HeldFailure "FAILED"
        (str "bank")
        "2025-01-02"
        (updated_offramp "2025-01-02" automatic failed
          (record no_offramp_patch { failed_reason = some (some "bank") })
          (with_status crypto_confirmed)).provider_refs
updated_offramp-HeldFailure_example =
    updated_offramp-HeldFailure "2025-01-02" failed
      (record no_offramp_patch { failed_reason = some (some "bank") })
      (with_status crypto_confirmed) tt refl confirmed_is_funded

abbrev confirmed_world : World
confirmed_world = world_of (with_status crypto_confirmed ∷ [])

abbrev after_update : World
after_update = record confirmed_world {
  offramps =
      updated_offramp "2025-01-02" automatic OfframpStatus.expired no_offramp_patch
        (with_status crypto_confirmed)
      ∷ [];
}

update_goes_through :
    update_offramp_status "2025-01-02" automatic "o1" OfframpStatus.expired no_offramp_patch
      confirmed_world
    ≡ some after_update
unfolding update_offramp_status find modify updated_offramp schedule should_emit_ramp_event
    blocks_offramp_transition offramp_funds_received
update_goes_through = refl

update_offramp_status-other_example :
    (find_offramp_by_id "o2" after_update ≡ find_offramp_by_id "o2" confirmed_world)
    × (after_update.onramps ≡ confirmed_world.onramps)
update_offramp_status-other_example =
    update_offramp_status-other "2025-01-02" "o1" "o2" automatic OfframpStatus.expired
      no_offramp_patch confirmed_world after_update (ne_of_== "o1" "o2" refl) update_goes_through

abbrev waiting_world : World
waiting_world = world_of (waiting ∷ with_status crypto_confirmed ∷ [])

abbrev expired_world : World
expired_world = record waiting_world {
  offramps = expired_row waiting ∷ expired_row (with_status crypto_confirmed) ∷ [];
  sent = record { event = PartnerEvent.offramp_expired; subject = "o1" } ∷ [];
}
  where
    expired_row : OfframpRow → OfframpRow
    expired_row =
        updated_offramp "2025-01-02" automatic OfframpStatus.expired
          (record no_offramp_patch { failed_reason = some (some deposit_expired_reason) })

sweep_runs : expire_stale_offramps clock waiting_world ≡ some (1, expired_world)
unfolding expire_stale_offramps expire_offramp_rows list_offramps_awaiting_deposit
    expire_offramp_if_deposit_past_due get trim update_offramp_status find modify updated_offramp
    schedule should_emit_ramp_event blocks_offramp_transition offramp_funds_received
sweep_runs = refl

expire_stale_offramps-Swept_example :
    Each OfframpSwept waiting_world.offramps expired_world.offramps
expire_stale_offramps-Swept_example =
    expire_stale_offramps-Swept clock waiting_world expired_world 1 sweep_runs

expiry_runs :
    expire_offramp_if_deposit_past_due clock waiting waiting_world ≡ some (true, expired_world)
unfolding expire_offramp_if_deposit_past_due get trim update_offramp_status find modify
    updated_offramp schedule should_emit_ramp_event blocks_offramp_transition offramp_funds_received
expiry_runs = refl

expire_offramp-IsDue_example : (expired_world ≡ waiting_world) ⊎ IsDue clock waiting
expire_offramp-IsDue_example =
    expire_offramp-IsDue clock waiting waiting_world expired_world true expiry_runs
