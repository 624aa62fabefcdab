-- ===== src/Ramp/Expiry/Sweep.antt =====
-- `expireStaleOnramps` and `expireStaleOfframps`: the sweeps over the ramps that wait for a deposit. An
-- update that throws ends a sweep and rejects its promise; the rows written so far stay written.
use api_bloxfi.Prelude.{
  ℕ, ◌+◌, Bool, true, false, ◌&&◌, Option, some, List, [], ◌∷◌, if◌then◌else◌, ◌>>=◌,
}
use api_bloxfi.Ramp.Store.{World, OnrampRow, OfframpRow}
use api_bloxfi.Ramp.Expiry.{
  Clock, should_expire_onramp_status, should_expire_offramp_status,
  expire_onramp_if_deposit_past_due, expire_offramp_if_deposit_past_due,
}

-- `listOnrampsAwaitingDeposit`
unfoldable pub list_onramps_awaiting_deposit : List OnrampRow → List OnrampRow
list_onramps_awaiting_deposit [] = []
list_onramps_awaiting_deposit (r ∷ rows) =
    let rest = list_onramps_awaiting_deposit rows in
    if should_expire_onramp_status r.status then r ∷ rest else rest

unfoldable pub list_offramps_awaiting_deposit : List OfframpRow → List OfframpRow
list_offramps_awaiting_deposit [] = []
list_offramps_awaiting_deposit (r ∷ rows) =
    let rest = list_offramps_awaiting_deposit rows in
    if should_expire_offramp_status r.status then r ∷ rest else rest

abbrev tally : Bool → ℕ → ℕ
tally true n = n + 1
tally false n = n

unfoldable pub expire_onramp_rows : Clock → List OnrampRow → ℕ → World → Option (ℕ × World)
expire_onramp_rows c [] count w = some (count, w)
expire_onramp_rows c (r ∷ rows) count w =
    expire_onramp_if_deposit_past_due c r w >>= λ (expired, w').
    expire_onramp_rows c rows (tally (should_expire_onramp_status r.status && expired) count) w'

unfoldable pub expire_stale_onramps : Clock → World → Option (ℕ × World)
unfolding expire_onramp_rows list_onramps_awaiting_deposit
expire_stale_onramps c w = expire_onramp_rows c (list_onramps_awaiting_deposit w.onramps) 0 w

unfoldable pub expire_offramp_rows : Clock → List OfframpRow → ℕ → World → Option (ℕ × World)
expire_offramp_rows c [] count w = some (count, w)
expire_offramp_rows c (r ∷ rows) count w =
    expire_offramp_if_deposit_past_due c r w >>= λ (expired, w').
    expire_offramp_rows c rows (tally (should_expire_offramp_status r.status && expired) count) w'

unfoldable pub expire_stale_offramps : Clock → World → Option (ℕ × World)
unfolding expire_offramp_rows list_offramps_awaiting_deposit
expire_stale_offramps c w = expire_offramp_rows c (list_offramps_awaiting_deposit w.offramps) 0 w
