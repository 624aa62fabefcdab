-- ===== src/Offramp/DepositAmount/Laws.antt =====
-- When a crypto deposit counts as complete, against the amounts themselves.
use api_bloxfi.Prelude.{ℕ, ◌+◌, ◌<◌, ◌≤◌, ◌⊎◌, ◌↔◌, ◌≡◌, String, true, arith}
use api_bloxfi.Offramp.DepositAmount.{
  round_offramp_crypto_amount, underpayment_tolerance_for_asset, is_below_tolerance,
  is_offramp_crypto_deposit_complete,
}

-- A deposit is complete exactly when something was expected and the received amount, rounded to
-- cents, reaches the expected one or misses it by less than the tolerance of the asset, where it has one.
pub deposit_complete_iff :
    (received expected : ℕ) (asset : String)
    → (is_offramp_crypto_deposit_complete received expected asset ≡ true) ↔ (
        (0 < expected)
        × ((round_offramp_crypto_amount expected ≤ round_offramp_crypto_amount received)
            ⊎ ((0 < underpayment_tolerance_for_asset asset)
                × (is_below_tolerance
                      (round_offramp_crypto_amount expected)
                      (round_offramp_crypto_amount received)
                      (underpayment_tolerance_for_asset asset)
                    ≡ true))))
unfolding is_offramp_crypto_deposit_complete
deposit_complete_iff received expected asset = ground arith

tolerance_bound : (asset : String) → underpayment_tolerance_for_asset asset ≤ 100
unfolding underpayment_tolerance_for_asset
tolerance_bound asset = ground arith

pub below_tolerance_of :
    (expected received tolerance : ℕ)
    → expected < received + tolerance
    → 0 < tolerance
    → is_below_tolerance expected received tolerance ≡ true
unfolding is_below_tolerance
below_tolerance_of expected received tolerance less some_tolerance = ground arith

shortfall_in_cents :
    (received expected : ℕ) (asset : String)
    → is_offramp_crypto_deposit_complete received expected asset ≡ true
    → round_offramp_crypto_amount expected ≤ round_offramp_crypto_amount received + 100
unfolding round_offramp_crypto_amount is_offramp_crypto_deposit_complete is_below_tolerance
shortfall_in_cents received expected asset h = let bound = tolerance_bound asset in ground arith

cents_to_units :
    (received expected : ℕ)
    → round_offramp_crypto_amount expected ≤ round_offramp_crypto_amount received + 100
    → expected < received + 101000000
unfolding round_offramp_crypto_amount
cents_to_units received expected h = omega arith

-- A complete deposit misses at most 1.01 of the expected amount, whatever the asset: the tolerance of one
-- unit, and one cent that the rounding of both amounts can hide.
pub deposit_complete-shortfall :
    (received expected : ℕ) (asset : String)
    → is_offramp_crypto_deposit_complete received expected asset ≡ true
    → expected ≤ received + 101000000
deposit_complete-shortfall received expected asset h =
    let less = cents_to_units received expected (shortfall_in_cents received expected asset h) in
    omega arith

-- More crypto never makes a complete deposit incomplete.
pub deposit_complete-monotone :
    (received more expected : ℕ) (asset : String)
    → received ≤ more
    → is_offramp_crypto_deposit_complete received expected asset ≡ true
    → is_offramp_crypto_deposit_complete more expected asset ≡ true
unfolding is_offramp_crypto_deposit_complete is_below_tolerance round_offramp_crypto_amount
deposit_complete-monotone received more expected asset le h = ground arith
