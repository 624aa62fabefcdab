-- ===== src/Fee/Stable.antt =====
-- core/offramps/stablecoinFee.ts: USDT and USDC at the fixed rate of 1.02 USDT for 1 USDC. An amount is
-- in units of 10⁻⁸; a conversion is cut there.
use api_bloxfi.Prelude.{ℕ, ◌*◌, ◌/◌, String, Option, none, some, if◌then◌else◌, ◌==◌}
use api_bloxfi.Text.{trim, to_upper}

pub data StableFeeAsset : Type 0 where
  usdt usdc : StableFeeAsset

abbrev pub asset_text : StableFeeAsset → String
asset_text usdt = "USDT"
asset_text usdc = "USDC"

unfoldable pub parse_stable_fee_asset : String → Option StableFeeAsset
unfolding trim to_upper
parse_stable_fee_asset raw =
    let v = to_upper (trim raw) in
    if v == "USDT" then some usdt else if v == "USDC" then some usdc else none

unfoldable pub convert_usdt_usdc : ℕ → StableFeeAsset → StableFeeAsset → ℕ
convert_usdt_usdc amount usdt usdt = amount
convert_usdt_usdc amount usdc usdc = amount
convert_usdt_usdc amount usdt usdc = amount * 100 / 102
convert_usdt_usdc amount usdc usdt = amount * 102 / 100
