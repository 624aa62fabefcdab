-- ===== src/Fee/Validate.antt =====
-- `validatePlatformFeeSettlement`: the checks before a fee is queued or paid, collected as notes. The
-- networks of a coin come from the provider and are fields of `FeeDeps`. The notes on amounts and
-- networks leave out the values that the source prints in them.
use api_bloxfi.Prelude.{
  ℕ, String, Bool, true, false, not, ◌&&◌, Option, none, some, List, [], ◌∷◌, ◌++◌, if◌then◌else◌,
  ◌==◌, ltb, or_try,
}
use Prim.Native.String.{◌++◌ as cat}
use api_bloxfi.Text.{trim, to_upper, is_set}
use api_bloxfi.Numeric.{parse_number}
use api_bloxfi.Json.{Value, Fields, get, text_of, text_at}
use api_bloxfi.Offramp.DepositAmount.{as_positive}
use api_bloxfi.Fee.Stable.{StableFeeAsset, asset_text, parse_stable_fee_asset, convert_usdt_usdc}
use api_bloxfi.Fee.Record.{platform_fee_of}

pub data RampKind : Type 0 where
  onramp_kind offramp_kind : RampKind

abbrev pub kind_text : RampKind → String
kind_text onramp_kind = "onramp"
kind_text offramp_kind = "offramp"

pub record NetworkOption : Type 0 where
  pub code : String
  pub withdraw_enabled : Option Bool

-- The provider: the networks of an asset, the choice among them by the client's text, and a fee
-- withdrawal by its idempotency key, client reference and body, with the live withdrawal that results.
pub record FeeDeps : Type 0 where
  pub networks_for_coin : String → Option (List NetworkOption)
  pub resolve_network : List NetworkOption → String → Option String
  pub fee_withdrawal : String → String → Fields → Option Fields

pub data Checked {ℓ} (A : Type ℓ) : Type ℓ where
  good : A → Checked A
  bad : String → Checked A

abbrev amount_in : Option ℕ → Option StableFeeAsset → Option StableFeeAsset → Checked ℕ
amount_in none from to = bad "platform fee amount is zero or invalid"
amount_in (some n) none to = bad "platform fee currency must be USDT or USDC"
amount_in (some n) (some from) none = bad "settlement currency must be USDT or USDC"
amount_in (some n) (some from) (some to) = good (convert_usdt_usdc n from to)

unfoldable pub resolve_settlement_amount : String → String → String → Checked ℕ
unfolding convert_usdt_usdc
resolve_settlement_amount amount currency asset =
    amount_in (as_positive (parse_number amount)) (parse_stable_fee_asset currency)
      (parse_stable_fee_asset asset)

abbrev withdraw_off : Option Bool → Bool
withdraw_off none = false
withdraw_off (some enabled) = not enabled

abbrev is_disabled : String → List NetworkOption → Bool
is_disabled code [] = false
is_disabled code (o ∷ r) =
    if o.code == code then withdraw_off o.withdraw_enabled else is_disabled code r

abbrev chosen_network : String → String → List NetworkOption → Option String → Checked String
chosen_network asset raw options none = bad (cat "unsupported network for " asset)
chosen_network asset raw options (some code) =
    if is_disabled code options
    then bad (cat "withdrawals disabled on network " code)
    else good code

abbrev network_among : FeeDeps → String → String → Option (List NetworkOption) → Checked String
network_among deps asset raw none = bad (cat asset " network list unavailable from Palremit")
network_among deps asset raw (some []) = bad (cat asset " network list unavailable from Palremit")
network_among deps asset raw (some (o ∷ r)) =
    chosen_network asset raw (o ∷ r) (deps.resolve_network (o ∷ r) raw)

unfoldable pub resolve_withdraw_network_for_asset : FeeDeps → String → String → Checked String
resolve_withdraw_network_for_asset deps asset raw =
    network_among deps asset raw (deps.networks_for_coin asset)

pub record Validation : Type 0 where
  pub notes : List String
  pub txn_ref : String
  pub wallet : String
  pub settlement_asset : String
  pub settlement_amount : ℕ
  pub resolved_network : Option String

abbrev note_if : Bool → String → List String
note_if true s = s ∷ []
note_if false s = []

abbrev is_stable : String → Bool
is_stable s = elim (parse_stable_fee_asset s) [ some a ↦ true | none ↦ false ]

abbrev asset_name : Option StableFeeAsset → String
asset_name none = ""
asset_name (some a) = asset_text a

-- The notes of the checks that need no amount and no network.
unfoldable pub shape_notes :
    RampKind → String → String → String → String → String → String → List String
shape_notes kind txn_ref wallet currency settlement asset network =
    note_if (not (is_set txn_ref)) (cat "missing " (cat (kind_text kind) " txnRef"))
    ++ (note_if (not (is_set wallet)) "missing platformFee.walletAddress"
        ++ (note_if (is_set settlement && not (is_stable settlement))
              (cat "settlement currency must be USDT or USDC (got " (cat (to_upper settlement) ")"))
            ++ (note_if (is_set currency && not (is_stable currency)) (
                  cat "platform fee currency must be USDT or USDC (got "
                    (cat (to_upper currency) ")"))
                ++ (note_if (not (is_set asset)) "settlement currency must be USDT or USDC"
                    ++ note_if (not (is_set network))
                        "missing platformFee.network for settlement"))))

-- 0.000001
abbrev min_settlement_amount : ℕ
min_settlement_amount = 100

abbrev fallback_network :
    FeeDeps → String → String → String → String → Validation → String → Checked String → Validation
fallback_network deps amount currency fee_asset network v error (bad e) = record v {
  notes = error ∷ [];
}
fallback_network deps amount currency fee_asset network v error (good code) =
    elim (resolve_settlement_amount amount currency fee_asset) [
      | bad e ↦ record v {
        notes = e ∷ [];
        settlement_asset = fee_asset;
        resolved_network = some code;
      }
      | good n ↦ record v {
        settlement_asset = fee_asset;
        settlement_amount = n;
        resolved_network = some code;
      }
    ]

-- The network of the settlement asset, or that of the fee's own asset if they differ.
abbrev with_network : FeeDeps → String → String → String → Validation → Checked String → Validation
with_network deps amount currency network v (good code) = record v { resolved_network = some code }
with_network deps amount currency network v (bad error) =
    let fee_asset = asset_name (parse_stable_fee_asset currency) in
    let can_fall_back = is_set fee_asset && not (fee_asset == v.settlement_asset) in
    if can_fall_back
    then fallback_network deps amount currency fee_asset network v error
        (resolve_withdraw_network_for_asset deps fee_asset network)
    else record v { notes = error ∷ [] }

abbrev with_amount : FeeDeps → String → String → String → Validation → Checked ℕ → Validation
with_amount deps amount currency network v (bad e) = record v { notes = e ∷ [] }
with_amount deps amount currency network v (good n) =
    let v' = record v { settlement_amount = n } in
    if ltb n min_settlement_amount
    then record v' { notes = "settlement amount below minimum" ∷ [] }
    else with_network deps amount currency network v'
        (resolve_withdraw_network_for_asset deps v.settlement_asset network)

abbrev with_shape : FeeDeps → String → String → String → Validation → List String → Validation
with_shape deps amount currency network v (n ∷ notes) = record v { notes = n ∷ notes }
with_shape deps amount currency network v [] =
    with_amount deps amount currency network v
      (resolve_settlement_amount amount currency v.settlement_asset)

abbrev or_missing : Option String → String
or_missing none = ""
or_missing (some s) = s

unfoldable pub validate_platform_fee_settlement :
    RampKind → FeeDeps → Option String → Value → Validation
unfolding shape_notes resolve_settlement_amount resolve_withdraw_network_for_asset
validate_platform_fee_settlement kind deps txn_ref fees =
    let pf = platform_fee_of fees in
    let ref = trim (or_missing txn_ref) in
    let wallet = text_at "walletAddress" pf in
    let currency = text_at "currency" pf in
    let settlement = text_at "settlementCurrency" pf in
    let asset =
      asset_name (or_try (parse_stable_fee_asset settlement) (parse_stable_fee_asset currency)) in
    let network = text_at "settlementNetwork" pf in
    let v : Validation = record {
      notes = [];
      txn_ref = ref;
      wallet = wallet;
      settlement_asset = asset;
      settlement_amount = 0;
      resolved_network = none;
    } in
    with_shape deps (text_of (get "amount" pf)) currency network v
      (shape_notes kind ref wallet currency settlement asset network)
