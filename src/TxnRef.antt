-- ===== src/TxnRef.antt =====
-- utils/txnRef.ts: the references of onramps (ON-…) and offramps (OFF-…), and those of their fee
-- withdrawals, which end in -FEE. The random part of a new reference comes from the crypto library
-- and is an argument.
pub mod Laws
use Prim.Native.Nat.{ℕ, zero, suc}
use Prim.Native.Char.{code}
use Prim.Native.String.{String, [], ◌∷◌, ◌++◌}
use mathlib.Core.Bool.{Bool, true, false, ◌&&◌, ◌||◌}
use mathlib.Core.Option.{Option, none, some}
use api_bloxfi.Prelude.{if◌then◌else◌, leb, nat_eq}
use api_bloxfi.Text.{trim, ends_with, without_suffix}

unfoldable pub generate_onramp_txn_ref : String → String
generate_onramp_txn_ref hex = "ON-" ++ hex

unfoldable pub generate_offramp_txn_ref : String → String
generate_offramp_txn_ref hex = "OFF-" ++ hex

-- `[a-f0-9]`
unfoldable pub is_hex : ℕ → Bool
is_hex c = (leb b'a' c && leb c b'f') || (leb b'0' c && leb c b'9')

-- `[a-f0-9]{n}$`
unfoldable pub hex_run : ℕ → String → Bool
unfolding is_hex
hex_run zero [] = true
hex_run zero (c ∷ s) = false
hex_run (suc n) [] = false
hex_run (suc n) (c ∷ s) = is_hex (code c) && hex_run n s

-- `^p` and what the rest must match.
unfoldable pub after_prefix : String → (String → Bool) → String → Bool
after_prefix [] test s = test s
after_prefix (c ∷ p) test [] = false
after_prefix (c ∷ p) test (d ∷ s) = nat_eq (code c) (code d) && after_prefix p test s

unfoldable pub is_onramp_txn_ref : String → Bool
unfolding after_prefix hex_run trim
is_onramp_txn_ref s = after_prefix "ON-" (hex_run 24) (trim s)

unfoldable pub is_offramp_txn_ref : String → Bool
unfolding after_prefix hex_run trim
is_offramp_txn_ref s = after_prefix "OFF-" (hex_run 24) (trim s)

unfoldable pub build_ramp_fee_client_reference : String → String
unfolding trim
build_ramp_fee_client_reference txn_ref = trim txn_ref ++ "-FEE"

unfoldable pub parse_fee_parent : String → Option String
unfolding trim ends_with without_suffix
parse_fee_parent client_ref =
    let trimmed = trim client_ref in
    if ends_with trimmed "-FEE" then some (without_suffix trimmed "-FEE") else none

abbrev kept : (String → Bool) → Option String → Option String
kept test none = none
kept test (some parent) = if test parent then some parent else none

unfoldable pub parse_offramp_fee_client_reference : String → Option String
unfolding parse_fee_parent is_offramp_txn_ref
parse_offramp_fee_client_reference client_ref =
    kept is_offramp_txn_ref (parse_fee_parent client_ref)

unfoldable pub parse_onramp_fee_client_reference : String → Option String
unfolding parse_fee_parent is_onramp_txn_ref
parse_onramp_fee_client_reference client_ref = kept is_onramp_txn_ref (parse_fee_parent client_ref)
