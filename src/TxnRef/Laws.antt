-- ===== src/TxnRef/Laws.antt =====
-- How references of the different kinds are told apart.
use Prim.Native.String.{[], ◌∷◌}
use api_bloxfi.Prelude.{true, false, none, ◌≡◌, refl, arith, String as Str, Bool}
use api_bloxfi.Text.{trim}
use api_bloxfi.TxnRef.{
  is_onramp_txn_ref, is_offramp_txn_ref, parse_offramp_fee_client_reference, after_prefix, hex_run,
}

off_runs : is_offramp_txn_ref " OFF-c4a18b6e3a71f02d4e5b9c08" ≡ true
unfolding is_offramp_txn_ref
off_runs = refl

fee_runs : parse_offramp_fee_client_reference "OFF-c4a18b6e3a71f02d4e5b9c08" ≡ none
unfolding parse_offramp_fee_client_reference
fee_runs = refl

second_letter :
    (p q : Str → Bool) (s : Str) → after_prefix "ON-" p s ≡ true → after_prefix "OFF-" q s ≡ false
unfolding after_prefix
second_letter p q [] h = cc
second_letter p q (a ∷ []) h = ground arith
second_letter p q (a ∷ b ∷ s) h = ground arith

-- No reference is taken for an onramp's and for an offramp's, so a deposit is credited to one kind of
-- ramp only.
pub is_onramp-is_offramp : (s : Str) → is_onramp_txn_ref s ≡ true → is_offramp_txn_ref s ≡ false
unfolding is_onramp_txn_ref is_offramp_txn_ref
is_onramp-is_offramp s h = second_letter (hex_run 24) (hex_run 24) (trim s) h
