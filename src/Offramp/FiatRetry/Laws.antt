-- ===== src/Offramp/FiatRetry/Laws.antt =====
-- When an operator may pay a failed payout out again.
use api_bloxfi.Prelude.{String, refl, ◌≡◌, ◌≢◌, ◌⊎◌, ◌↔◌, inl, inr, Option, arith, ==_of_ne, eq_iff}
use api_bloxfi.Text.{trim}
use api_bloxfi.Offramp.FiatRetry.{reissue, decide_offramp_fiat_retry, normalize_lp_state}

-- A new payout is decided exactly for a withdrawal that exists and that the provider reports as failed
-- or refunded, so never while the old one is in flight, paid out or unknown.
pub decide_reissue_iff :
    (withdrawal_id : String) (state : Option String)
    → (decide_offramp_fiat_retry withdrawal_id state ≡ reissue (trim withdrawal_id)) ↔ (
        (trim withdrawal_id ≢ "")
        × ((normalize_lp_state state ≡ "failed") ⊎ (normalize_lp_state state ≡ "refunded")))
unfolding decide_offramp_fiat_retry
decide_reissue_iff withdrawal_id state = (
  λ h. ground (
    arith,
    eq_iff (trim withdrawal_id) "",
    eq_iff (normalize_lp_state state) "failed",
    eq_iff (normalize_lp_state state) "refunded",
  ),
  λ (ne, s). elim s [
    | inl f ↦ rw (==_of_ne (trim withdrawal_id) "" ne, f) refl
    | inr r ↦ rw (==_of_ne (trim withdrawal_id) "" ne, r) refl
  ],
)
