-- ===== src/Examples/Holds.antt =====
-- Runs about payouts that the provider holds.
use api_bloxfi.Prelude.{true, ◌≡◌, refl, none, [], ◌∷◌, Verdict, pass}
use api_bloxfi.Text.{trim}
use api_bloxfi.Numeric.{parse_number}
use api_bloxfi.Json.{str, obj, object, get}
use api_bloxfi.Table.{find}
use api_bloxfi.Ramp.Status.{OfframpStatus}
use api_bloxfi.Ramp.Store.{World, OfframpRow, find_offramp_by_id}
use api_bloxfi.Offramp.FiatRetry.{offramp_fiat_withdrawal_id}
use api_bloxfi.Payout.Hold.{Failure, held_withdrawal_id_for}
use api_bloxfi.Payout.Hold.Accept.{
  AcceptParams, AcceptRequest, released, replay, AcceptedRate, check_caps, is_cap, cap_digits,
  cap_fraction, digits_to_end, accept_request, accept_held_payout_rate,
}
use api_bloxfi.Payout.Hold.Accept.Laws.{Answered, accept_held_payout_rate-Answered}
use api_bloxfi.Payout.Hold.Accept.Key.{accept_request-same_limits}
use api_bloxfi.Payout.Hold.Accept.Again.{accept_held_payout_rate-again}
use api_bloxfi.Examples.{with_status, world_of}

abbrev held_payout : OfframpRow
held_payout = record (with_status OfframpStatus.fiat_pending) {
  timeline = obj (object (("fiatWithdrawalId", str "wd1") ∷ []));
}

abbrev held_world : World
held_world = world_of (held_payout ∷ [])

abbrev params : AcceptParams
params = record {
  offramp_id = "o1";
  expected_cap = " 100.5 ";
  new_cap = "101";
  actor = none;
  note = none;
}

-- The same limits, without the blanks.
abbrev params_again : AcceptParams
params_again = record params { expected_cap = "100.5" }

abbrev rate : AcceptedRate
rate = record {
  outcome = released;
  source_amount_cap = "101";
  previous_source_amount_cap = "100.5";
}

abbrev again : AcceptedRate
again = record rate { outcome = replay }

abbrev releases : AcceptRequest → Verdict Failure AcceptedRate
releases q = pass rate

abbrev replays : AcceptRequest → Verdict Failure AcceptedRate
replays q = pass again

accepted_once : (accept_held_payout_rate releases params held_world []).0 ≡ pass rate
unfolding accept_held_payout_rate check_caps is_cap cap_digits cap_fraction digits_to_end
    parse_number trim held_withdrawal_id_for find_offramp_by_id find offramp_fiat_withdrawal_id get
accepted_once = refl

accept_held_payout_rate-Answered_example :
    Answered releases params held_world []
      (accept_held_payout_rate releases params held_world []).0
      (accept_held_payout_rate releases params held_world []).1
accept_held_payout_rate-Answered_example =
    accept_held_payout_rate-Answered releases params held_world []

accept_held_payout_rate-again_example :
    accept_held_payout_rate replays params held_world
      (accept_held_payout_rate releases params held_world []).1
    ≡ (pass again, (accept_held_payout_rate releases params held_world []).1)
unfolding find_offramp_by_id find
accept_held_payout_rate-again_example =
    accept_held_payout_rate-again releases replays params held_world [] held_payout rate again refl
      accepted_once refl (λ q same. refl)

first_limit_is_cap : is_cap (trim params.expected_cap) ≡ true
unfolding is_cap cap_digits cap_fraction digits_to_end trim
first_limit_is_cap = refl

same_limit_is_cap : is_cap (trim params_again.expected_cap) ≡ true
unfolding is_cap cap_digits cap_fraction digits_to_end trim
same_limit_is_cap = refl

same_key :
    (accept_request params "wd1").idempotency_key
    ≡ (accept_request params_again "wd1").idempotency_key
unfolding trim
same_key = refl

accept_request-same_limits_example :
    (trim params.expected_cap ≡ trim params_again.expected_cap)
    × (trim params.new_cap ≡ trim params_again.new_cap)
accept_request-same_limits_example =
    accept_request-same_limits "wd1" params params_again first_limit_is_cap same_limit_is_cap
      same_key
