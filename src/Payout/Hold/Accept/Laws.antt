-- ===== src/Payout/Hold/Accept/Laws.antt =====
-- When a higher limit of a held payout is accepted, and what the audit trail then says.
use api_bloxfi.Prelude.{
  ◌++◌, ◌∷◌, [], arith, String, Bool, true, false, not, ◌||◌, ◌≡◌, refl, Option, none, some, List,
  Verdict, pass, refuse, refuse_if-pass, Bool-cases, inl, inr,
}
use api_bloxfi.Text.{trim, is_set}
use api_bloxfi.Numeric.{parse_number}
use api_bloxfi.Ramp.Store.{World, OfframpRow, find_offramp_by_id}
use api_bloxfi.Offramp.FiatRetry.{offramp_fiat_withdrawal_id}
use api_bloxfi.Payout.Hold.{AppError, Failure, with_payout, held_withdrawal_id_for}
use api_bloxfi.Payout.Hold.Accept.{
  AcceptOutcome, released, replay, AcceptParams, AcceptRequest, AcceptedRate, AdminAction, is_cap,
  is_positive, is_less, check_caps, accept_request, release_action, logged, answered_rate,
  for_payout, after_caps, accept_held_payout_rate,
}

abbrev pub Request : Type 0
Request = AcceptRequest → Verdict Failure AcceptedRate

-- What holds of the two limits before the provider is asked.
pub record CapsChecked (expected new : String) : Type 0 where
  pub expected_format : is_cap expected ≡ true
  pub new_format : is_cap new ≡ true
  pub positive : is_positive (parse_number new) ≡ true
  pub not_lower : is_less (parse_number new) (parse_number expected) ≡ false

-- The trail after the answer of the provider: one more action, about this offramp, for a release, and none
-- for a replay.
abbrev pub Recorded : OfframpRow → List AdminAction → AcceptOutcome → List AdminAction → Type 0
Recorded row actions released trail =
    (a : AdminAction) × (trail ≡ actions ++ a ∷ []) × (a.txn_id ≡ row.id) × (a.status ≡ row.status)
Recorded row actions replay trail = trail ≡ actions

logged-Recorded :
    (params : AcceptParams) (row : OfframpRow) (id : String) (rate : AcceptedRate)
    (outcome : AcceptOutcome) (actions : List AdminAction)
    → Recorded row actions outcome (logged outcome (release_action params row id rate) actions)
logged-Recorded params row id rate released actions =
    (release_action params row id rate, refl, refl, refl)
logged-Recorded params row id rate replay actions = refl

-- Why a limit was accepted, and the trail that this leaves.
pub record AcceptedFor (request : Request) (params : AcceptParams) (w : World)
    (actions : List AdminAction) (rate : AcceptedRate) (trail : List AdminAction) : Type 0 where
  pub row : OfframpRow
  pub found : find_offramp_by_id params.offramp_id w ≡ some row
  pub paying : is_set (offramp_fiat_withdrawal_id row.timeline row.provider_refs) ≡ true
  pub caps : CapsChecked (trim params.expected_cap) (trim params.new_cap)
  pub asked :
      (q : AcceptRequest) × (request q ≡ pass rate)
      × (q.withdrawal_id ≡ offramp_fiat_withdrawal_id row.timeline row.provider_refs)
      × (q.expected_source_amount_cap ≡ trim params.expected_cap)
      × (q.new_source_amount_cap ≡ trim params.new_cap)
  pub recorded : Recorded row actions rate.outcome trail

abbrev pub Answered :
    Request
    → AcceptParams
    → World
    → List AdminAction
    → Verdict AppError AcceptedRate
    → List AdminAction
    → Type 0
Answered request params w actions (refuse e) trail = trail ≡ actions
Answered request params w actions (pass rate) trail =
    AcceptedFor request params w actions rate trail

none_set :
    (a b c : Bool) → (not a || (not b || not c)) ≡ false → (a ≡ true) × (b ≡ true) × (c ≡ true)
none_set a b c h = ground arith

check_caps-CapsChecked :
    (expected new : String) (u : Unit {0})
    → check_caps expected new ≡ pass u
    → CapsChecked expected new
unfolding check_caps
check_caps-CapsChecked expected new u h =
    let format = refuse_if-pass _ _ _ h in
    let order = refuse_if-pass _ _ _ format.1 in
    let (e, n, p) = none_set _ _ _ format.0 in
    record { expected_format = e; new_format = n; positive = p; not_lower = order.0 }

answered_rate-Answered :
    (request : Request) (params : AcceptParams) (w : World) (actions : List AdminAction)
    (row : OfframpRow) (v : Verdict Failure AcceptedRate)
    → find_offramp_by_id params.offramp_id w ≡ some row
    → is_set (offramp_fiat_withdrawal_id row.timeline row.provider_refs) ≡ true
    → CapsChecked (trim params.expected_cap) (trim params.new_cap)
    → request (accept_request params (offramp_fiat_withdrawal_id row.timeline row.provider_refs))
      ≡ v
    → Answered request params w actions
        (answered_rate params row
          (offramp_fiat_withdrawal_id row.timeline row.provider_refs)
          v
          actions).0
        (answered_rate params row
          (offramp_fiat_withdrawal_id row.timeline row.provider_refs)
          v
          actions).1
answered_rate-Answered request params w actions row (refuse e) f s c a = refl
answered_rate-Answered request params w actions row (pass rate) f s c a = record {
  row = row;
  found = f;
  paying = s;
  caps = c;
  asked = (
    accept_request params (offramp_fiat_withdrawal_id row.timeline row.provider_refs),
    a,
    refl,
    refl,
    refl,
  );
  recorded =
      logged-Recorded params row (offramp_fiat_withdrawal_id row.timeline row.provider_refs) rate
        rate.outcome actions;
}

with_payout-Answered :
    (request : Request) (params : AcceptParams) (w : World) (actions : List AdminAction)
    (m : Option OfframpRow)
    → find_offramp_by_id params.offramp_id w ≡ m
    → CapsChecked (trim params.expected_cap) (trim params.new_cap)
    → Answered request params w actions
        (for_payout request params (with_payout m) actions).0
        (for_payout request params (with_payout m) actions).1
with_payout-Answered request params w actions none f c = refl
with_payout-Answered request params w actions (some row) f c =
    elim (Bool-cases (is_set (offramp_fiat_withdrawal_id row.timeline row.provider_refs))) [
      | inl s ↦ rw s (answered_rate-Answered request params w actions row _ f s c refl)
      | inr u ↦ rw u refl
    ]

after_caps-Answered :
    (request : Request) (params : AcceptParams) (w : World) (actions : List AdminAction)
    (v : Verdict AppError (Unit {0}))
    → check_caps (trim params.expected_cap) (trim params.new_cap) ≡ v
    → Answered request params w actions
        (after_caps request params w v actions).0
        (after_caps request params w v actions).1
unfolding held_withdrawal_id_for
after_caps-Answered request params w actions (refuse e) h = refl
after_caps-Answered request params w actions (pass u) h =
    with_payout-Answered request params w actions _ refl (check_caps-CapsChecked _ _ u h)

-- A refusal leaves the audit trail as it was. A limit is accepted only when both limits are well-formed
-- decimals, the new one is positive and not lower than the current one, the offramp is stored and has a
-- withdrawal, and the provider gave this answer for that withdrawal and these limits; the trail then has
-- one more action, about this offramp, if the provider released the payout, and none if it replayed an
-- earlier decision.
pub accept_held_payout_rate-Answered :
    (request : Request) (params : AcceptParams) (w : World) (actions : List AdminAction)
    → Answered request params w actions
        (accept_held_payout_rate request params w actions).0
        (accept_held_payout_rate request params w actions).1
unfolding accept_held_payout_rate
accept_held_payout_rate-Answered request params w actions =
    after_caps-Answered request params w actions _ refl
