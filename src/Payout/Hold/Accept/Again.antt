-- ===== src/Payout/Hold/Accept/Again.antt =====
-- The same decision sent to the provider again, after a double click or a lost answer.
use api_bloxfi.Prelude.{
  String, true, ◌≡◌, refl, sym, ap, ◌∙◌, some, List, Verdict, pass, refuse, eq_of_some, eq_of_pass,
}
use Prim.Native.String.{◌++◌ as cat}
use api_bloxfi.Text.{trim, is_set}
use api_bloxfi.Ramp.Store.{World, OfframpRow, find_offramp_by_id}
use api_bloxfi.Offramp.FiatRetry.{offramp_fiat_withdrawal_id}
use api_bloxfi.Payout.Hold.{AppError, Failure, held_withdrawal_id_for}
use api_bloxfi.Payout.Hold.Accept.{
  AcceptParams, AcceptRequest, replay, AcceptedRate, AdminAction, check_caps, accept_request,
  answered_rate, accept_held_payout_rate,
}
use api_bloxfi.Payout.Hold.Accept.Laws.{
  Request, CapsChecked, AcceptedFor, Answered, accept_held_payout_rate-Answered,
}

check_caps-passes :
    (expected new : String) → CapsChecked expected new → check_caps expected new ≡ pass tt
unfolding check_caps
check_caps-passes expected new c =
    rw (c.expected_format, c.new_format, c.positive, c.not_lower) refl

-- The provider is asked, for a stored offramp with a withdrawal and limits in order.
asked :
    (request : Request) (params : AcceptParams) (w : World) (actions : List AdminAction)
    (row : OfframpRow) (id : String)
    → find_offramp_by_id params.offramp_id w ≡ some row
    → offramp_fiat_withdrawal_id row.timeline row.provider_refs ≡ id
    → is_set id ≡ true
    → CapsChecked (trim params.expected_cap) (trim params.new_cap)
    → accept_held_payout_rate request params w actions
      ≡ answered_rate params row id (request (accept_request params id)) actions
unfolding accept_held_payout_rate held_withdrawal_id_for
asked request params w actions row id found same set caps =
    rw (check_caps-passes _ _ caps, found, same, set) refl

accepted_pass :
    {request : Request} {params : AcceptParams} {w : World} {actions trail : List AdminAction}
    {rate : AcceptedRate} {v : Verdict AppError AcceptedRate}
    → Answered request params w actions v trail
    → v ≡ pass rate
    → AcceptedFor request params w actions rate trail
accepted_pass {v = refuse e} a h = cc
accepted_pass {v = pass r} a h = rw (sym (eq_of_pass h)) a

replays :
    (params : AcceptParams) (row : OfframpRow) (id : String) (v : Verdict Failure AcceptedRate)
    (again : AcceptedRate) (actions : List AdminAction)
    → v ≡ pass again
    → again.outcome ≡ replay
    → answered_rate params row id v actions ≡ (pass again, actions)
replays params row id v again actions e o = rw (e, o) refl

-- The key of a decision about a withdrawal, with both limits as the provider gets them.
abbrev pub decision_key : String → AcceptParams → String
decision_key id params =
    cat "accept-rate:"
      (cat id (cat ":" (cat (trim params.expected_cap) (cat ":" (trim params.new_cap)))))

-- A provider that has accepted a limit, and answers every later request as a replay whose idempotency key
-- is `accept-rate:` with the withdrawal and both limits, answers the same decision of an operator as a
-- replay, and the audit trail gets no second action.
pub accept_held_payout_rate-again :
    (request later : Request) (params : AcceptParams) (w : World) (actions : List AdminAction)
    (row : OfframpRow) (rate again : AcceptedRate)
    → find_offramp_by_id params.offramp_id w ≡ some row
    → (accept_held_payout_rate request params w actions).0 ≡ pass rate
    → again.outcome ≡ replay
    → ((q : AcceptRequest)
        → q.idempotency_key
          ≡ decision_key (offramp_fiat_withdrawal_id row.timeline row.provider_refs) params
        → later q ≡ pass again)
    → accept_held_payout_rate later params w (accept_held_payout_rate request params w actions).1
      ≡ (pass again, (accept_held_payout_rate request params w actions).1)
accept_held_payout_rate-again request later params w actions row rate again found passed replayed
      keyed =
    let id = offramp_fiat_withdrawal_id row.timeline row.provider_refs in
    let first = accepted_pass (accept_held_payout_rate-Answered request params w actions) passed in
    let same : first.row ≡ row = eq_of_some (sym first.found ∙ found) in
    let set : is_set id ≡ true =
      ap (λ (r : OfframpRow). is_set (offramp_fiat_withdrawal_id r.timeline r.provider_refs))
        (sym same)
      ∙ first.paying in
    asked later params w _ row id found refl set first.caps
    ∙ replays params row id _ again _ (keyed (accept_request params id) refl) replayed
