-- ===== src/Payout/Hold/Accept.antt =====
-- `acceptHeldPayoutRate` of core/admin/heldPayouts.ts: an operator raises the limit of a held payout. The
-- audit trail is a list of actions; an action that the database refuses is left out.
pub mod Laws
pub mod Again
pub mod Key
use Prim.Native.Nat.{ℕ, zero, suc}
use Prim.Native.Char.{code}
use Prim.Native.String.{String, [], ◌∷◌, ◌++◌ as cat}
use mathlib.Core.List.{List, [], ◌∷◌, ◌++◌}
use mathlib.Core.Option.{Option, none, some}
use mathlib.Core.Bool.{Bool, true, false, not, ◌&&◌, ◌||◌}
use api_bloxfi.Prelude.{if◌then◌else◌, leb, ltb, nat_eq, ◌==◌, Verdict, pass, refuse, refuse_if}
use api_bloxfi.Text.{trim, is_set, or_else}
use api_bloxfi.Numeric.{Number, units, minus, not_finite, parse_number}
use api_bloxfi.Ramp.Status.{OfframpStatus}
use api_bloxfi.Ramp.Store.{World, OfframpRow}
use api_bloxfi.Payout.Hold.{AppError, Failure, orchestrator_error, held_withdrawal_id_for}

-- `\d{0,n}` to the end of the text.
unfoldable pub digits_to_end : ℕ → String → Bool
digits_to_end n [] = true
digits_to_end zero (c ∷ s) = false
digits_to_end (suc n) (c ∷ s) = leb b'0' (code c) && (leb (code c) b'9' && digits_to_end n s)

-- `(?:\.\d{1,6})?$`
unfoldable pub cap_fraction : String → Bool
cap_fraction [] = true
cap_fraction (c ∷ s) = nat_eq (code c) b'.' && (is_set s && digits_to_end 6 s)

-- `\d*` and the fraction.
unfoldable pub cap_digits : String → Bool
cap_digits [] = true
cap_digits (c ∷ s) =
    let rest = cap_digits s in
    if leb b'0' (code c) && leb (code c) b'9' then rest else cap_fraction (c ∷ s)

-- `CAP_RE`
unfoldable pub is_cap : String → Bool
is_cap [] = false
is_cap (c ∷ s) =
    if nat_eq (code c) b'0'
    then cap_fraction s
    else leb b'1' (code c) && (leb (code c) b'9' && cap_digits s)

-- `n > 0`
abbrev pub is_positive : Number → Bool
is_positive (units n) = ltb 0 n
is_positive _ = false

-- `a < b`
abbrev pub is_less : Number → Number → Bool
is_less (units a) (units b) = ltb a b
is_less (minus a) (units b) = true
is_less (minus a) (minus b) = ltb b a
is_less _ _ = false

pub record AcceptParams : Type 0 where
  pub offramp_id : String
  pub expected_cap : String
  pub new_cap : String
  pub actor : Option String
  pub note : Option String

-- The request that raises the limit of a withdrawal.
pub record AcceptRequest : Type 0 where
  pub withdrawal_id : String
  pub idempotency_key : String
  pub expected_source_amount_cap : String
  pub new_source_amount_cap : String
  pub accepted_by : String
  pub note : Option String

pub data AcceptOutcome : Type 0 where
  released replay : AcceptOutcome

pub record AcceptedRate : Type 0 where
  pub outcome : AcceptOutcome
  pub source_amount_cap : String
  pub previous_source_amount_cap : String

pub record AdminAction : Type 0 where
  pub txn_id : String
  pub status : OfframpStatus
  pub note : String
  pub actor : Option String

abbrev trimmed : Option String → String
trimmed none = ""
trimmed (some s) = trim s

abbrev note_of : Option String → Option String
note_of note = if is_set (trimmed note) then some (trimmed note) else none

abbrev invalid : String → AppError
invalid message = record { message = message; code = "INVALID_REQUEST"; status_code = 400 }

unfoldable pub check_caps : String → String → Verdict AppError (Unit {0})
check_caps expected new =
    refuse_if (not (is_cap expected) || (not (is_cap new) || not (is_positive (parse_number new))))
      (invalid "Caps must be positive numbers with at most 6 decimals")
      (refuse_if (is_less (parse_number new) (parse_number expected))
        (invalid "The new limit may not be lower than the current limit") (pass tt))

abbrev pub accept_request : AcceptParams → String → AcceptRequest
accept_request params withdrawal_id =
    let expected = trim params.expected_cap in
    let new = trim params.new_cap in
    record {
      withdrawal_id = withdrawal_id;
      idempotency_key =
          cat "accept-rate:" (cat withdrawal_id (cat ":" (cat expected (cat ":" new))));
      expected_source_amount_cap = expected;
      new_source_amount_cap = new;
      accepted_by = or_else (trimmed params.actor) "bloxfi-admin-dashboard";
      note = note_of params.note;
    }

abbrev pub release_action : AcceptParams → OfframpRow → String → AcceptedRate → AdminAction
release_action params row withdrawal_id rate = record {
  txn_id = row.id;
  status = row.status;
  note = cat "Accepted unfavorable rate: payout cost limit " (
      cat rate.previous_source_amount_cap (
        cat " → " (
          cat rate.source_amount_cap
            (cat " (withdrawal " (cat withdrawal_id "); payout released for re-quote")))));
  actor = some (or_else (trimmed params.actor) "bloxfi-admin-dashboard");
}

abbrev pub logged : AcceptOutcome → AdminAction → List AdminAction → List AdminAction
logged released action actions = actions ++ action ∷ []
logged replay action actions = actions

abbrev pub answered_rate :
    AcceptParams
    → OfframpRow
    → String
    → Verdict Failure AcceptedRate
    → List AdminAction
    → Verdict AppError AcceptedRate × List AdminAction
answered_rate params row id (refuse e) actions =
    (refuse (orchestrator_error e "Palremit did not accept the new limit"), actions)
answered_rate params row id (pass rate) actions =
    (pass rate, logged rate.outcome (release_action params row id rate) actions)

abbrev pub for_payout :
    (AcceptRequest → Verdict Failure AcceptedRate)
    → AcceptParams
    → Verdict AppError (OfframpRow × String)
    → List AdminAction
    → Verdict AppError AcceptedRate × List AdminAction
for_payout request params (refuse e) actions = (refuse e, actions)
for_payout request params (pass (row, id)) actions =
    answered_rate params row id (request (accept_request params id)) actions

abbrev pub after_caps :
    (AcceptRequest → Verdict Failure AcceptedRate)
    → AcceptParams
    → World
    → Verdict AppError (Unit {0})
    → List AdminAction
    → Verdict AppError AcceptedRate × List AdminAction
after_caps request params w (refuse e) actions = (refuse e, actions)
after_caps request params w (pass t) actions =
    for_payout request params (held_withdrawal_id_for params.offramp_id w) actions

unfoldable pub accept_held_payout_rate :
    (AcceptRequest → Verdict Failure AcceptedRate)
    → AcceptParams
    → World
    → List AdminAction
    → Verdict AppError AcceptedRate × List AdminAction
accept_held_payout_rate request params w actions =
    after_caps request params w (check_caps (trim params.expected_cap) (trim params.new_cap))
      actions
