-- ===== src/Payout/Offramp/Again.antt =====
-- Advancing an offramp again after its payout was accepted.
use api_bloxfi.Prelude.{
  String, true, false, refl, sym, ap, ◌∙◌, ◌≡◌, inl, inr, none, some, eq_of_some, eq_of_==,
  Option-cases, Ensures, Ensures-some, otherwise,
}
use mathlib.Core.Path.{subst}
use api_bloxfi.Json.{Value, str, get, record_or_empty}
use api_bloxfi.Table.{find-holds}
use api_bloxfi.Ramp.Status.{OfframpStatus}
use api_bloxfi.Ramp.Store.{
  World, OfframpRow, automatic, find_offramp_by_id, offramp_has_id, update_offramp_status,
}
use api_bloxfi.Ramp.Update.{update_offramp_status-find, update_offramp_status-goes_through}
use api_bloxfi.Payout.Offramp.{
  PayoutDeps, Ready, accepted, accepted_patch, payout_ready, record_payout, try_offramp_payout,
  advance_offramp_if_deposit_ready,
}
use api_bloxfi.Payout.Offramp.Laws.{
  PayoutAllowed, payout_ready-PayoutAllowed, accepted_row, accepted-withdrawal_id,
}

offramp_id_is :
    (id : String) (w : World) (row : OfframpRow) → find_offramp_by_id id w ≡ some row → row.id ≡ id
unfolding find_offramp_by_id
offramp_id_is id w row found = eq_of_== row.id id (find-holds (offramp_has_id id) w.offramps found)

-- The update that goes through, read back.
update-found :
    (now id : String) (wid : String) (sender request response : Value) (row : OfframpRow)
    (w : World)
    → find_offramp_by_id id w ≡ some row
    → find_offramp_by_id id (
        otherwise w (
          update_offramp_status now automatic id OfframpStatus.fiat_pending
            (accepted_patch now wid sender request response row)
            w))
      ≡ some (accepted_row now wid sender request response OfframpStatus.fiat_pending row)
update-found now id wid sender request response row w found =
    let patch = accepted_patch now wid sender request response row in
    elim (Option-cases
      (update_offramp_status now automatic id OfframpStatus.fiat_pending patch w)) [
        | inl n ↦ absurd (
            update_offramp_status-goes_through now id automatic OfframpStatus.fiat_pending patch w
              row found n)
        | inr (v, e) ↦ rw e (
            update_offramp_status-find now id automatic OfframpStatus.fiat_pending patch w v row
              found e)
      ]

update-found_by :
    (now id key : String) (wid : String) (sender request response : Value) (row : OfframpRow)
    (w : World)
    → key ≡ id
    → find_offramp_by_id id w ≡ some row
    → find_offramp_by_id id (
        otherwise w (
          update_offramp_status now automatic key OfframpStatus.fiat_pending
            (accepted_patch now wid sender request response row)
            w))
      ≡ some (accepted_row now wid sender request response OfframpStatus.fiat_pending row)
update-found_by now id key wid sender request response row w same found =
    rw same (update-found now id wid sender request response row w found)

-- What the run stores in which the provider accepts the payout.
accepted-found :
    (now id : String) (deps : PayoutDeps) (row : OfframpRow) (ready : Ready) (wid : String)
    (sender request response : Value) (w : World)
    → find_offramp_by_id id w ≡ some row
    → payout_ready deps row ≡ some ready
    → deps.create_withdrawal ready.body ready.txn_ref ≡ some (accepted wid sender request response)
    → find_offramp_by_id id (advance_offramp_if_deposit_ready now deps id w)
      ≡ some (accepted_row now wid sender request response OfframpStatus.fiat_pending row)
unfolding advance_offramp_if_deposit_ready try_offramp_payout record_payout
accepted-found now id deps row ready wid sender request response w found is_ready answered =
    rw (found, is_ready, answered)
      (update-found_by now id row.id wid sender request response row w
        (offramp_id_is id w row found) found)

no_second :
    (deps : PayoutDeps) (r : OfframpRow) (wid : String)
    → get "fiatWithdrawalId" (record_or_empty r.timeline) ≡ str wid
    → payout_ready deps r ≡ none
no_second deps r wid known = elim (Option-cases (payout_ready deps r)) [
  | inl n ↦ n
  | inr (ready, e) ↦
      let allowed : PayoutAllowed r =
        Ensures-some (subst (Ensures _) e (payout_ready-PayoutAllowed deps r)) in
      let free = allowed.no_withdrawal in let broken : false ≡ true = rw known at free in cc
]

-- When an advance finds the offramp ready and the provider accepts its payout, then in every later state in
-- which the offramp has the timeline that this advance stored, in whatever status and for whatever the
-- provider would answer, the offramp is not ready for a payout again, and advancing it changes nothing.
pub advance_offramp-accepted :
    (now later id : String) (deps deps' : PayoutDeps) (row stored r : OfframpRow) (ready : Ready)
    (wid : String) (sender request response : Value) (w v : World)
    → find_offramp_by_id id w ≡ some row
    → payout_ready deps row ≡ some ready
    → deps.create_withdrawal ready.body ready.txn_ref ≡ some (accepted wid sender request response)
    → find_offramp_by_id id (advance_offramp_if_deposit_ready now deps id w) ≡ some stored
    → find_offramp_by_id id v ≡ some r
    → r.timeline ≡ stored.timeline
    → (payout_ready deps' r ≡ none) × (advance_offramp_if_deposit_ready later deps' id v ≡ v)
unfolding advance_offramp_if_deposit_ready try_offramp_payout
advance_offramp-accepted now later id deps deps' row stored r ready wid sender request response w v
      found is_ready answered kept there same =
    let run =
      accepted-found now id deps row ready wid sender request response w found is_ready answered in
    let written = eq_of_some (sym kept ∙ run) in
    let known : get "fiatWithdrawalId" (record_or_empty r.timeline) ≡ str wid =
      ap (λ t. get "fiatWithdrawalId" (record_or_empty t))
        (same ∙ ap (λ (x : OfframpRow). x.timeline) written)
      ∙ accepted-withdrawal_id now wid sender request response OfframpStatus.fiat_pending row in
    let none_ready = no_second deps' r wid known in (none_ready, rw (there, none_ready) refl)
