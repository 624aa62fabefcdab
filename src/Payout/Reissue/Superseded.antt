-- ===== src/Payout/Reissue/Superseded.antt =====
-- Events of the provider about a withdrawal that a reissue replaced.
use api_bloxfi.Prelude.{String, false, ◌≡◌, refl, Bool-cases, inl, inr, none, some, ◌==◌}
use api_bloxfi.Text.{trim}
use api_bloxfi.Json.{Value, Fields, str, get, spread, text_at}
use api_bloxfi.Json.Laws.{get-put}
use api_bloxfi.Ramp.Status.{OfframpStatus}
use api_bloxfi.Ramp.Guard.{blocks_offramp_transition}
use api_bloxfi.Ramp.Store.{World, OfframpRow, updated_offramp, find_offramp_by_txn_ref}
use api_bloxfi.Webhook.Repos.{
  WebhookRepos, get_palremit_orchestrator, expected_fiat_withdrawal_id, id_agrees,
}
use api_bloxfi.Webhook.Withdrawal.{Stage, complete_fiat_offramp_from_withdrawal}
use api_bloxfi.Webhook.WithdrawalEvents.{fail_offramp}
use api_bloxfi.Payout.Reissue.{reissue_patch, orch_from}
use api_bloxfi.Payout.Reissue.Laws.{reissued_row}

new_id :
    (now wid id : String) (sender : Value) (row : OfframpRow)
    → get "palremitWithdrawalId" (orch_from (reissued_row now wid id sender row)) ≡ str id
unfolding updated_offramp reissue_patch blocks_offramp_transition get_palremit_orchestrator spread
new_id now wid id sender row = simp (get-put)

expected_is :
    (now wid id : String) (sender : Value) (row : OfframpRow)
    → (trim id == "") ≡ false
    → expected_fiat_withdrawal_id (reissued_row now wid id sender row) ≡ trim id
unfolding expected_fiat_withdrawal_id
expected_is now wid id sender row h = rw (new_id now wid id sender row, h) refl

status_is :
    (now wid id : String) (sender : Value) (row : OfframpRow)
    → (reissued_row now wid id sender row).status ≡ OfframpStatus.fiat_pending
unfolding updated_offramp blocks_offramp_transition
status_is now wid id sender row = refl

not_agreed :
    (a b : String)
    → (a == "") ≡ false
    → (b == "") ≡ false
    → (a == b) ≡ false
    → id_agrees a b ≡ false
not_agreed a b h k n = rw (h, k) n

not_agreed_row :
    (now wid id : String) (sender : Value) (row : OfframpRow) (b : String)
    → (trim id == "") ≡ false
    → (b == "") ≡ false
    → (trim id == b) ≡ false
    → id_agrees (expected_fiat_withdrawal_id (reissued_row now wid id sender row)) b ≡ false
not_agreed_row now wid id sender row b h k n =
    rw (expected_is now wid id sender row h) (not_agreed (trim id) b h k n)

-- After a reissue, a late event of the provider about the replaced withdrawal, or any other than the new
-- one, neither completes the offramp nor fails it, if it names its withdrawal and the new id is not blank.
pub superseded_events :
    (now wid id : String) (sender : Value) (row : OfframpRow) (repos : WebhookRepos)
    (d withdrawal : Fields) (client_ref event mode reason : String) (stage : Stage) (w : World)
    → find_offramp_by_txn_ref client_ref w ≡ some (reissued_row now wid id sender row)
    → (trim id == "") ≡ false
    → (text_at "id" withdrawal == "") ≡ false
    → (trim id == text_at "id" withdrawal) ≡ false
    → (complete_fiat_offramp_from_withdrawal repos client_ref withdrawal d event stage w ≡ none)
      × (fail_offramp repos d withdrawal client_ref mode reason w ≡ none)
unfolding complete_fiat_offramp_from_withdrawal fail_offramp
superseded_events now wid id sender row repos d withdrawal client_ref event mode reason stage w
      found h k n =
    let other = not_agreed_row now wid id sender row (text_at "id" withdrawal) h k n in
    let status = status_is now wid id sender row in
    (
      rw (found, other) refl,
      elim (Bool-cases (mode == "FIAT_WITHDRAWAL")) [
        | inl t ↦ rw (t, found, other, status) refl
        | inr f ↦ rw f refl
      ],
    )
