-- ===== src/Webhook/Withdrawal/Laws.antt =====
-- The stages of a fiat payout: what a repeated or late event does.
use api_bloxfi.Prelude.{
  String, true, [], ◌∷◌, refl, ◌≡◌, none, some, Ensures, Ensures-bind, returns,
}
use api_bloxfi.Json.{Fields, get, spread, record_or_empty, bool, str, object}
use api_bloxfi.Json.Laws.{get-put}
use api_bloxfi.Ramp.Status.{OfframpStatus}
use api_bloxfi.Ramp.Store.{
  World, OfframpRow, OfframpPatch, UpdateOptions, automatic, updated_offramp, update_offramp_status,
  find_offramp_by_id, find_offramp_by_txn_ref,
}
use api_bloxfi.Webhook.Repos.{WebhookRepos}
use api_bloxfi.Webhook.Withdrawal.{
  Stage, funded, paid, paid_patch, record_paid, complete_fiat_offramp_from_withdrawal, is_completed,
}

-- No fee settlement starts.
abbrev StartsNone : World → World → Type 0
StartsNone v w = w.fee_jobs ≡ v.fee_jobs

update-StartsNone :
    (now id : String) (o : UpdateOptions) (s : OfframpStatus) (u : OfframpPatch) (w : World)
    → Ensures (StartsNone w) (update_offramp_status now o id s u w)
unfolding update_offramp_status
update-StartsNone now id o s u w = Ensures-bind (find_offramp_by_id id w) _ λ row e. returns refl

record_paid-StartsNone :
    (repos : WebhookRepos) (d : Fields) (stage : Stage) (r : OfframpRow) (w : World)
    → Ensures (StartsNone w) (record_paid repos d stage r w)
unfolding record_paid
record_paid-StartsNone repos d stage r w = search (Ensures-bind, update-StartsNone) depth 8

-- The payout events start the fee settlement at most once: for an offramp that is COMPLETED already, an
-- event of either stage starts none.
pub complete_fiat-completed :
    (repos : WebhookRepos) (ref : String) (f d : Fields) (event : String) (stage : Stage)
    (w : World) (r : OfframpRow)
    → find_offramp_by_txn_ref ref w ≡ some r
    → is_completed r.status ≡ true
    → Ensures
        (λ (v : World). v.fee_jobs ≡ w.fee_jobs)
        (complete_fiat_offramp_from_withdrawal repos ref f d event stage w)
unfolding complete_fiat_offramp_from_withdrawal
complete_fiat-completed repos ref f d event stage w r found h =
    rw (found, h) (search (Ensures-bind, record_paid-StartsNone) depth 8)

paid_mark :
    (now : String) (old : Fields)
    → get "fiatWithdrawalCompleted" (
        spread old (object (("fiatPaidAt", str now) ∷ ("fiatWithdrawalCompleted", bool true) ∷ [])))
      ≡ bool true
unfolding spread
paid_mark now old = simp (get-put)

-- Once the paid stage is recorded on a row, the same event, repeated at any later time, breaks and
-- changes nothing.
pub record_paid-repeated :
    (repos later : WebhookRepos) (d e : Fields) (stage : Stage) (r : OfframpRow) (w : World)
    → record_paid later e stage
        (updated_offramp repos.now automatic OfframpStatus.completed (paid_patch repos.now d r) r)
        w
      ≡ none
unfolding record_paid updated_offramp paid_patch
record_paid-repeated repos later d e funded r w = refl
record_paid-repeated repos later d e paid r w =
    rw (paid_mark repos.now (record_or_empty r.timeline)) refl
