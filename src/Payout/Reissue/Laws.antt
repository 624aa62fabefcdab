-- ===== src/Payout/Reissue/Laws.antt =====
-- What a reissue writes, and reissuing the same withdrawal again.
use api_bloxfi.Prelude.{
  arith, String, true, false, not, ◌||◌, ◌≡◌, refl, sym, ◌∙◌, Option, none, some, eq_of_==, ◌==◌,
  Ensures, Ensures-bind, Ensures-if, Ensures-some, Ensures-intro, returns, breaks,
}
use mathlib.Core.Path.{subst}
use api_bloxfi.Ramp.Update.{update_offramp_status-find}
use api_bloxfi.Text.{trim, is_set}
use api_bloxfi.Json.{Value, Fields, str, get, spread, record_or_empty}
use api_bloxfi.Json.Laws.{get-put}
use api_bloxfi.Table.{find-holds}
use api_bloxfi.Ramp.Status.{OfframpStatus}
use api_bloxfi.Ramp.Store.{
  World, OfframpRow, updated_offramp, update_offramp_status, find_offramp_by_id, offramp_has_id,
}
use api_bloxfi.Offramp.FiatRetry.{offramp_fiat_withdrawal_id}
use api_bloxfi.Payout.Reissue.{
  ReissueDeps, ReissueAnswer, created, not_created, reissue_throws, ReissueResult, reissued,
  rejected, silent, attached_to, new_timeline, reissue_patch, record_reissue, reissue_row, with_ref,
  reissue_found, reissue_offramp_fiat_payout,
}

-- The stored row after a reissue.
abbrev pub reissued_row : String → String → String → Value → OfframpRow → OfframpRow
reissued_row now previous id sender row =
    updated_offramp now silent OfframpStatus.fiat_pending (reissue_patch now previous id sender row)
      row

-- The withdrawal was the one attached to the stored offramp, and the row has the new one.
pub record Reissued (now offramp_id wid id previous ref : String) (w v : World) : Type 0 where
  pub row : OfframpRow
  pub sender : Value
  pub found : find_offramp_by_id offramp_id w ≡ some row
  pub has_ref : row.txn_ref ≡ some ref
  pub ref_is_set : (ref == "") ≡ false
  pub attached : attached_to row ≡ wid
  pub replaced : previous ≡ wid
  pub stored : find_offramp_by_id offramp_id v ≡ some (reissued_row now wid id sender row)

-- What each result says of the states before and after.
abbrev pub Outcome : String → String → String → World → ReissueResult → World → Type 0
Outcome now oid wid w (reissued id previous ref) v = Reissued now oid wid id previous ref w v
Outcome now oid wid w (rejected reason message status_code) v = v ≡ w

stored_row :
    (now oid wid id : String) (sender : Value) (row : OfframpRow) (w : World)
    → find_offramp_by_id oid w ≡ some row
    → Ensures
        (λ v. find_offramp_by_id oid v ≡ some (reissued_row now wid id sender row))
        (update_offramp_status now silent row.id OfframpStatus.fiat_pending
          (reissue_patch now wid id sender row)
          w)
unfolding find_offramp_by_id
stored_row now oid wid id sender row w found =
    let same = eq_of_== row.id oid (find-holds (offramp_has_id oid) w.offramps found) in
    let patch = reissue_patch now wid id sender row in
    Ensures-intro _ λ v e.
      update_offramp_status-find now oid silent OfframpStatus.fiat_pending patch w v row found (
        subst (λ i. update_offramp_status now silent i OfframpStatus.fiat_pending patch w ≡ some v)
          same e)

record_reissue-Outcome :
    (now oid wid ref : String) (row : OfframpRow) (a : ReissueAnswer) (w : World)
    → find_offramp_by_id oid w ≡ some row
    → row.txn_ref ≡ some ref
    → (ref == "") ≡ false
    → attached_to row ≡ wid
    → Ensures (λ r. Outcome now oid wid w r.0 r.1) (record_reissue now wid ref row a w)
unfolding record_reissue
record_reissue-Outcome now oid wid ref row reissue_throws w found named set same = breaks
record_reissue-Outcome now oid wid ref row (not_created m k) w found named set same = returns refl
record_reissue-Outcome now oid wid ref row (created id sender) w found named set same =
    Ensures-bind _ _ λ v e.
      let kept : Reissued now oid wid id wid ref w v = record {
        row = row;
        sender = sender;
        found = found;
        has_ref = named;
        ref_is_set = set;
        attached = same;
        replaced = refl;
        stored =
            Ensures-some
              {P = λ (x : World).
                find_offramp_by_id oid x ≡ some (reissued_row now wid id sender row)}
              {a = v} (rw (sym e) (stored_row now oid wid id sender row w found));
      } in
      returns {a = (reissued id wid ref, v)} kept

attached_same :
    (row : OfframpRow) (wid : String)
    → (not (is_set (attached_to row)) || not (attached_to row == wid)) ≡ false
    → attached_to row ≡ wid
attached_same row wid h = eq_of_== _ _ (ground arith)

reissue_row-Outcome :
    (now oid wid ref : String) (deps : ReissueDeps) (row : OfframpRow) (w : World)
    → find_offramp_by_id oid w ≡ some row
    → row.txn_ref ≡ some ref
    → (ref == "") ≡ false
    → Ensures (λ r. Outcome now oid wid w r.0 r.1) (reissue_row now deps wid ref row w)
unfolding reissue_row
reissue_row-Outcome now oid wid ref deps row w found named set =
    Ensures-if _ _ _ (λ _. returns refl)
      (λ h.
        record_reissue-Outcome now oid wid ref row _ w found named set (attached_same row wid h))

with_ref-Outcome :
    (now oid wid : String) (deps : ReissueDeps) (row : OfframpRow) (ref : Option String) (w : World)
    → find_offramp_by_id oid w ≡ some row
    → row.txn_ref ≡ ref
    → Ensures (λ r. Outcome now oid wid w r.0 r.1) (with_ref now deps wid row ref w)
with_ref-Outcome now oid wid deps row none w found named = returns refl
with_ref-Outcome now oid wid deps row (some ref) w found named =
    Ensures-if (ref == "") _ _ (λ _. returns refl)
      (λ h. reissue_row-Outcome now oid wid ref deps row w found named h)

found-Outcome :
    (now oid wid : String) (deps : ReissueDeps) (m : Option OfframpRow) (w : World)
    → find_offramp_by_id oid w ≡ m
    → Ensures (λ r. Outcome now oid wid w r.0 r.1) (reissue_found now deps wid m w)
found-Outcome now oid wid deps none w e = returns refl
found-Outcome now oid wid deps (some row) w e =
    with_ref-Outcome now oid wid deps row row.txn_ref w e refl

-- A reissue that returns was either rejected, with the state as it was, or it replaced the withdrawal
-- that was attached to the stored offramp, and the row has the new withdrawal.
pub reissue-Outcome :
    (now oid wid : String) (deps : ReissueDeps) (w : World)
    → Ensures (λ r. Outcome now oid wid w r.0 r.1) (reissue_offramp_fiat_payout now deps oid wid w)
unfolding reissue_offramp_fiat_payout
reissue-Outcome now oid wid deps w = found-Outcome now oid wid deps _ w refl

new_timeline-id :
    (now id : String) (old : Fields) → get "fiatWithdrawalId" (new_timeline now id old) ≡ str id
unfolding spread
new_timeline-id now id old = simp (get-put)

attached_to-reissued :
    (now wid id : String) (sender : Value) (row : OfframpRow)
    → (trim id == "") ≡ false
    → attached_to (reissued_row now wid id sender row) ≡ trim id
unfolding offramp_fiat_withdrawal_id updated_offramp reissue_patch
attached_to-reissued now wid id sender row h =
    rw (new_timeline-id now id (record_or_empty row.timeline), h) refl

abbrev pub payout_mismatch : ReissueResult
payout_mismatch =
    rejected "PAYOUT_MISMATCH" "Offramp is no longer attached to that Palremit payout" 409

mismatched : (s wid : String) → (s == wid) ≡ false → (not (is_set s) || not (s == wid)) ≡ true
mismatched s wid h = ground arith

reissue_row-mismatch :
    (now ref wid : String) (deps : ReissueDeps) (row : OfframpRow) (w : World)
    → (attached_to row == wid) ≡ false
    → reissue_row now deps wid ref row w ≡ some (payout_mismatch, w)
unfolding reissue_row
reissue_row-mismatch now ref wid deps row w h = rw (mismatched (attached_to row) wid h) refl

with_ref-mismatch :
    (now ref wid : String) (deps : ReissueDeps) (row : OfframpRow) (m : Option String) (w : World)
    → m ≡ some ref
    → (ref == "") ≡ false
    → (attached_to row == wid) ≡ false
    → with_ref now deps wid row m w ≡ some (payout_mismatch, w)
with_ref-mismatch now ref wid deps row m w named set other =
    rw (named, set) (reissue_row-mismatch now ref wid deps row w other)

mismatch :
    (now oid wid ref : String) (deps : ReissueDeps) (row : OfframpRow) (w : World)
    → find_offramp_by_id oid w ≡ some row
    → row.txn_ref ≡ some ref
    → (ref == "") ≡ false
    → (attached_to row == wid) ≡ false
    → reissue_offramp_fiat_payout now deps oid wid w ≡ some (payout_mismatch, w)
unfolding reissue_offramp_fiat_payout
mismatch now oid wid ref deps row w found named set other =
    rw found (with_ref-mismatch now ref wid deps row row.txn_ref w named set other)

reissued-txn_ref :
    (now wid id : String) (sender : Value) (row : OfframpRow)
    → (reissued_row now wid id sender row).txn_ref ≡ row.txn_ref
unfolding updated_offramp
reissued-txn_ref now wid id sender row = refl

-- A withdrawal is replaced at most once: after a reissue, another request to reissue the same withdrawal
-- is rejected and changes nothing, whatever the provider would answer, if the new id is another one and
-- not blank.
pub reissue-again :
    (now later oid wid id previous ref : String) (deps other : ReissueDeps) (w v : World)
    → reissue_offramp_fiat_payout now deps oid wid w ≡ some (reissued id previous ref, v)
    → (trim id == "") ≡ false
    → (trim id == wid) ≡ false
    → reissue_offramp_fiat_payout later other oid wid v ≡ some (payout_mismatch, v)
reissue-again now later oid wid id previous ref deps other w v e set differs =
    let r : Reissued now oid wid id previous ref w v =
      Ensures-some {P = λ (x : ReissueResult × World). Outcome now oid wid w x.0 x.1}
        {a = (reissued id previous ref, v)} (rw (sym e) (reissue-Outcome now oid wid deps w)) in
    mismatch later oid wid ref other (reissued_row now wid id r.sender r.row) v r.stored
      (reissued-txn_ref now wid id r.sender r.row ∙ r.has_ref) r.ref_is_set
      (rw (attached_to-reissued now wid id r.sender r.row set) differs)
