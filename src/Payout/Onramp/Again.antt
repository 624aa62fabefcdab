-- ===== src/Payout/Onramp/Again.antt =====
-- Advancing an onramp again after its crypto payout was taken.
use api_bloxfi.Prelude.{
  String, true, false, refl, sym, ap, ◌∙◌, ◌≡◌, Option, none, some, eq_of_==, Ensures, Ensures-bind,
  Ensures-some, Ensures-if, breaks, returns, otherwise, require, ◌>>=◌, ◌>>◌, if◌then◌else◌,
}
use api_bloxfi.Text.{trim, is_set}
use api_bloxfi.Json.{get, as_record}
use api_bloxfi.Table.{find-holds, find-modify}
use api_bloxfi.Ramp.Status.{OnrampStatus, crypto_initiated}
use api_bloxfi.Ramp.Guard.{blocks_onramp_transition}
use api_bloxfi.Ramp.Store.{
  World, OnrampRow, OnrampPatch, automatic, no_onramp_patch, find_onramp_by_id, onramp_has_id,
  updated_onramp, update_onramp_status,
}
use api_bloxfi.Payout.Onramp.{
  CryptoWithdrawal, CryptoPayoutDeps, is_fiat_processed, may_start, has_withdrawal_id,
  has_payout_data, pending_patch, initiated, start_crypto_payout, after_settlement,
  advance_onramp_row, advance_onramp_if_fiat_processed,
}
use api_bloxfi.Payout.Onramp.Laws.{unwritten}

-- The stored onramp is CRYPTO_PENDING and has the id of a withdrawal.
pub record Pending (id : String) (w : World) : Type 0 where
  pub row : OnrampRow
  pub stored : find_onramp_by_id id w ≡ some row
  pub status_is : row.status ≡ OnrampStatus.crypto_pending
  pub has_id : has_withdrawal_id row.receipt ≡ true

-- An update of the onramp under its own id is read back.
update-stored :
    (now id key : String) (s : OnrampStatus) (u : OnrampPatch) (row : OnrampRow) (w : World)
    → key ≡ id
    → find_onramp_by_id id w ≡ some row
    → Ensures
        (λ v. find_onramp_by_id id v ≡ some (updated_onramp now automatic s u row))
        (update_onramp_status now automatic key s u w)
unfolding update_onramp_status find_onramp_by_id updated_onramp
update-stored now id key s u row w same found = Ensures-bind (find_onramp_by_id key w) _ λ x _.
    returns (
      rw same (
        find-modify (onramp_has_id id) (updated_onramp now automatic s u) w.onramps (λ y. refl)
          found))

abbrev IsStored : String → World → Type 0
IsStored id v = (r : OnrampRow) × (find_onramp_by_id id v ≡ some r)

IsStored-weaken :
    (id : String) (r : OnrampRow) {m : Option World}
    → Ensures (λ v. find_onramp_by_id id v ≡ some r) m
    → Ensures (IsStored id) m
IsStored-weaken id r breaks = breaks
IsStored-weaken id r (returns e) = returns (r, e)

initiated-IsStored :
    (now id : String) (row : OnrampRow) (w : World)
    → find_onramp_by_id id w ≡ some row
    → row.id ≡ id
    → Ensures (IsStored id) (initiated now row w)
initiated-IsStored now id row w found same =
    Ensures-if (is_fiat_processed row.status) _ _
      (λ p.
        IsStored-weaken id _
          (update-stored now id row.id crypto_initiated no_onramp_patch row w same found))
      (λ n. returns (row, found))

onramp_id_is :
    (id : String) (w : World) (row : OnrampRow) → find_onramp_by_id id w ≡ some row → row.id ≡ id
unfolding find_onramp_by_id
onramp_id_is id w row found = eq_of_== row.id id (find-holds (onramp_has_id id) w.onramps found)

taken-Pending :
    (now id ref : String) (row stored : OnrampRow) (r : CryptoWithdrawal)
    → is_set (trim r.withdrawal_id) ≡ true
    → {m : Option World}
    → Ensures
        (λ v.
          find_onramp_by_id id v
          ≡ some (
              updated_onramp now automatic OnrampStatus.crypto_pending
                (pending_patch ref row (some r))
                stored))
        m
    → Ensures (Pending id) m
unfolding updated_onramp blocks_onramp_transition has_withdrawal_id get
taken-Pending now id ref row stored r set breaks = breaks
taken-Pending now id ref row stored r set (returns e) =
    returns (record { row = _; stored = e; status_is = refl; has_id = set })

start-Pending :
    (now id ref : String) (deps : CryptoPayoutDeps) (row : OnrampRow) (r : CryptoWithdrawal)
    (w : World)
    → find_onramp_by_id id w ≡ some row
    → deps.execute_withdrawal row ≡ some r
    → is_set (trim r.withdrawal_id) ≡ true
    → Ensures (Pending id) (start_crypto_payout now deps ref row w)
unfolding start_crypto_payout
start-Pending now id ref deps row r w found answered set =
    let same = onramp_id_is id w row found in
    Ensures-bind (require (may_start row.status (has_withdrawal_id row.receipt))) _ λ _ _.
      Ensures-bind (as_record row.source) _ λ source _.
        Ensures-bind (as_record row.destination) _ λ destination _.
          Ensures-bind (require (has_payout_data source destination)) _ λ _ _.
            Ensures-bind (initiated now row w) _ λ v e.
              let there : IsStored id v =
                Ensures-some {P = IsStored id} {a = v}
                  (rw (sym e) (initiated-IsStored now id row w found same)) in
              rw answered (
                taken-Pending now id ref row there.0 r set (
                  update-stored now id row.id OnrampStatus.crypto_pending
                    (pending_patch ref row (some r)) there.0 v same there.1))

not_again :
    (later ref : String) (deps : CryptoPayoutDeps) (row : OnrampRow) (w : World)
    → row.status ≡ OnrampStatus.crypto_pending
    → has_withdrawal_id row.receipt ≡ true
    → start_crypto_payout later deps ref row w ≡ none
unfolding start_crypto_payout
not_again later ref deps row w s h = rw (s, h) refl

unchanged :
    (later id : String) (deps : CryptoPayoutDeps) (w : World)
    → Pending id w
    → advance_onramp_if_fiat_processed later deps id w ≡ w
unfolding advance_onramp_if_fiat_processed advance_onramp_row start_crypto_payout
unchanged later id deps w p =
    rw (p.stored, p.status_is, p.has_id) (unwritten p.row.txn_ref (λ s. is_set s) w)

with_ref :
    (m : Option String) (ref : String) (k : String → World)
    → m ≡ some ref
    → is_set ref ≡ true
    → (m >>= λ t. require (is_set t) >> some (k t)) ≡ some (k ref)
with_ref m ref k named set = rw (named, set) refl

first_run :
    (now id ref : String) (deps : CryptoPayoutDeps) (row : OnrampRow) (w v : World)
    → find_onramp_by_id id w ≡ some row
    → row.txn_ref ≡ some ref
    → is_set ref ≡ true
    → (if is_fiat_processed row.status then deps.settle_internally row w else (false, w))
      ≡ (false, w)
    → start_crypto_payout now deps ref row w ≡ some v
    → advance_onramp_if_fiat_processed now deps id w ≡ v
unfolding advance_onramp_if_fiat_processed advance_onramp_row
first_run now id ref deps row w v found named set unsettled started = rw found (
    ap (otherwise w) (
      with_ref row.txn_ref ref
        (λ t.
          after_settlement now deps t row
            (if is_fiat_processed row.status then deps.settle_internally row w else (false, w)))
        named set)
    ∙ rw (unsettled, started) refl)

-- When an advance, which does not settle the onramp internally, starts the crypto payout and the provider
-- takes it with an id, the onramp is stored as CRYPTO_PENDING with the id of a withdrawal; from there no
-- second payout is started, whatever the provider would answer, and advancing the onramp again changes
-- nothing.
pub advance_onramp-paid :
    (now later id ref : String) (deps deps' : CryptoPayoutDeps) (row : OnrampRow)
    (r : CryptoWithdrawal) (w v : World)
    → find_onramp_by_id id w ≡ some row
    → row.txn_ref ≡ some ref
    → is_set ref ≡ true
    → (if is_fiat_processed row.status then deps.settle_internally row w else (false, w))
      ≡ (false, w)
    → start_crypto_payout now deps ref row w ≡ some v
    → deps.execute_withdrawal row ≡ some r
    → is_set (trim r.withdrawal_id) ≡ true
    → (advance_onramp_if_fiat_processed now deps id w ≡ v)
      × ((p : Pending id v) × (start_crypto_payout later deps' ref p.row v ≡ none))
      × (advance_onramp_if_fiat_processed later deps' id v ≡ v)
advance_onramp-paid now later id ref deps deps' row r w v found named set unsettled started answered
      known =
    let p : Pending id v =
      Ensures-some {P = Pending id} {a = v}
        (rw (sym started) (start-Pending now id ref deps row r w found answered known)) in
    (
      first_run now id ref deps row w v found named set unsettled started,
      (p, not_again later ref deps' p.row v p.status_is p.has_id),
      unchanged later id deps' v p,
    )
