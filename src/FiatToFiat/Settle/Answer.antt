-- ===== src/FiatToFiat/Settle/Answer.antt =====
-- What the answer of an internal settlement means for the onramp and its crypto payout.
use api_bloxfi.Prelude.{
  String, Bool, true, false, ◌≡◌, ◌≢◌, ◌⊎◌, inl, inr, refl, sym, Option, none, some, Ensures,
  Ensures-bind, Ensures-some, Ensures-any, Ensures-otherwise, returns,
}
use api_bloxfi.Text.{is_set}
use api_bloxfi.Json.{Fields}
use api_bloxfi.Table.{find, find-modify}
use api_bloxfi.Ramp.Status.{OnrampStatus, OfframpStatus}
use api_bloxfi.Ramp.Guard.{blocks_onramp_transition}
use api_bloxfi.Ramp.Store.{
  World, OnrampRow, OfframpRow, OfframpPatch, OnrampPatch, automatic, onramp_fee, onramp_has_id,
  updated_onramp, update_onramp_status, update_offramp_status, find_onramp_by_id,
  find_offramp_by_id,
}
use api_bloxfi.Ramp.Expiry.{Clock}
use api_bloxfi.Webhook.Withdrawal.{start_fee_job}
use api_bloxfi.Payout.Offramp.{
  PayoutDeps, PayoutResult, accepted, refused, record_payout, try_offramp_payout,
  advance_offramp_if_deposit_ready,
}
use api_bloxfi.Payout.Onramp.{
  CryptoPayoutDeps, start_crypto_payout, advance_onramp_row, advance_onramp_if_fiat_processed,
}
use api_bloxfi.Payout.Onramp.Laws.{unwritten}
use api_bloxfi.FiatToFiat.Pair.{is_settleable}
use api_bloxfi.FiatToFiat.Claim.{
  write_claim, read_claim, claim_offramp_crypto, claimable, ClaimUpdates,
}
use api_bloxfi.FiatToFiat.Settle.{
  Match, settlement_pair, settle_pair, finish_settlement, after_claim, settle_answer,
  try_settle_fiat_to_fiat_internally, claim_updates, settled_patch,
}
use api_bloxfi.FiatToFiat.Settle.Laws.{PairChecked, settlement_pair-PairChecked}

update_offramp_status-SameOnramps :
    (now id : String) (s : OfframpStatus) (u : OfframpPatch) (w : World)
    → Ensures (λ v. v.onramps ≡ w.onramps) (update_offramp_status now automatic id s u w)
unfolding update_offramp_status
update_offramp_status-SameOnramps now id s u w =
    Ensures-bind (find_offramp_by_id id w) _ λ row _. returns refl

record_payout-SameOnramps :
    (now : String) (body : Fields) (row : OfframpRow) (r : PayoutResult) (w : World)
    → Ensures (λ v. v.onramps ≡ w.onramps) (record_payout now body row r w)
unfolding record_payout
record_payout-SameOnramps now body row (accepted id s q p) w =
    update_offramp_status-SameOnramps now row.id _ _ w
record_payout-SameOnramps now body row (refused e p) w =
    update_offramp_status-SameOnramps now row.id _ _ w

try_offramp_payout-SameOnramps :
    (now : String) (fiat : PayoutDeps) (id : String) (w : World)
    → Ensures (λ v. v.onramps ≡ w.onramps) (try_offramp_payout now fiat id w)
unfolding try_offramp_payout
try_offramp_payout-SameOnramps now fiat id w =
    search (Ensures-bind, record_payout-SameOnramps) depth 8

advance_offramp-SameOnramps :
    (now : String) (fiat : PayoutDeps) (id : String) (w : World)
    → (advance_offramp_if_deposit_ready now fiat id w).onramps ≡ w.onramps
unfolding advance_offramp_if_deposit_ready
advance_offramp-SameOnramps now fiat id w =
    Ensures-otherwise {P = λ (v : World). v.onramps ≡ w.onramps} w refl
      (try_offramp_payout-SameOnramps now fiat id w)

claim-SameOnramps :
    (id : String) (from : OfframpStatus → Bool) (u : ClaimUpdates) (w : World)
    → Ensures (λ v. v.onramps ≡ w.onramps) (claim_offramp_crypto id from u w)
unfolding claim_offramp_crypto write_claim
claim-SameOnramps id from u w =
    Ensures-bind (read_claim id from u w) _
      λ read _. Ensures-bind (find (claimable id from) w.offramps) _ λ row _. returns refl

-- The stored onramp with this id is COMPLETED.
abbrev pub IsClosed : String → World → Type 0
IsClosed id v =
    (r : OnrampRow) × (find_onramp_by_id id v ≡ some r) × (r.status ≡ OnrampStatus.completed)

completed-IsClosed :
    (now id : String) (u : OnrampPatch) (row : OnrampRow) (w : World)
    → find_onramp_by_id id w ≡ some row
    → Ensures (IsClosed id) (update_onramp_status now automatic id OnrampStatus.completed u w)
unfolding update_onramp_status find_onramp_by_id updated_onramp blocks_onramp_transition
completed-IsClosed now id u row w found = Ensures-bind (find_onramp_by_id id w) _ λ x _. returns (
  updated_onramp now automatic OnrampStatus.completed u row,
  find-modify (onramp_has_id id) (updated_onramp now automatic OnrampStatus.completed u) w.onramps
      (λ x. refl) found,
  refl,
)

completed-found :
    (now id : String) (u : OnrampPatch) (row : OnrampRow) (w : World)
    → find_onramp_by_id id w ≡ some row
    → update_onramp_status now automatic id OnrampStatus.completed u w ≢ none
unfolding update_onramp_status
completed-found now id u row w found e = let broken = rw found at e in cc

IsClosed-same : (id : String) (v w : World) → v.onramps ≡ w.onramps → IsClosed id w → IsClosed id v
unfolding find_onramp_by_id
IsClosed-same id v w e (r, found, done) = (r, rw e found, done)

finish-IsClosed :
    (c : Clock) (fiat : PayoutDeps) (id offramp_id : String) (w : World) (m : Option World)
    → m ≢ none
    → Ensures (IsClosed id) m
    → IsClosed id (finish_settlement c fiat id offramp_id w m)
finish-IsClosed c fiat id offramp_id w none some_world h = absurd (some_world refl)
finish-IsClosed c fiat id offramp_id w (some v) some_world h =
    let started = start_fee_job (onramp_fee id) v in
    IsClosed-same id _ started (advance_offramp-SameOnramps c.now_text fiat offramp_id started)
      (IsClosed-same id started v refl (Ensures-some h))

settle_pair-IsClosed :
    (c : Clock) (fiat : PayoutDeps) (row : OnrampRow) (m : Match) (w : World)
    → find_onramp_by_id row.id w ≡ some row
    → Ensures (IsClosed row.id) (settle_pair c fiat row m w)
unfolding settle_pair after_claim find_onramp_by_id
settle_pair-IsClosed c fiat row m w found =
    Ensures-bind
      (claim_offramp_crypto m.0.id is_settleable (claim_updates c.now_text row m.0 m.1) w) _
      λ v e.
        let same : v.onramps ≡ w.onramps =
          Ensures-some {P = λ (x : World). x.onramps ≡ w.onramps} {a = v} (
            rw (sym e)
              (claim-SameOnramps m.0.id is_settleable (claim_updates c.now_text row m.0 m.1) w)) in
        let there : find_onramp_by_id row.id v ≡ some row = rw same found in
        let patch = settled_patch c.now_text row m.0 m.1 in
        returns (
          finish-IsClosed c fiat row.id m.0.id v _
            (completed-found c.now_text row.id patch row v there)
            (completed-IsClosed c.now_text row.id patch row v there))

closed-advance :
    (now : String) (crypto : CryptoPayoutDeps) (id : String) (w : World)
    → IsClosed id w
    → advance_onramp_if_fiat_processed now crypto id w ≡ w
unfolding advance_onramp_if_fiat_processed advance_onramp_row start_crypto_payout
closed-advance now crypto id w (r, found, done) =
    rw (found, done) (unwritten r.txn_ref (λ s. is_set s) w)

answer_true :
    {P : World → Type 0} (w v : World) (m : Option World)
    → Ensures P m
    → settle_answer w m ≡ (true, v)
    → P v
answer_true w v none h e = cc
answer_true {P} w v (some x) h e = let same : x ≡ v = cc in rw (sym same) (Ensures-some h)

-- Once a stored onramp was settled internally, advancing it sends no crypto: whatever the provider would
-- answer, the state stays as the settlement left it.
pub advance_onramp-settled :
    (c : Clock) (fiat : PayoutDeps) (row : OnrampRow) (w v : World) (later : String)
    (crypto : CryptoPayoutDeps)
    → find_onramp_by_id row.id w ≡ some row
    → try_settle_fiat_to_fiat_internally c fiat row w ≡ (true, v)
    → advance_onramp_if_fiat_processed later crypto row.id v ≡ v
unfolding try_settle_fiat_to_fiat_internally
advance_onramp-settled c fiat row w v later crypto found settled =
    closed-advance later crypto row.id v (
      answer_true w v _
        (Ensures-bind (settlement_pair c row w) _ λ m _. settle_pair-IsClosed c fiat row m w found)
        settled)

answer_cases :
    {P : Type 0} (w : World) (m : Option World)
    → Ensures (λ v. P) m
    → (settle_answer w m ≡ (false, w)) ⊎ ((settle_answer w m).0 ≡ true) × P
answer_cases w none h = inl refl
answer_cases w (some v) h = inr (refl, Ensures-some h)

-- An internal settlement either answers false and changes nothing, or it answers true for an onramp that
-- is FIAT_PROCESSED and that exactly one of its candidates matches.
pub try_settle-PairChecked :
    (c : Clock) (fiat : PayoutDeps) (row : OnrampRow) (w : World)
    → (try_settle_fiat_to_fiat_internally c fiat row w ≡ (false, w))
      ⊎ (((try_settle_fiat_to_fiat_internally c fiat row w).0 ≡ true)
          × ((m : Match) × PairChecked c row w m))
unfolding try_settle_fiat_to_fiat_internally
try_settle-PairChecked c fiat row w = answer_cases w _ (
    Ensures-bind (settlement_pair c row w) _ λ m e.
      Ensures-any
        (
          m,
          Ensures-some {P = PairChecked c row w} {a = m}
              (rw (sym e) (settlement_pair-PairChecked c row w)),
        )
        _)
