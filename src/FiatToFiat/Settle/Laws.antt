-- ===== src/FiatToFiat/Settle/Laws.antt =====
-- What an internal settlement has checked, and what it leaves for other ramps.
use api_bloxfi.Prelude.{
  arith, String, true, ◌≡◌, ◌⊎◌, inl, inr, refl, sym, Option, none, some, List, [], ◌∷◌, Verdict,
  pass, refuse, Ensures, Ensures-bind, Ensures-some, Ensures-intro, returns, require, require_holds,
}
use api_bloxfi.Text.{is_set}
use api_bloxfi.Numeric.{Number}
use api_bloxfi.Ramp.Status.{OnrampStatus, fiat_processed}
use api_bloxfi.Ramp.Store.{World, OnrampRow, OfframpRow, onramp_fee}
use api_bloxfi.Ramp.Held.{WorldUnfailed, WorldUnfailed-refl, WorldUnfailed-same}
use api_bloxfi.Ramp.Unfailed.{
  WorldUnfailed-trans, update_onramp_status-WorldUnfailed, Ensures-WorldUnfailed_then,
}
use api_bloxfi.Ramp.Expiry.{Clock}
use api_bloxfi.Webhook.Withdrawal.{start_fee_job}
use api_bloxfi.Payout.Offramp.{PayoutDeps}
use api_bloxfi.Payout.Onramp.{is_fiat_processed}
use api_bloxfi.Payout.Never.{advance_offramp-WorldUnfailed}
use api_bloxfi.FiatToFiat.Pair.{check_fiat_to_fiat_pair, is_settleable}
use api_bloxfi.FiatToFiat.Pair.Laws.{PairMatches, check_fiat_to_fiat_pair_iff}
use api_bloxfi.FiatToFiat.Claim.Laws.{claim_offramp_crypto-WorldUnfailed}
use api_bloxfi.FiatToFiat.Settle.{
  Match, add_match, matches, candidates, only_match, settlement_pair, settle_pair,
  finish_settlement, after_claim, settle_answer, try_settle_fiat_to_fiat_internally, claim_updates,
  settled_patch,
}

added-pass :
    (x : OfframpRow) (v : Verdict String Number) (rest ms : List Match) (m : Match)
    → add_match x v rest ≡ m ∷ ms
    → ((m ≡ (x, m.1)) × (v ≡ pass m.1)) ⊎ (rest ≡ m ∷ ms)
added-pass x (pass a) rest ms m h =
    let same : (x, a) ≡ m = cc in inl (rw (sym same) refl, rw (sym same) refl)
added-pass x (refuse r) rest ms m h = inr h

matches-pass :
    (c : Clock) (row : OnrampRow) (m : Match) (rest : List Match) (xs : List OfframpRow)
    → matches c row xs ≡ m ∷ rest
    → check_fiat_to_fiat_pair c row m.0 ≡ pass m.1
unfolding matches
matches-pass c row m rest [] h = cc
matches-pass c row m rest (x ∷ xs) h =
    elim (added-pass x (check_fiat_to_fiat_pair c row x) (matches c row xs) rest m h) [
      | inl (same, passed) ↦ rw same passed
      | inr later ↦ matches-pass c row m rest xs later
    ]

only_match-some : (ms : List Match) (m : Match) → only_match ms ≡ some m → ms ≡ m ∷ []
only_match-some [] m h = cc
only_match-some (n ∷ []) m h = cc
only_match-some (n ∷ k ∷ ms) m h = cc

of_fiat_processed : (s : OnrampStatus) → is_fiat_processed s ≡ true → s ≡ fiat_processed
of_fiat_processed s h = ground arith

-- The pair that is settled: the only match among the candidates.
pub record PairChecked (c : Clock) (row : OnrampRow) (w : World) (m : Match) : Type 0 where
  pub ready : row.status ≡ fiat_processed
  pub only : matches c row (candidates row w) ≡ m ∷ []
  pub matched : PairMatches c row m.0 m.1

checked :
    (c : Clock) (row : OnrampRow) (w : World) (m : Match)
    → is_fiat_processed row.status ≡ true
    → only_match (matches c row (candidates row w)) ≡ some m
    → PairChecked c row w m
checked c row w m p e =
    let one = only_match-some (matches c row (candidates row w)) m e in
    record {
      ready = of_fiat_processed row.status p;
      only = one;
      matched =
          (check_fiat_to_fiat_pair_iff c row m.0 m.1).0
            (matches-pass c row m [] (candidates row w) one);
    }

pub settlement_pair-PairChecked :
    (c : Clock) (row : OnrampRow) (w : World)
    → Ensures (PairChecked c row w) (settlement_pair c row w)
unfolding settlement_pair
settlement_pair-PairChecked c row w = Ensures-bind row.txn_ref _ λ ref _.
    Ensures-bind (require (is_set ref)) _ λ _ _.
      Ensures-bind (require (is_fiat_processed row.status)) _ λ _ p.
        let onward = λ (m : Match) (e : only_match (matches c row (candidates row w)) ≡ some m).
          checked c row w m (require_holds _ p) e in
        search (Ensures-bind, Ensures-intro, onward) depth 12

finish_settlement-WorldUnfailed :
    (c : Clock) (fiat : PayoutDeps) (i j : String) (w : World) (m : Option World)
    → Ensures (WorldUnfailed w) m
    → WorldUnfailed w (finish_settlement c fiat i j w m)
finish_settlement-WorldUnfailed c fiat i j w none h = WorldUnfailed-refl w
finish_settlement-WorldUnfailed c fiat i j w (some v) h =
    let started = start_fee_job (onramp_fee i) v in
    WorldUnfailed-trans (Ensures-some h) (
      WorldUnfailed-trans (WorldUnfailed-same v started refl refl)
        (advance_offramp-WorldUnfailed c.now_text fiat j started))

after_claim-WorldUnfailed :
    (c : Clock) (fiat : PayoutDeps) (row : OnrampRow) (m : Match) (w : World)
    → WorldUnfailed w (after_claim c fiat row m w)
unfolding after_claim
after_claim-WorldUnfailed c fiat row m w =
    finish_settlement-WorldUnfailed c fiat row.id m.0.id w _ (
      update_onramp_status-WorldUnfailed c.now_text row.id OnrampStatus.completed
        (settled_patch c.now_text row m.0 m.1) w refl)

settle_pair-WorldUnfailed :
    (c : Clock) (fiat : PayoutDeps) (row : OnrampRow) (m : Match) (w : World)
    → Ensures (WorldUnfailed w) (settle_pair c fiat row m w)
unfolding settle_pair
settle_pair-WorldUnfailed c fiat row m w =
    Ensures-WorldUnfailed_then _ _
      (claim_offramp_crypto-WorldUnfailed m.0.id is_settleable
        (claim_updates c.now_text row m.0 m.1) w)
      λ v. returns (after_claim-WorldUnfailed c fiat row m v)

settle_answer-WorldUnfailed :
    (w : World) (m : Option World)
    → Ensures (WorldUnfailed w) m
    → WorldUnfailed w (settle_answer w m).1
settle_answer-WorldUnfailed w none h = WorldUnfailed-refl w
settle_answer-WorldUnfailed w (some v) h = Ensures-some h

pub try_settle-WorldUnfailed :
    (c : Clock) (fiat : PayoutDeps) (row : OnrampRow) (w : World)
    → WorldUnfailed w (try_settle_fiat_to_fiat_internally c fiat row w).1
unfolding try_settle_fiat_to_fiat_internally
try_settle-WorldUnfailed c fiat row w =
    settle_answer-WorldUnfailed w _
      (Ensures-bind (settlement_pair c row w) _ λ m _. settle_pair-WorldUnfailed c fiat row m w)
