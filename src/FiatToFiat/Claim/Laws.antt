-- ===== src/FiatToFiat/Claim/Laws.antt =====
-- Who may claim an offramp, and what a claim writes.
use api_bloxfi.Prelude.{
  String, Bool, false, ◌≡◌, refl, arith, none, some, Ensures, Ensures-bind, returns, Ensures-some,
  sym,
}
use api_bloxfi.Json.{Value}
use api_bloxfi.Table.{find, find-modify_gone, Each-refl, Each-modify}
use api_bloxfi.Ramp.Status.{OfframpStatus, crypto_confirmed}
use api_bloxfi.Ramp.Store.{World, OfframpRow}
use api_bloxfi.Ramp.Held.{OfframpUnfailed-refl, OnrampUnfailed-refl, WorldUnfailed}
use api_bloxfi.FiatToFiat.Claim.{
  ClaimUpdates, ClaimRead, claimable, claimed_row, read_claim, write_claim, claim_offramp_crypto,
}

not_claimable :
    (id : String) (from : OfframpStatus → Bool) (refs : Value) (u : ClaimUpdates) (r : OfframpRow)
    → from crypto_confirmed ≡ false
    → claimable id from (claimed_row refs u r) ≡ false
not_claimable id from refs u r h = ground arith

-- Of two claims of an offramp, whose reads and writes may come in any order, once the write of one went
-- through, the write of the other finds nothing to write.
pub write_claim-exclusive :
    (id : String) (from : OfframpStatus → Bool) (u u' : ClaimUpdates) (read read' : ClaimRead)
    (w v : World)
    → from crypto_confirmed ≡ false
    → write_claim id from u read w ≡ some v
    → write_claim id from u' read' v ≡ none
unfolding write_claim
write_claim-exclusive id from u u' read read' w v h e =
    Ensures-some {P = λ (x : World). write_claim id from u' read' x ≡ none} {a = v} (
      rw (sym e) (
        Ensures-bind (find (claimable id from) w.offramps) _ λ row _. returns (
          rw
            (find-modify_gone (claimable id from) (claimed_row read.merged_refs u) w.offramps
              λ r. not_claimable id from read.merged_refs u r h)
            refl)))

write_claim-WorldUnfailed :
    (id : String) (from : OfframpStatus → Bool) (u : ClaimUpdates) (read : ClaimRead) (w : World)
    → Ensures (WorldUnfailed w) (write_claim id from u read w)
unfolding write_claim
write_claim-WorldUnfailed id from u read w =
    Ensures-bind (find (claimable id from) w.offramps) _ λ row e. returns (record {
      offramps =
          Each-modify (claimable id from) (claimed_row read.merged_refs u) w.offramps
            (λ r _. record { same_id = refl; same_txn_ref = refl; not_failed = λ n. refl })
            OfframpUnfailed-refl;
      onramps = Each-refl OnrampUnfailed-refl w.onramps;
    })

pub claim_offramp_crypto-WorldUnfailed :
    (id : String) (from : OfframpStatus → Bool) (u : ClaimUpdates) (w : World)
    → Ensures (WorldUnfailed w) (claim_offramp_crypto id from u w)
unfolding claim_offramp_crypto
claim_offramp_crypto-WorldUnfailed id from u w =
    Ensures-bind (read_claim id from u w) _ λ read _. write_claim-WorldUnfailed id from u read w
