-- ===== src/Payout/Never.antt =====
-- Payouts and fee withdrawals, and the failure statuses of ramps.
use api_bloxfi.Prelude.{
  String, Bool, true, false, refl, Ensures, Ensures-bind, Ensures-if, returns, Ensures-otherwise,
  ◌>>=◌, if◌then◌else◌,
}
use api_bloxfi.Json.{Value, Fields}
use api_bloxfi.Table.{Each-refl, Each-modify}
use api_bloxfi.Ramp.Status.{OnrampStatus, crypto_initiated}
use api_bloxfi.Ramp.Store.{
  World, OnrampRow, OfframpRow, OnrampPatch, no_onramp_patch, automatic, update_onramp_status,
  find_onramp_by_id, onramp_has_id,
}
use api_bloxfi.Ramp.Held.{
  WorldUnfailed, WorldUnfailed-refl, OnrampUnfailed, OnrampUnfailed-refl, OfframpUnfailed-refl,
}
use api_bloxfi.Ramp.Unfailed.{
  update_offramp_status-WorldUnfailed, update_onramp_status-WorldUnfailed, WorldUnfailed-trans,
  Ensures-WorldUnfailed_then,
}
use api_bloxfi.Webhook.Repos.{FeeTerminal}
use api_bloxfi.Fee.Settle.{
  FeeRepo, apply_ramp_platform_fee_withdrawal_webhook, persist_platform_fee_settlement,
}
use api_bloxfi.Fee.Settle.Repos.{
  update_onramp_fees, onramp_fee_repo, offramp_fee_repo, onramp_fee_webhook, offramp_fee_webhook,
}
use api_bloxfi.Payout.Offramp.{
  PayoutDeps, PayoutResult, accepted, refused, record_payout, try_offramp_payout,
  advance_offramp_if_deposit_ready,
}
use api_bloxfi.Payout.Onramp.{
  CryptoPayoutDeps, is_fiat_processed, initiated, start_crypto_payout, after_settlement,
  advance_onramp_row, advance_onramp_if_fiat_processed,
}

record_payout-WorldUnfailed :
    (now : String) (body : Fields) (row : OfframpRow) (r : PayoutResult) (w : World)
    → Ensures (WorldUnfailed w) (record_payout now body row r w)
unfolding record_payout
record_payout-WorldUnfailed now body row (accepted id s q p) w =
    update_offramp_status-WorldUnfailed now row.id _ _ w refl
record_payout-WorldUnfailed now body row (refused e p) w =
    update_offramp_status-WorldUnfailed now row.id _ _ w refl

try_offramp_payout-WorldUnfailed :
    (now : String) (deps : PayoutDeps) (id : String) (w : World)
    → Ensures (WorldUnfailed w) (try_offramp_payout now deps id w)
unfolding try_offramp_payout
try_offramp_payout-WorldUnfailed now deps id w =
    search (Ensures-bind, record_payout-WorldUnfailed) depth 8

pub advance_offramp-WorldUnfailed :
    (now : String) (deps : PayoutDeps) (id : String) (w : World)
    → WorldUnfailed w (advance_offramp_if_deposit_ready now deps id w)
unfolding advance_offramp_if_deposit_ready
advance_offramp-WorldUnfailed now deps id w =
    Ensures-otherwise w (WorldUnfailed-refl w) (try_offramp_payout-WorldUnfailed now deps id w)

initiated-WorldUnfailed :
    (now : String) (row : OnrampRow) (w : World) → Ensures (WorldUnfailed w) (initiated now row w)
initiated-WorldUnfailed now row w =
    Ensures-if (is_fiat_processed row.status) _ _
      (λ _. update_onramp_status-WorldUnfailed now row.id crypto_initiated no_onramp_patch w refl)
      (λ _. returns (WorldUnfailed-refl w))

pending-WorldUnfailed :
    (now : String) (row : OnrampRow) (w : World) (u : OnrampPatch)
    → Ensures (WorldUnfailed w) (
        initiated now row w >>= λ v.
        update_onramp_status now automatic row.id OnrampStatus.crypto_pending u v)
pending-WorldUnfailed now row w u =
    Ensures-WorldUnfailed_then (initiated now row w) _ (initiated-WorldUnfailed now row w)
      (λ v. update_onramp_status-WorldUnfailed now row.id OnrampStatus.crypto_pending u v refl)

start_crypto_payout-WorldUnfailed :
    (now : String) (deps : CryptoPayoutDeps) (ref : String) (row : OnrampRow) (w : World)
    → Ensures (WorldUnfailed w) (start_crypto_payout now deps ref row w)
unfolding start_crypto_payout
start_crypto_payout-WorldUnfailed now deps ref row w =
    search (Ensures-bind, pending-WorldUnfailed) depth 8

after_settlement-WorldUnfailed :
    (now : String) (deps : CryptoPayoutDeps) (ref : String) (row : OnrampRow) (w : World)
    (r : Bool × World)
    → WorldUnfailed w r.1
    → WorldUnfailed w (after_settlement now deps ref row r)
after_settlement-WorldUnfailed now deps ref row w (true, v) h = h
after_settlement-WorldUnfailed now deps ref row w (false, v) h = WorldUnfailed-trans h (
    Ensures-otherwise v (WorldUnfailed-refl v)
      (start_crypto_payout-WorldUnfailed now deps ref row v))

settled-WorldUnfailed :
    (deps : CryptoPayoutDeps) (row : OnrampRow) (w : World) (b : Bool)
    → WorldUnfailed w (deps.settle_internally row w).1
    → WorldUnfailed w (if b then deps.settle_internally row w else (false, w)).1
settled-WorldUnfailed deps row w true h = h
settled-WorldUnfailed deps row w false h = WorldUnfailed-refl w

pub advance_onramp-WorldUnfailed :
    (now : String) (deps : CryptoPayoutDeps) (id : String) (w : World)
    → ((row : OnrampRow) (v : World) → WorldUnfailed v (deps.settle_internally row v).1)
    → WorldUnfailed w (advance_onramp_if_fiat_processed now deps id w)
unfolding advance_onramp_if_fiat_processed advance_onramp_row
advance_onramp-WorldUnfailed now deps id w h =
    Ensures-otherwise w (WorldUnfailed-refl w)
      (Ensures-bind (find_onramp_by_id id w) _ λ row _. row_advanced row)
  where
    row_advanced : (row : OnrampRow) → Ensures (WorldUnfailed w) (advance_onramp_row now deps row w)
    row_advanced row =
        search (Ensures-bind, returns, after_settlement-WorldUnfailed, settled-WorldUnfailed, h)
          depth 8

fees_saved : (fees : Value) (r : OnrampRow) → OnrampUnfailed r (record r { fees = fees })
fees_saved fees r = record { same_id = refl; same_txn_ref = refl; not_failed = λ n. n }

update_onramp_fees-WorldUnfailed :
    (id : String) (fees : Value) (w : World)
    → Ensures (WorldUnfailed w) (update_onramp_fees id fees w)
unfolding update_onramp_fees
update_onramp_fees-WorldUnfailed id fees w = Ensures-bind (find_onramp_by_id id w) _ λ row e.
    returns (record {
      offramps = Each-refl OfframpUnfailed-refl w.offramps;
      onramps =
          Each-modify (onramp_has_id id) (λ r. record r { fees = fees }) w.onramps
            (λ r _. fees_saved fees r) OnrampUnfailed-refl;
    })

-- A repository that saves fees without failing a ramp.
abbrev SavesSafely : FeeRepo → Type 0
SavesSafely repo =
    (id : String) (fees : Value) (w : World) → Ensures (WorldUnfailed w) (repo.save_fees id fees w)

fee_webhook-WorldUnfailed :
    (now : String) (repo : FeeRepo) (parent : String) (f : Fields) (t : FeeTerminal) (w : World)
    → SavesSafely repo
    → Ensures (WorldUnfailed w) (apply_ramp_platform_fee_withdrawal_webhook now repo parent f t w)
unfolding apply_ramp_platform_fee_withdrawal_webhook persist_platform_fee_settlement
fee_webhook-WorldUnfailed now repo parent f t w h = search (Ensures-bind, h) depth 10

pub onramp_fee-WorldUnfailed :
    (now parent : String) (f : Fields) (t : FeeTerminal) (w : World)
    → WorldUnfailed w (onramp_fee_webhook now parent f t w)
unfolding onramp_fee_webhook onramp_fee_repo
onramp_fee-WorldUnfailed now parent f t w =
    Ensures-otherwise w (WorldUnfailed-refl w)
      (fee_webhook-WorldUnfailed now onramp_fee_repo parent f t w update_onramp_fees-WorldUnfailed)

pub offramp_fee-WorldUnfailed :
    (now parent : String) (f : Fields) (t : FeeTerminal) (w : World)
    → WorldUnfailed w (offramp_fee_webhook now parent f t w)
unfolding offramp_fee_webhook offramp_fee_repo
offramp_fee-WorldUnfailed now parent f t w = Ensures-otherwise w (WorldUnfailed-refl w) (
    fee_webhook-WorldUnfailed now (offramp_fee_repo now) parent f t w
      (λ id fees v. update_offramp_status-WorldUnfailed now id _ _ v refl))
