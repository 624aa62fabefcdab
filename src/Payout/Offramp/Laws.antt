-- ===== src/Payout/Offramp/Laws.antt =====
-- When a fiat payout is asked of the provider.
use api_bloxfi.Prelude.{
  String, true, false, not, refl, Ensures-any, ◌≡◌, ◌⊎◌, inl, inr, Option, none, some, arith,
  Ensures, Ensures-bind, Ensures-some, returns, require, require_holds, otherwise,
}
use mathlib.Core.Path.{subst}
use api_bloxfi.Text.{is_set}
use api_bloxfi.Json.{Value, str, get, spread, record_or_empty, is_true, is_nullish}
use api_bloxfi.Json.Laws.{get-put}
use api_bloxfi.Offramp.FiatRetry.{is_crypto_confirmed}
use api_bloxfi.Ramp.Status.{OfframpStatus}
use api_bloxfi.Ramp.Store.{World, OfframpRow, automatic, updated_offramp, find_offramp_by_id}
use api_bloxfi.Payout.Offramp.{
  PayoutDeps, accepted_patch, payout_ready, try_offramp_payout, advance_offramp_if_deposit_ready,
}

-- The offramp is CRYPTO_CONFIRMED, and no withdrawal was made or paid for it.
pub record PayoutAllowed (r : OfframpRow) : Type 0 where
  pub confirmed : is_crypto_confirmed r.status ≡ true
  pub not_paid : is_true (get "fiatWithdrawalCompleted" (record_or_empty r.timeline)) ≡ false
  pub no_withdrawal : is_nullish (get "fiatWithdrawalId" (record_or_empty r.timeline)) ≡ true

allow :
    (r : OfframpRow)
    → is_crypto_confirmed r.status ≡ true
    → not (is_true (get "fiatWithdrawalCompleted" (record_or_empty r.timeline))) ≡ true
    → is_nullish (get "fiatWithdrawalId" (record_or_empty r.timeline)) ≡ true
    → PayoutAllowed r
allow r c p n = record { confirmed = c; not_paid = ground arith; no_withdrawal = n }

pub payout_ready-PayoutAllowed :
    (deps : PayoutDeps) (r : OfframpRow) → Ensures (λ _. PayoutAllowed r) (payout_ready deps r)
unfolding payout_ready
payout_ready-PayoutAllowed deps r = Ensures-bind r.txn_ref _ λ ref _.
    Ensures-bind (require (is_set ref)) _ λ _ _.
      Ensures-bind (require (is_crypto_confirmed r.status)) _ λ _ c.
        Ensures-bind
          (require (not (is_true (get "fiatWithdrawalCompleted" (record_or_empty r.timeline))))) _
          λ _ p.
            Ensures-bind
              (require (is_nullish (get "fiatWithdrawalId" (record_or_empty r.timeline)))) _
              λ _ n.
                search
                  (
                    Ensures-bind,
                    returns,
                    allow,
                    require_holds _ c,
                    require_holds _ p,
                    require_holds _ n,
                  )
                  depth 14

try-PayoutAllowed :
    (now : String) (deps : PayoutDeps) (id : String) (w : World)
    → Ensures
        (λ _. (r : OfframpRow) × (find_offramp_by_id id w ≡ some r) × PayoutAllowed r)
        (try_offramp_payout now deps id w)
unfolding try_offramp_payout
try-PayoutAllowed now deps id w = Ensures-bind (find_offramp_by_id id w) _ λ row e.
    Ensures-bind (payout_ready deps row) _ λ ready h.
      Ensures-any (row, e, Ensures-some (subst (Ensures _) h (payout_ready-PayoutAllowed deps row)))
        _

-- Advancing an offramp writes something only if the offramp is there, is CRYPTO_CONFIRMED, and has
-- neither a withdrawal nor the mark of a finished one.
pub advance_offramp-PayoutAllowed :
    (now : String) (deps : PayoutDeps) (id : String) (w : World)
    → (advance_offramp_if_deposit_ready now deps id w ≡ w)
      ⊎ ((r : OfframpRow) × (find_offramp_by_id id w ≡ some r) × PayoutAllowed r)
unfolding advance_offramp_if_deposit_ready
advance_offramp-PayoutAllowed now deps id w =
    written (try_offramp_payout now deps id w) (try-PayoutAllowed now deps id w)
  where
    written :
        (m : Option World)
        → Ensures (λ _. (r : OfframpRow) × (find_offramp_by_id id w ≡ some r) × PayoutAllowed r) m
        → (otherwise w m ≡ w)
          ⊎ ((r : OfframpRow) × (find_offramp_by_id id w ≡ some r) × PayoutAllowed r)
    written none e = inl refl
    written (some v) e = inr (Ensures-some e)

-- The row after the provider accepted, and the row got a status.
abbrev pub accepted_row :
    String → String → Value → Value → Value → OfframpStatus → OfframpRow → OfframpRow
accepted_row now id sender request response s r =
    updated_offramp now automatic s (accepted_patch now id sender request response r) r

pub accepted-withdrawal_id :
    (now id : String) (sender request response : Value) (s : OfframpStatus) (r : OfframpRow)
    → get "fiatWithdrawalId"
        (record_or_empty (accepted_row now id sender request response s r).timeline)
      ≡ str id
unfolding updated_offramp spread
accepted-withdrawal_id now id sender request response s r = simp (get-put)
