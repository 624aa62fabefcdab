-- ===== src/Offramp/Create/Waits.antt =====
-- A created offramp is ready for its deposit.
use api_bloxfi.Prelude.{arith, ℕ, suc, String, true, false, ◌≡◌, refl, Option, none, some, pass}
use api_bloxfi.Numeric.{units}
use api_bloxfi.Json.{get, spread, put}
use api_bloxfi.Offramp.DepositAmount.{
  is_offramp_crypto_deposit_complete, expected_offramp_crypto_amount, prior_crypto_received_amount,
}
use api_bloxfi.Ramp.Status.{awaiting_crypto}
use api_bloxfi.Ramp.Guard.{offramp_funds_received}
use api_bloxfi.Ramp.Store.{World, OfframpRow, find_offramp_by_id}
use api_bloxfi.Offramp.Create.Request.{
  OfframpQuote, CreateRequest, CreateUser, OfframpAccount, ExternalWallet, CreatedDeposit,
  CreateDeps,
}
use api_bloxfi.Offramp.Create.{new_row, create_offramp}
use api_bloxfi.Offramp.Create.Laws.{create_offramp-Created}

-- What the deposit of `n` units to a stored row meets.
pub record WaitsFor (n : ℕ) (row : OfframpRow) : Type 0 where
  pub waiting : row.status ≡ awaiting_crypto
  pub expected : expected_offramp_crypto_amount row.source row.deposit_instructions ≡ some n
  pub nothing_prior : prior_crypto_received_amount row.timeline ≡ 0
  pub not_funded : offramp_funds_received row.status row.timeline ≡ false
  pub completes : (asset : String) → is_offramp_crypto_deposit_complete n n asset ≡ true

full_amount :
    (n : ℕ) (asset : String) → is_offramp_crypto_deposit_complete (suc n) (suc n) asset ≡ true
unfolding is_offramp_crypto_deposit_complete
full_amount n asset = ground arith

new_row-WaitsFor :
    (deps : CreateDeps) (req : CreateRequest) (request_id : String) (quote : OfframpQuote)
    (user : CreateUser) (account : OfframpAccount) (wallet : Option ExternalWallet)
    (deposit : CreatedDeposit) (n : ℕ)
    → quote.send_amount ≡ units (suc n)
    → WaitsFor (suc n) (new_row deps req request_id quote user account wallet deposit)
unfolding expected_offramp_crypto_amount prior_crypto_received_amount offramp_funds_received get
    spread put
new_row-WaitsFor deps req request_id quote user account none deposit n e = record {
  waiting = refl;
  expected = rw e refl;
  nothing_prior = refl;
  not_funded = refl;
  completes = full_amount n;
}
new_row-WaitsFor deps req request_id quote user account (some wallet) deposit n e = record {
  waiting = refl;
  expected = rw e refl;
  nothing_prior = refl;
  not_funded = refl;
  completes = full_amount n;
}

-- An offramp that is created for a positive amount is read back under its id in AWAITING_CRYPTO, expects
-- the amount of the quote, counts nothing as received and its funds as not received, and a deposit of the
-- full amount completes it.
pub create_offramp-WaitsFor :
    (deps : CreateDeps) (req : CreateRequest) (request_id : String) (quote : OfframpQuote)
    (w : World) (row : OfframpRow) (w' : World) (n : ℕ)
    → create_offramp deps req request_id quote w ≡ pass (row, w')
    → quote.send_amount ≡ units (suc n)
    → (find_offramp_by_id row.id w' ≡ some row) × WaitsFor (suc n) row
create_offramp-WaitsFor deps req request_id quote w row w' n h e =
    let c = create_offramp-Created deps req request_id quote w row w' h in
    (
      c.inserted.stored,
      rw c.written
          (new_row-WaitsFor deps req request_id quote c.user c.account c.wallet c.deposit n e),
    )
