-- ===== src/Offramp/Create/Laws.antt =====
-- What a created offramp has passed, and what is stored for it.
use api_bloxfi.Prelude.{
  String, Bool, true, false, not, ◌≡◌, ◌≢◌, refl, sym, ap, Option, none, some, eq_of_some,
  Bool-cases, inl, inr, ◌==◌, eq_refl, ==_of_ne, Verdict, pass, refuse, refuse_if-pass, eq_of_pass,
}
use api_bloxfi.Text.{trim, to_lower, is_set}
use api_bloxfi.Table.{find}
use api_bloxfi.Ramp.Store.{World, OfframpRow, find_offramp_by_id}
use api_bloxfi.Offramp.Create.Request.{
  CreateError, user_mismatch, user_not_found, not_kyb_verified, account_not_found, wallet_not_found,
  currency_mismatch, account_incomplete, email_required, deposit_address_failed, not_stored,
  OfframpQuote, CreateRequest, CreateUser, OfframpAccount, ExternalWallet, CreatedDeposit,
  CreateDeps, found_or, user_email, wallet_of, assert_corridor,
}
use api_bloxfi.Offramp.Create.{
  new_row, deposit_request, same_keys, is_taken, insert_offramp, stored_row, with_deposit,
  after_corridor, for_wallet, for_account, is_approved, for_user, create_offramp,
}

-- The rows after the insertion of one: it reads back, its keys were free, and the others are as before.
pub record Inserted (row : OfframpRow) (w w' : World) : Type 0 where
  pub free : find (same_keys row) w.offramps ≡ none
  pub stored : find_offramp_by_id row.id w' ≡ some row
  pub others : (id : String) → row.id ≢ id → find_offramp_by_id id w' ≡ find_offramp_by_id id w
  pub onramps_kept : w'.onramps ≡ w.onramps

-- What a created offramp has passed.
pub record Created (deps : CreateDeps) (req : CreateRequest) (request_id : String)
    (quote : OfframpQuote) (w : World) (row : OfframpRow) (w' : World) : Type 0 where
  pub user : CreateUser
  pub account : OfframpAccount
  pub wallet : Option ExternalWallet
  pub deposit : CreatedDeposit
  pub same_user : (req.destination_user_id == req.user_id) ≡ true
  pub user_found : deps.find_user req.user_id ≡ some user
  pub approved : is_approved deps req ≡ true
  pub account_found : deps.find_account req.account_id req.user_id ≡ some account
  pub wallet_found : wallet_of deps req ≡ some wallet
  pub same_currency : (to_lower (trim account.currency) == to_lower (trim quote.to_currency)) ≡ true
  pub ready : deps.is_account_ready account.provider_payout ≡ true
  pub corridor : assert_corridor quote account.provider_payout ≡ pass tt
  pub email : is_set (trim (user_email user.business_info)) ≡ true
  pub deposited : deps.create_deposit (deposit_request deps quote request_id user) ≡ some deposit
  pub written : row ≡ new_row deps req request_id quote user account wallet deposit
  pub inserted : Inserted row w w'

found_or-pass {ℓ κ} :
    {A : Type ℓ} {B : Type κ} {b : B} (m : Option A) (e : CreateError)
    (k : A → Verdict CreateError B)
    → found_or m e k ≡ pass b
    → (a : A) × (m ≡ some a) × (k a ≡ pass b)
found_or-pass none e k h = cc
found_or-pass (some a) e k h = (a, refl, h)

after_corridor-pass :
    {r : OfframpRow × World} (v : Verdict CreateError (Unit {0}))
    (rest : Verdict CreateError (OfframpRow × World))
    → after_corridor v rest ≡ pass r
    → (v ≡ pass tt) × (rest ≡ pass r)
after_corridor-pass (refuse e) rest h = cc
after_corridor-pass (pass t) rest h = (refl, h)

holds : (b : Bool) → not b ≡ false → b ≡ true
holds true h = refl
holds false h = cc

not_taken : (m : Option OfframpRow) → is_taken m ≡ false → m ≡ none
not_taken none h = refl
not_taken (some row) h = cc

insert-Inserted :
    (row : OfframpRow) (w w' : World) → insert_offramp row w ≡ some w' → Inserted row w w'
unfolding insert_offramp find_offramp_by_id find
insert-Inserted row w w' h = elim (Bool-cases (is_taken (find (same_keys row) w.offramps))) [
  | inl t ↦ let broken = rw t at h in cc
  | inr f ↦
      let e = eq_of_some (rw f at h) in
      rw (sym e) (record {
        free = not_taken _ f;
        stored = rw (eq_refl row.id) refl;
        others = λ id ne. rw (==_of_ne row.id id ne) refl;
        onramps_kept = refl;
      })
]

stored_row-Inserted :
    (new row : OfframpRow) (w w' : World)
    → stored_row new w ≡ pass (row, w')
    → (row ≡ new) × Inserted row w w'
stored_row-Inserted new row w w' h =
    let s = found_or-pass (insert_offramp new w) not_stored (λ after. pass (new, after)) h in
    let same = eq_of_pass s.2 in
    let row_same : new ≡ row = ap (λ (p : OfframpRow × World). p.0) same in
    let world_same : s.0 ≡ w' = ap (λ (p : OfframpRow × World). p.1) same in
    (sym row_same, rw (sym row_same, sym world_same) (insert-Inserted new w s.0 s.1))

-- What is left to show once the account is known.
account_checked :
    (deps : CreateDeps) (req : CreateRequest) (request_id : String) (quote : OfframpQuote)
    (w : World) (row : OfframpRow) (w' : World) (user : CreateUser) (account : OfframpAccount)
    → (req.destination_user_id == req.user_id) ≡ true
    → deps.find_user req.user_id ≡ some user
    → is_approved deps req ≡ true
    → deps.find_account req.account_id req.user_id ≡ some account
    → for_account deps req request_id quote w user account ≡ pass (row, w')
    → Created deps req request_id quote w row w'
account_checked deps req request_id quote w row w' user account same found approved bank h =
    let named =
      found_or-pass (wallet_of deps req) wallet_not_found
        (for_wallet deps req request_id quote w user account) h in
    let currency =
      refuse_if-pass (not (to_lower (trim account.currency) == to_lower (trim quote.to_currency)))
        currency_mismatch _ named.2 in
    let ready =
      refuse_if-pass (not (deps.is_account_ready account.provider_payout)) account_incomplete _
        currency.1 in
    let corridor = after_corridor-pass (assert_corridor quote account.provider_payout) _ ready.1 in
    let email =
      refuse_if-pass (not (is_set (trim (user_email user.business_info)))) email_required
        (with_deposit deps req request_id quote w user account named.0) corridor.1 in
    let asked =
      found_or-pass (deps.create_deposit (deposit_request deps quote request_id user))
        deposit_address_failed
        (λ deposit. stored_row (new_row deps req request_id quote user account named.0 deposit) w)
        email.1 in
    let written =
      stored_row-Inserted (new_row deps req request_id quote user account named.0 asked.0) row w w'
        asked.2 in
    record {
      user = user;
      account = account;
      wallet = named.0;
      deposit = asked.0;
      same_user = same;
      user_found = found;
      approved = approved;
      account_found = bank;
      wallet_found = named.1;
      same_currency = holds _ currency.0;
      ready = holds _ ready.0;
      corridor = corridor.0;
      email = holds _ email.0;
      deposited = asked.1;
      written = written.0;
      inserted = written.1;
    }

user_checked :
    (deps : CreateDeps) (req : CreateRequest) (request_id : String) (quote : OfframpQuote)
    (w : World) (row : OfframpRow) (w' : World) (user : CreateUser)
    → (req.destination_user_id == req.user_id) ≡ true
    → deps.find_user req.user_id ≡ some user
    → for_user deps req request_id quote w user ≡ pass (row, w')
    → Created deps req request_id quote w row w'
user_checked deps req request_id quote w row w' user same found h =
    let approved = refuse_if-pass (not (is_approved deps req)) not_kyb_verified _ h in
    let bank =
      found_or-pass (deps.find_account req.account_id req.user_id) account_not_found
        (for_account deps req request_id quote w user) approved.1 in
    account_checked deps req request_id quote w row w' user bank.0 same found (holds _ approved.0)
      bank.1 bank.2

-- An offramp that is created passed every check: one user for both sides, who exists and is approved for the
-- currency, an account and, where one is named, a wallet of that user, the currency and the corridor of the
-- quote, an account that is ready, and an email. The provider gave an address for the quoted amount, the
-- stored row is the one that these determine, its keys were free, and all other rows are as before.
pub create_offramp-Created :
    (deps : CreateDeps) (req : CreateRequest) (request_id : String) (quote : OfframpQuote)
    (w : World) (row : OfframpRow) (w' : World)
    → create_offramp deps req request_id quote w ≡ pass (row, w')
    → Created deps req request_id quote w row w'
unfolding create_offramp
create_offramp-Created deps req request_id quote w row w' h =
    let a = refuse_if-pass (not (req.destination_user_id == req.user_id)) user_mismatch _ h in
    let b =
      found_or-pass (deps.find_user req.user_id) user_not_found
        (for_user deps req request_id quote w) a.1 in
    user_checked deps req request_id quote w row w' b.0 (holds _ a.0) b.1 b.2
