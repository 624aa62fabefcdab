-- ===== src/Examples/Creations.antt =====
-- Runs about the creation of offramps.
use api_bloxfi.Prelude.{String, true, refl, ◌≡◌, Option, none, some, [], ◌∷◌, pass}
use api_bloxfi.Text.{trim, to_lower, to_upper}
use api_bloxfi.Numeric.{units}
use api_bloxfi.Json.{undefined, null, str, obj, object, end, get}
use api_bloxfi.Table.{find}
use api_bloxfi.TxnRef.{generate_offramp_txn_ref}
use api_bloxfi.Ramp.Status.{offramp_created, should_emit_ramp_event}
use api_bloxfi.Ramp.Store.{World, OfframpRow, find_offramp_by_id, schedule}
use api_bloxfi.Offramp.Create.Request.{
  OfframpQuote, CreateRequest, CreateUser, OfframpAccount, CreatedDeposit, CreateDeps, any_approved,
  assert_corridor,
}
use api_bloxfi.Offramp.Create.{new_row, insert_offramp, create_offramp}
use api_bloxfi.Offramp.Create.Laws.{Created, create_offramp-Created}
use api_bloxfi.Offramp.Create.Waits.{WaitsFor, create_offramp-WaitsFor}
use api_bloxfi.Examples.{waiting, world_of}

abbrev user : CreateUser
user = record {
  id = "u1";
  business_info = obj (object (("email", str "a@b.example") ∷ ("legalName", str "B") ∷ []));
}

abbrev account : OfframpAccount
account = record {
  id = "a1";
  currency = "NGN";
  provider_payout = obj (
      object (
        (
          "corridor",
          obj (
              object (
                ("country", str "ng")
                ∷ ("destinationType", str "bank")
                ∷ ("asset", str "NGN")
                ∷ [])),
        )
        ∷ []));
  payment_rail = "LOCAL";
}

abbrev deposit : CreatedDeposit
deposit = record { deposit_instructions = null; provider_refs = end }

abbrev format_sample : Option String → String
format_sample none = ""
format_sample (some s) = s

abbrev deps : CreateDeps
deps = record {
  find_user = λ id. some user;
  rail_statuses = λ id rail. "pending" ∷ "approved" ∷ [];
  find_account = λ id u. some account;
  find_wallet = λ id u. none;
  is_account_ready = λ payout. true;
  create_deposit = λ q. some deposit;
  resolve_sender_info = λ currency rail. none;
  format_cap = format_sample;
  now = "2025-01-02";
  new_id = "o2";
  random_hex = "aaaaaaaaaaaaaaaaaaaaaaaa";
}

abbrev request : CreateRequest
request = record {
  user_id = "u1";
  external_wallet_id = "";
  destination_user_id = "u1";
  account_id = "a1";
  destination_currency = some "ngn";
  transfer_type = none;
  bank_transfer_method = undefined;
  reference = undefined;
  purpose_of_payment = undefined;
  metadata = undefined;
}

abbrev quote : OfframpQuote
quote = record {
  from_currency = "USDC";
  to_currency = "ngn";
  from_chain = "base";
  send_amount = units 10000000000;
  destination_amount = units 15000000000000;
  corridor = record { country = "NG"; destination_type = "bank"; beneficiary_type = "" };
  rate_information = end;
  rate_valid_until = "2025-01-03";
  fees = null;
  source_amount_cap = some "101";
  send_net_amount = none;
}

abbrev world : World
world = world_of (waiting ∷ [])

abbrev created_row : OfframpRow
created_row = new_row deps request "r9" quote user account none deposit

abbrev created_world : World
created_world = record world {
  offramps = created_row ∷ waiting ∷ [];
  sent = record { event = offramp_created; subject = "o2" } ∷ [];
}

creation_runs : create_offramp deps request "r9" quote world ≡ pass (created_row, created_world)
unfolding create_offramp any_approved assert_corridor insert_offramp find get trim to_lower to_upper
    should_emit_ramp_event schedule generate_offramp_txn_ref
creation_runs = refl

create_offramp-Created_example : Created deps request "r9" quote world created_row created_world
create_offramp-Created_example =
    create_offramp-Created deps request "r9" quote world created_row created_world creation_runs

create_offramp-WaitsFor_example :
    (find_offramp_by_id "o2" created_world ≡ some created_row) × WaitsFor 10000000000 created_row
create_offramp-WaitsFor_example =
    create_offramp-WaitsFor deps request "r9" quote world created_row created_world 9999999999
      creation_runs refl
