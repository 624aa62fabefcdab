-- ===== src/Webhook/Issuance.antt =====
-- `applyFiatDepositAccountIssuanceWebhook` of processWebhookEvent.ts: the provider's news of a fiat
-- account, whose id is the client reference.
use Prim.Native.Nat.{ℕ}
use Prim.Native.Char.{code}
use Prim.Native.String.{String, [] as nil_text, ◌∷◌ as cons_text}
use api_bloxfi.Prelude.{
  Bool, true, false, ◌&&◌, ◌||◌, Option, none, some, List, [], ◌∷◌, ◌++◌, if◌then◌else◌, ◌==◌,
  ◌>>=◌, ◌>>◌, require, leb, nat_eq,
}
use api_bloxfi.Text.{trim, starts_with}
use api_bloxfi.Json.{Value, null, Fields}
use api_bloxfi.Table.{find, modify}
use api_bloxfi.Ramp.Store.{World, AccountRow}
use api_bloxfi.Webhook.Repos.{WebhookRepos}

pub data CharClass : Type 0 where
  hex dash version variant : CharClass

is_hex_digit : ℕ → Bool
is_hex_digit c =
    (leb b'0' c && leb c b'9') || (leb b'a' c && leb c b'f') || (leb b'A' c && leb c b'F')

in_class : CharClass → ℕ → Bool
in_class hex c = is_hex_digit c
in_class dash c = nat_eq c b'-'
in_class version c = leb b'1' c && leb c b'8'
in_class variant c =
    nat_eq c b'8'
    || nat_eq c b'9'
    || nat_eq c b'a'
    || nat_eq c b'b'
    || nat_eq c b'A'
    || nat_eq c b'B'

matches_classes : List CharClass → String → Bool
matches_classes [] nil_text = true
matches_classes [] (cons_text c s) = false
matches_classes (k ∷ ks) nil_text = false
matches_classes (k ∷ ks) (cons_text c s) = in_class k (code c) && matches_classes ks s

abbrev hex3 : List CharClass
hex3 = hex ∷ hex ∷ hex ∷ []

abbrev hex4 : List CharClass
hex4 = hex ∷ hex3

-- `ACCOUNT_UUID_RE`
unfoldable pub is_account_uuid_client_ref : String → Bool
unfolding matches_classes in_class is_hex_digit
is_account_uuid_client_ref ref =
    matches_classes
      (hex4
        ++ (hex4
            ++ (dash
                ∷ (hex4
                    ++ (dash
                        ∷ version
                        ∷ (hex3
                            ++ (dash ∷ variant ∷ (hex3 ++ (dash ∷ (hex4 ++ (hex4 ++ hex4)))))))))))
      ref

pub data Issuance : Type 0 where
  issuance_active : Fields → Issuance
  issuance_pending : Issuance
  issuance_failed : String → Issuance

abbrev account_agrees : Option String → String → Bool
account_agrees none id = true
account_agrees (some known) id = if known == "" then true else trim known == id

abbrev issue_account : String → Issuance → Value → AccountRow → AccountRow
issue_account id (issuance_active i) details a = record a {
  provider_issuance_status = some "active";
  provisioned_account_id = some id;
  deposit_details = details;
  provider_issuance_failure_reason = none;
}
issue_account id issuance_pending details a = record a {
  provider_issuance_status = some "pending";
  provisioned_account_id = some id;
  provider_issuance_failure_reason = none;
}
issue_account id (issuance_failed reason) details a = record a {
  provider_issuance_status = some "failed";
  provisioned_account_id = some id;
  provider_issuance_failure_reason = some reason;
}

-- The deposit details of an active account; without them the webhook is not applied.
abbrev pub issuance_details : WebhookRepos → Issuance → Option Value
issuance_details repos (issuance_active i) = repos.deposit_details_from_instructions i
issuance_details repos issuance_pending = some null
issuance_details repos (issuance_failed reason) = some null

-- `none` where the source returns false.
unfoldable pub apply_fiat_deposit_account_issuance_webhook :
    WebhookRepos → String → String → String → Issuance → World → Option World
apply_fiat_deposit_account_issuance_webhook repos client_ref id mode issuance w = do
  require (starts_with mode "FIAT_DEPOSIT")
  require (is_account_uuid_client_ref client_ref)
  row ← find (λ (a : AccountRow). a.id == client_ref) w.accounts
  require (row.rail_type == "onramp")
  require (account_agrees row.provisioned_account_id id)
  details ← issuance_details repos issuance
  some (record w {
    accounts =
        modify (λ (a : AccountRow). a.id == row.id) (issue_account id issuance details) w.accounts;
  })
