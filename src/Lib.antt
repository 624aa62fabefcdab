-- ===== src/Lib.antt =====
-- A model of the ramp service: onramps (fiat in, crypto out) and offramps (crypto in, fiat out), with
-- the provider's webhooks that move them and the webhooks that are sent to the partner.
--
-- The program's core is the handler of the provider's webhooks (src/core/webhooks/processWebhookEvent.ts).
-- An event names a ramp by its client reference or its id; the handler checks the payload against the
-- stored row, writes a new status through the repositories (src/db/repositories), and then starts the
-- payout (src/core/offramps/advanceOfframpPayout.ts, src/core/onramps/advanceOnrampPayout.ts) or the fee
-- settlement (src/core/ramps/settleRampPlatformFee.ts). Every automatic update passes the guard of
-- src/core/ramps/fundsReceivedGuard.ts, which keeps a ramp with received funds from failing or expiring.
--
-- Which file models which part:
--   Ramp/Status: the statuses and the partner events of src/types and src/core/partnerWebhooks
--   Ramp/Guard, Ramp/Store: the guard, the rows and `World` (the tables and the scheduled effects), and the
--     updates `updateOnrampStatus` and `updateOfframpStatus`; Ramp/Update, Ramp/Held and Ramp/Unfailed
--     are about one update
--   Ramp/Expiry: src/core/ramps/depositExpiry.ts with both sweeps
--   TxnRef: src/utils/txnRef.ts
--   Offramp: src/core/offramps/offrampDepositAmount.ts, cancelOfframp.ts, offrampFiatRetry.ts
--     and createOfframp.ts (Create, with what it works on in Create/Request)
--   Webhook: `processWebhookEvent`, a file for each group of cases (Deposit, Withdrawal,
--     WithdrawalEvents, Issuance, Account, Kyb, Legacy), put together by Dispatch; Held and its
--     children are about ramps with received funds, over all cases
--   Fee: the settlement of platform fees (Record, Validate, Settle) and the stablecoin rate (Stable)
--   Payout: the start of payouts (Offramp, Onramp), an operator's retry (Retry) and reissue (Reissue),
--     the payouts that the provider holds, of src/core/admin/heldPayouts.ts (Hold), and the repositories as
--     src/api/v1/webhooks/controllers.ts wires them (Wired); Offramp/Again and Onramp/Again are about the
--     advance after an accepted payout
--   FiatToFiat: src/core/fiatToFiat, an onramp that funds an offramp: when they match (Pair), the claim of
--     the offramp by `claimOfframpCrypto` (Claim), the settlement (Settle), and the link that names the
--     offramp when the onramp is created (Link)
--   Webhook/Intake: `handleInboundWebhook` around that handler: the schemas (Payload), the signature
--     (Signature), the key of a delivery (DedupeKey, with the sorted JSON of Json/Sorted), the ledger of
--     keys and the audit log; Runs is about the states that deliveries lead to, as a step relation, told by the
--     calls of the handler (Calls)
--   Partner: the attempts to deliver an event to the partner (Dispatch) and their audit log (Emit)
--   Prelude, Text, Numeric, Json, Table: the early return, strings, numbers, JSON values and tables
--   Examples: concrete rows and runs
--
-- A handler is a function from the state to an optional new state: `none` is a `break`, an early return or
-- an exception before the first write, which all leave the state as it was. The sources wait for one write
-- at a time, so a handler is one function. Of handlers that run at the same time only the claim of an offramp
-- is modelled, whose read and write are two steps. All loops run over finite lists or count down a fixed
-- number of attempts, so no function needs fuel.
--
-- Bounds and abstractions: an amount is a whole number of units of 10⁻⁸, so sums and comparisons are exact
-- and the rounding of doubles is not modelled, except where two amounts differ by exactly a tolerance (the
-- whole unit of a deposit, the cent of a pair): there Numeric/Doubles computes the difference of doubles
-- that decides in the source, for amounts up to ten million; case changes are those of ASCII; a date text
-- is read by a field of the clock; object columns are lists of properties; the time stamps that the
-- database keeps are left out; a partner webhook is its event and its ramp. The provider, stored accounts
-- and the body of a withdrawal are fields of records that the definitions take.
--
-- Not modelled: the creation of onramps and quotes (arithmetic on doubles), the HTTP layer, the provider's
-- clients, other administration pages, accounts, wallets and limits.
pub mod Prelude
pub mod Text
pub mod Numeric
pub mod Json
pub mod Table
pub mod Ramp
pub mod TxnRef
pub mod Offramp
pub mod Webhook
pub mod Fee
pub mod Payout
pub mod FiatToFiat
pub mod Partner
pub mod Examples
