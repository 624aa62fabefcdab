-- ===== src/Webhook.antt =====
-- core/webhooks/processWebhookEvent.ts: the events of the liquidity provider, one handler for each
-- group of cases of the `switch`.
pub mod Repos
pub mod Deposit
pub mod Withdrawal
pub mod WithdrawalEvents
pub mod Issuance
pub mod Account
pub mod Legacy
pub mod Kyb
pub mod Dispatch
pub mod Held
pub mod Intake
