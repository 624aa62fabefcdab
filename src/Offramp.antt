-- ===== src/Offramp.antt =====
-- Offramps: the amount of a crypto deposit, cancelling, and the retry of a fiat payout.
pub mod DepositAmount
pub mod Cancel
pub mod Create
pub mod FiatRetry
