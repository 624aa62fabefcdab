-- ===== src/FiatToFiat.antt =====
-- The fiat-to-fiat flow: an onramp that funds an offramp is settled without a transfer on a chain.
pub mod Pair
pub mod Claim
pub mod Settle
pub mod Link
