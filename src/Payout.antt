-- ===== src/Payout.antt =====
-- Starting the payout of a ramp at the provider once the customer's funds are confirmed.
pub mod Offramp
pub mod Onramp
pub mod Retry
pub mod Reissue
pub mod Never
pub mod Wired
pub mod Hold
