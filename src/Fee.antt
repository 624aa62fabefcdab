-- ===== src/Fee.antt =====
-- The settlement of the platform fee after a ramp is completed: queued, approved by an operator, paid
-- out by the provider, and closed by its webhook.
pub mod Stable
pub mod Record
pub mod Validate
pub mod Settle
