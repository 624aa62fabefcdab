-- ===== src/Ramp.antt =====
-- Onramps (fiat to crypto) and offramps (crypto to fiat): statuses, stored rows, the repositories that
-- update them, and the guards on their transitions.
pub mod Status
pub mod Guard
pub mod Store
pub mod Update
pub mod Held
pub mod Unfailed
pub mod Expiry
