-- ===== src/Checker.antt =====
-- proof/checker: the checks of linked data, JWT and CWT proofs.
pub mod Types
pub mod Lookup
pub mod Check
pub mod Found
pub mod Accepted
mod Tests
