-- ===== src/Status.antt =====
-- status: the revocation status of a credential.
pub mod Types
pub mod Bitstring
pub mod StatusList
pub mod Client
pub mod Bits
pub mod Verdict
mod Tests
