-- ===== src/Integrity.antt =====
-- dataintegrity: data integrity proofs on JSON documents.
pub mod Models
pub mod Method
pub mod Listed
pub mod Verifier
pub mod Steps
pub mod Resolution
pub mod Accepted
pub mod Signed
mod Tests
