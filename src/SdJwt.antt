-- ===== src/SdJwt.antt =====
-- sdjwt/common and sdjwt/verifier: SD-JWTs and their disclosures.
pub mod Types
pub mod Claims
pub mod Disclosures
pub mod Disclose
pub mod Verification
pub mod Format
pub mod Formats
pub mod Mentions
pub mod Unseen
pub mod Keeping
pub mod Steps
pub mod Traversal
pub mod Parsed
pub mod Covered
pub mod Total
pub mod Verifier
pub mod Options
pub mod Holder
pub mod HolderOptions
pub mod Builder
pub mod Presented
pub mod Issued
pub mod Bound
pub mod Accepted
mod Tests
mod BuilderTests
