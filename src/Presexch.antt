-- ===== src/Presexch.antt =====
-- presexch: presentation definitions and their solution.
pub mod Requirements
pub mod Apply
pub mod History
pub mod Scan
pub mod Steps
pub mod Pass
pub mod Ends
pub mod Round
pub mod Solution
pub mod Keeps
pub mod Complete
pub mod Keyed
pub mod Found
pub mod Answer
mod Tests
