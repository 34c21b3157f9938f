-- ===== src/Requirement.antt =====
-- presexch/internal/requirementlogic: submission requirement logic.
pub mod Sets
pub mod Logic
pub mod Satisfaction
pub mod Iterator
pub mod Masks
pub mod Search
pub mod Enumeration
pub mod Widen
pub mod Exclusion
pub mod Indices
pub mod Removal
pub mod Positions
pub mod Ahead
mod Tests
