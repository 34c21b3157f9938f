-- ===== src/Storage.antt =====
-- legacy/mem/mem.go: the in-memory storage provider.
pub mod Types
pub mod Store
pub mod Query
pub mod Common
pub mod Matches
pub mod Iteration
mod Tests
pub mod Cursor
pub mod Provider
pub mod Entries
pub mod Methods
pub mod Handles
pub mod Closing
