-- ===== src/Util.antt =====
-- util: helpers on JSON objects.
pub mod Json
pub mod Objects
mod Tests
