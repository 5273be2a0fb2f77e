-- ===== src/Value.antt =====
-- src/value.rs: the types that a schema declares for properties, and the canonical forms of their
-- values.
pub mod Calendar
pub mod Timestamp
pub mod Types
pub mod Numbers
pub mod References
pub mod Geo
pub mod Forms
