-- ===== src/Facts.antt =====
-- crates/zag-facts: the fact tables, the readers over them, and their wire format.
pub mod Handles
pub mod Kinds
pub mod Tables
pub mod Access
pub mod Ranges
pub mod Validate
pub mod Build
pub mod Wire
