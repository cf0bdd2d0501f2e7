-- ===== src/Lookup.antt =====
-- The option lists that administrators maintain: domains/repository_lookup.py and
-- common/core/lookup_schema.py.
pub mod Options
pub mod Members
mod Tests
pub mod Windows
pub mod Codes
pub mod Versions
pub mod Saving
pub mod Orders
pub mod Follows
pub mod Raises
pub mod Refusals
pub mod Keeping
