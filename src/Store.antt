-- ===== src/Store.antt =====
-- xair/core/context_store.py: the versioned context document, in memory or behind Redis.
pub mod Document
pub mod Changes
pub mod Versions
pub mod Reads
pub mod History
pub mod Truth
pub mod Registry
pub mod Commit
pub mod Script
pub mod Log
pub mod Commits
pub mod Flips
pub mod Standing
pub mod Transaction
pub mod Registration
