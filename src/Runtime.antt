-- ===== src/Runtime.antt =====
-- xair/core/runtime.py
pub mod State
pub mod Admission
pub mod Validation
pub mod Reports
pub mod Advance
pub mod Outcomes
pub mod Calls
pub mod Gate
pub mod Errors
pub mod Locks
pub mod Pass
pub mod Stops
pub mod Travels
pub mod History
pub mod Policy
pub mod Queue
pub mod StopPolicy
