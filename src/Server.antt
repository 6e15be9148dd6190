-- ===== src/Server.antt =====
-- xair/adapters/http_server.py: the handlers that end an intent, on the runtime and the store that
-- xair/adapters/runtime_state.py holds.
pub mod Endpoints
pub mod Submission
pub mod Retained
pub mod Stops
pub mod Commits
pub mod Gaps
pub mod Withheld
