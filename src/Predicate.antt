-- ===== src/Predicate.antt =====
-- xair/core/context_validator.py: the predicate language and its evaluation on a context.
-- Expressions are ASCII: `\w`, `\s`, `\d` and `lower` are those of ASCII.
pub mod Scan
pub mod Parse
pub mod Paths
pub mod Float
pub mod Check
pub mod Laws
