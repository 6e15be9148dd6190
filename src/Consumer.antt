-- ===== src/Consumer.antt =====
-- xair/adapters/actuation_consumer.py: the consumer of the log of actuations.
pub mod Offset
pub mod Poll
pub mod Replay
pub mod Progress
pub mod Rounds
