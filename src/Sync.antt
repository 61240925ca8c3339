-- ===== src/Sync.antt =====
-- The log of the synchronisations and the fan-out that a log accounts for.
pub mod Log
pub mod Fanout
